-- ===== src/Headers/Parse/Printed.antt =====
-- http/http_headers.cpp: `parse` on a block of lines, against the calls that add them one by one.
use gweb_plusplus.Base.{
  ℕ, ◌+◌, ◌≤◌, ◌<◌, Bool, true, false, ◌&&◌, List, [], ◌∷◌, ◌++◌, ltb, ◌==◌, if◌then◌else◌, Bytes,
  length, All, more, stop, arith, ◌≡◌, refl, ap, ◌∙◌,
}
use gweb_plusplus.Headers.Store.{Store}
use gweb_plusplus.Headers.Parse.{
  start, in_name, after_cr, after_lf, ParseResult, error_headers_too_large, end_of_header, Parser,
  Turn, is_printable, start_name, end_line, end_block, step_start, step_cr, key_in, after_add,
  add_field, step_lf, step, advance, run, parse,
}
use gweb_plusplus.Headers.Parse.Lines.{
  is_name_byte, is_graphic, IsWord, Line, IsLine, print, and_then, add_lines,
}
use gweb_plusplus.Base.{length-append}
use gweb_plusplus.Headers.Parse.{reset}
use gweb_plusplus.Headers.Parse.Blocks.{outcome, Rest, line-run}

abbrev finish : (ℕ → Bool) → Bytes → Bytes → Turn → Parser × ParseResult
finish realloc buf cs t = elim (advance t) [ more u ↦ run realloc buf cs u | stop r ↦ r ]

-- The first byte of a name.
module _ (c : ℕ) (h : is_name_byte c ≡ true) where
  name_start-start : (p : Parser) → step_start p c ≡ start_name p
  unfolding step_start is_printable
  name_start-start p =
      let a : (c == b':') ≡ false = ground arith in
      let b : (ltb b' ' c && ltb c 127) ≡ true = ground arith in rw a (rw b refl)

  name_start-lf :
      (realloc : ℕ → Bool) (buf : Bytes) (p : Parser)
      → step_lf realloc buf p c ≡ after_add p start_name (add_field realloc buf p)
  unfolding step_lf is_printable
  name_start-lf realloc buf p =
      let a : (c == 13) ≡ false = ground arith in
      let b : (c == 10) ≡ false = ground arith in
      let d : (c == b':') ≡ false = ground arith in
      let g : (ltb b' ' c && ltb c 127) ≡ true = ground arith in rw a (rw b (rw d (rw g refl)))

module _ (realloc : ℕ → Bool) (buf : Bytes) (small : length buf ≤ 8192) where
  advance-more :
      (p : Parser) (cs : Bytes)
      → p.offset < 8192
      → finish realloc buf cs (more p) ≡ run realloc buf cs (record p { offset = p.offset + 1 })
  unfolding advance
  advance-more p cs lt =
      let q : Parser = record p { offset = p.offset + 1 } in
      let d : ltb 8192 (p.offset + 1) ≡ false = ground arith in
      let turn : Bool → Turn = λ b. if b then stop (q, error_headers_too_large) else more q in
      ap
        (λ b. elim (turn b) as (λ _. Parser × ParseResult) [
          | more u ↦ run realloc buf cs u
          | stop r ↦ r
        ])
        d

  -- The empty line.
  last-run :
      (p : Parser) (r : Store × Bool)
      → p.crlfs ≡ 1
      → p.offset + 2 ≡ length buf
      → outcome
          (finish realloc buf (10 ∷ []) (after_add p (λ q. more (record q { state = after_cr })) r))
        ≡ and_then (add_lines realloc p.ignore_errors (length buf) []) r
  unfolding run step step_cr advance add_lines
  last-run p (s, false) one e = refl
  last-run p (s, true) one e =
      ap outcome (
        advance-more (record p { store = s; state = after_cr }) (10 ∷ []) (omega (arith, e, small)))
      ∙ (let z : (p.crlfs == 1) ≡ true = ground arith in
          let q : Parser = record p { store = s; offset = p.offset + 1; state = after_cr } in
          ap (λ b. outcome (finish realloc buf [] (if b then end_block q else end_line q))) z
          ∙ ap (λ n. (s, end_of_header n))
              (let d : p.offset + 1 + 1 ≡ length buf = omega (arith, e) in d))

  next-run :
      (ls : List Line) (p : Parser) (pre cs vs : Bytes) (c v : ℕ) (r : Store × Bool)
      → buf ≡ pre ++ ((c ∷ cs) ++ (b':' ∷ b' ' ∷ ((v ∷ vs) ++ (13 ∷ 10 ∷ print ls))))
      → p.offset ≡ length pre
      → p.offset < 8192
      → IsWord is_name_byte (c ∷ cs)
      → IsWord is_graphic (v ∷ vs)
      → Rest realloc buf small ls
      → outcome (
          finish realloc buf
            (cs ++ (b':' ∷ b' ' ∷ ((v ∷ vs) ++ (13 ∷ 10 ∷ print ls))))
            (after_add p start_name r))
        ≡ and_then
            (add_lines realloc p.ignore_errors
              (length buf)
              (record { name = c ∷ cs; value = v ∷ vs } ∷ ls))
            r
  unfolding advance
  next-run ls p pre cs vs c v (s, false) e at lt name value ih = refl
  next-run ls p pre cs vs c v (s, true) e at lt name value ih =
      ap outcome
        (advance-more (record p { store = s; token = p.offset; crlfs = 0; state = in_name }) _ lt)
      ∙ line-run realloc buf small ls (record p { store = s }) pre cs vs c v e at name value ih

  bound :
      (pre name rest : Bytes) (p : Parser)
      → buf ≡ pre ++ (name ++ rest)
      → p.offset ≡ length pre
      → p.offset + length name + length rest ≤ 8192
  bound pre name rest p e at =
      omega
        (arith, ap length e, at, small, length-append pre (name ++ rest), length-append name rest)

  -- A line behind another.
  line_after-run :
      (name value : Bytes) (ls : List Line) (p : Parser) (pre : Bytes)
      → buf ≡ pre ++ (name ++ (b':' ∷ b' ' ∷ (value ++ (13 ∷ 10 ∷ print ls))))
      → p.offset ≡ length pre
      → IsWord is_name_byte name
      → IsWord is_graphic value
      → Rest realloc buf small ls
      → outcome (
          run realloc buf
            (name ++ (b':' ∷ b' ' ∷ (value ++ (13 ∷ 10 ∷ print ls))))
            (record p { state = after_lf; crlfs = 1 }))
        ≡ and_then
            (add_lines realloc p.ignore_errors
              (length buf)
              (record { name = name; value = value } ∷ ls))
            (add_field realloc buf p)
  unfolding run step add_field key_in
  line_after-run [] value ls p pre e at name v ih = absurd name
  line_after-run (c ∷ cs) [] ls p pre e at name v ih = absurd v
  line_after-run (c ∷ cs) (v ∷ vs) ls p pre e at name value ih =
      ap
        (λ t.
          outcome (finish realloc buf (cs ++ (b':' ∷ b' ' ∷ ((v ∷ vs) ++ (13 ∷ 10 ∷ print ls)))) t))
        (name_start-lf c name.0 realloc buf (record p { state = after_lf; crlfs = 1 }))
      ∙ next-run ls (record p { state = after_lf; crlfs = 1 }) pre cs vs c v
          (add_field realloc buf p) e at
          (omega
            (arith, bound pre (c ∷ cs) (b':' ∷ b' ' ∷ ((v ∷ vs) ++ (13 ∷ 10 ∷ print ls))) p e at))
          name value ih

  -- The first line.
  line_first-run :
      (name value : Bytes) (ls : List Line) (p : Parser)
      → buf ≡ name ++ (b':' ∷ b' ' ∷ (value ++ (13 ∷ 10 ∷ print ls)))
      → p.offset ≡ 0
      → IsWord is_name_byte name
      → IsWord is_graphic value
      → Rest realloc buf small ls
      → outcome (
          run realloc buf
            (name ++ (b':' ∷ b' ' ∷ (value ++ (13 ∷ 10 ∷ print ls))))
            (record p { state = start }))
        ≡ add_lines realloc p.ignore_errors
            (length buf)
            (record { name = name; value = value } ∷ ls)
            p.store
  unfolding run step
  line_first-run [] value ls p e at name v ih = absurd name
  line_first-run (c ∷ cs) [] ls p e at name v ih = absurd v
  line_first-run (c ∷ cs) (v ∷ vs) ls p e at name value ih =
      ap
        (λ t.
          outcome (finish realloc buf (cs ++ (b':' ∷ b' ' ∷ ((v ∷ vs) ++ (13 ∷ 10 ∷ print ls)))) t))
        (name_start-start c name.0 (record p { state = start }))
      ∙ next-run ls (record p { state = start }) [] cs vs c v (p.store, true) e at
          (omega (arith, at)) name value ih

  lines-run : (ls : List Line) → All IsLine ls → Rest realloc buf small ls
  unfolding print run step step_lf add_field key_in
  lines-run [] all p pre e at =
      last-run (record p { state = after_lf; crlfs = 1 }) (add_field realloc buf p) refl
        (omega (arith, at, ap length e, length-append pre (13 ∷ 10 ∷ [])))
  lines-run (l ∷ ls) all p pre e at =
      line_after-run l.name l.value ls p pre e at all.0.0 all.0.1 (lines-run ls all.1)

module _ (realloc : ℕ → Bool) (p : Parser) (ls : List Line) where
  -- On a block of lines, each of a name, a colon, a space, a value of one word, and CR LF, and an empty line behind
  -- them, of at most 8192 bytes, a parser that has been reset does what calls of `add_header` for the
  -- lines, one by one, do: it returns the offset behind the block as that of the body; or it stops at the
  -- first line whose header may stand in one field only and is there, unless it ignores errors; or at the
  -- first for which there is no memory. The headers are then those that the calls have left.
  pub parse-print :
      All IsLine ls
      → length (print ls) ≤ 8192
      → outcome (parse realloc (print ls) (reset p))
        ≡ add_lines realloc p.ignore_errors (length (print ls)) ls (reset p).store
  unfolding parse print add_lines run step step_start step_cr advance
  parse-print = of ls
    where
      of :
          (ms : List Line)
          → All IsLine ms
          → length (print ms) ≤ 8192
          → outcome (run realloc (print ms) (print ms) (reset p))
            ≡ add_lines realloc p.ignore_errors (length (print ms)) ms (reset p).store
      of [] all small = refl
      of (l ∷ ms) all small =
          line_first-run realloc (print (l ∷ ms)) small l.name l.value ms (reset p) refl refl
            all.0.0 all.0.1 (lines-run realloc (print (l ∷ ms)) small ms all.1)
