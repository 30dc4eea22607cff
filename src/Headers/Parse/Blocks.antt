-- ===== src/Headers/Parse/Blocks.antt =====
-- http/http_headers.cpp: `parse` over a block of lines.
use gweb_plusplus.Base.{
  Bool-cases, inl, inr, ℕ, suc, ◌+◌, ◌-◌, ◌≤◌, ◌<◌, Bool, true, false, not, ◌&&◌, List, [], ◌∷◌,
  ◌++◌, Option, none, some, ◌==◌, if◌then◌else◌, Bytes, length, arith, ◌≡◌, refl, ap, sym, ◌∙◌,
}
use gweb_plusplus.Headers.Table.{unknown_header, get_header}
use gweb_plusplus.Headers.Store.{Store, known, other, slice}
use gweb_plusplus.Headers.Store.Change.{add_header, key_for, key_of}
use gweb_plusplus.Headers.Parse.{
  in_name, after_lf, ParseResult, Parser, header_of, is_repeated, key_in, add_field, run,
}
use gweb_plusplus.Headers.Parse.Lines.{
  is_name_byte, is_graphic, IsWord, Line, print, and_then, is_refused, add_lines,
}
use gweb_plusplus.Base.{length-append}
use gweb_plusplus.Headers.Store.Entries.{slice-between}
use gweb_plusplus.Headers.Parse.Pieces.{name-run, value-run, with_value}
use gweb_plusplus.Headers.Parse.Colon.{with_name, colon-go, colon-stop}

abbrev pub outcome : Parser × ParseResult → Store × ParseResult
outcome (p, r) = (p.store, r)

append-two : (b d : Bytes) (x y : ℕ) → b ++ (x ∷ y ∷ d) ≡ (b ++ (x ∷ y ∷ [])) ++ d
append-two [] d x y = refl
append-two (c ∷ b) d x y = ap (◌∷◌ c) (append-two b d x y)

append_append-two :
    (a b d : Bytes) (x y : ℕ) → a ++ (b ++ (x ∷ y ∷ d)) ≡ (a ++ (b ++ (x ∷ y ∷ []))) ++ d
append_append-two [] b d x y = append-two b d x y
append_append-two (c ∷ a) b d x y = ap (◌∷◌ c) (append_append-two a b d x y)

slice-at :
    (buf a b c : Bytes) (at len : ℕ)
    → buf ≡ a ++ (b ++ c)
    → at ≡ length a
    → len ≡ length b
    → slice buf at len ≡ b
slice-at buf a b c at len e h k =
    ap (λ d. slice d at len) e
    ∙ ap (λ n. slice (a ++ (b ++ c)) n len) h
    ∙ ap (slice (a ++ (b ++ c)) (length a)) k
    ∙ slice-between a b c

key_for-header_of :
    (name : Bytes) (o : Option ℕ)
    → (let h : ℕ = elim o [ none ↦ unknown_header | some h ↦ h ] in
        if h == unknown_header then other name else known h)
      ≡ key_for name o
unfolding key_for
key_for-header_of name none = refl
key_for-header_of name (some h) = refl

-- The name and the value of a field that is read are those of its line.
module _ (realloc : ℕ → Bool) (buf : Bytes) (p : Parser) (name value : Bytes) where
  key_in-key_of :
      p.header ≡ header_of name
      → (p.header ≡ unknown_header → slice buf p.name p.namelen ≡ name)
      → key_in buf p ≡ key_of name
  unfolding key_in key_of
  key_in-key_of h e =
      elim (Bool-cases (p.header == unknown_header))
        as (λ _.
          (if p.header == unknown_header
            then other (slice buf p.name p.namelen)
            else known p.header)
          ≡ (if p.header == unknown_header then other name else known p.header)) [
            | inl u ↦ rw u (ap other (e (ground arith)))
            | inr u ↦ rw u refl
          ]
      ∙ ap (λ n. if n == unknown_header then other name else known n) h
      ∙ key_for-header_of name (get_header name)

  add_field-add_header :
      p.header ≡ header_of name
      → (p.header ≡ unknown_header → slice buf p.name p.namelen ≡ name)
      → 0 < p.token
      → slice buf p.token (p.end' - p.token) ≡ value
      → add_field realloc buf p ≡ add_header realloc p.store name value false
  unfolding add_field add_header
  add_field-add_header h e pos v =
      let z : (p.token == 0) ≡ false = ground arith in rw z (rw (key_in-key_of h e) (rw v refl))

module _ (realloc : ℕ → Bool) (buf : Bytes) (small : length buf ≤ 8192) where
  -- The lines behind, once a field is pending, or none: `r` is what adding it gives.
  abbrev pub Rest : List Line → Type 0
  Rest ls =
      (p : Parser) (pre : Bytes)
      → buf ≡ pre ++ print ls
      → p.offset ≡ length pre
      → outcome (run realloc buf (print ls) (record p { state = after_lf; crlfs = 1 }))
        ≡ and_then (add_lines realloc p.ignore_errors (length buf) ls) (add_field realloc buf p)

  pub line-run :
      (ls : List Line) (p : Parser) (pre cs vs : Bytes) (c v : ℕ)
      → buf ≡ pre ++ ((c ∷ cs) ++ (b':' ∷ b' ' ∷ ((v ∷ vs) ++ (13 ∷ 10 ∷ print ls))))
      → p.offset ≡ length pre
      → IsWord is_name_byte (c ∷ cs)
      → IsWord is_graphic (v ∷ vs)
      → Rest ls
      → outcome (
          run realloc buf
            (cs ++ (b':' ∷ b' ' ∷ ((v ∷ vs) ++ (13 ∷ 10 ∷ print ls))))
            (record p { token = p.offset; crlfs = 0; state = in_name; offset = p.offset + 1 }))
        ≡ add_lines realloc p.ignore_errors
            (length buf)
            (record { name = c ∷ cs; value = v ∷ vs } ∷ ls)
            p.store
  unfolding add_lines is_repeated
  line-run ls p pre cs vs c v e at name value ih =
      let q : Parser = record p {
        token = p.offset;
        crlfs = 0;
        offset = p.offset + 1 + length cs;
      } in
      let rest = (v ∷ vs) ++ (13 ∷ 10 ∷ print ls) in
      let tail = b' ' ∷ rest in
      let pre_value = pre ++ ((c ∷ cs) ++ (b':' ∷ b' ' ∷ [])) in
      let pre_rest = pre_value ++ ((v ∷ vs) ++ (13 ∷ 10 ∷ [])) in
      let h = header_of (c ∷ cs) in
      let len : length buf ≡ length pre + (length cs + length vs + 6 + length (print ls)) = omega (
        arith,
        ap length e,
        length-append pre ((c ∷ cs) ++ (b':' ∷ tail)),
        length-append (c ∷ cs) (b':' ∷ tail),
        length-append (v ∷ vs) (13 ∷ 10 ∷ print ls),
      ) in
      let len_value : length pre_value ≡ length pre + (length cs + 3) = omega (
        arith,
        length-append pre ((c ∷ cs) ++ (b':' ∷ b' ' ∷ [])),
        length-append (c ∷ cs) (b':' ∷ b' ' ∷ []),
      ) in
      let len_rest : length pre_rest ≡ length pre_value + (length vs + 3) = omega (
        arith,
        length-append pre_value ((v ∷ vs) ++ (13 ∷ 10 ∷ [])),
        length-append (v ∷ vs) (13 ∷ 10 ∷ []),
      ) in
      let here : slice buf p.offset (q.offset - p.offset) ≡ c ∷ cs =
        slice-at buf pre (c ∷ cs) (b':' ∷ tail) p.offset (q.offset - p.offset) e at (omega arith) in
      let e_value : buf ≡ pre_value ++ rest = e ∙ append_append-two pre (c ∷ cs) rest b':' b' ' in
      let e_rest : buf ≡ pre_rest ++ print ls =
        e_value ∙ append_append-two pre_value (v ∷ vs) (print ls) 13 10 in
      let q1 : Parser = record (with_name realloc buf q h) { offset = q.offset + 1 } in
      let q2 : Parser = with_value realloc buf q1 (q1.offset + 1) (suc (length vs)) in
      ap outcome (
        name-run realloc buf cs (b':' ∷ tail)
          (record p { token = p.offset; crlfs = 0; offset = p.offset + 1 }) name.1
          (omega (arith, len, at, small)))
      ∙ elim (Bool-cases (not (h == unknown_header) && is_refused p.ignore_errors p.store h)) [
        | inl d ↦ ap outcome (colon-stop realloc buf tail q (c ∷ cs) here d) ∙ sym (rw d refl)
        | inr d ↦
            ap outcome (
              colon-go realloc buf tail q (c ∷ cs) here (omega (arith, len, at, small)) d
              ∙ value-run realloc buf v vs (print ls) q1 value (omega (arith, len, at, small)))
            ∙ ih q2 pre_rest e_rest (omega (arith, len_rest, len_value, at))
            ∙ ap (and_then (add_lines realloc p.ignore_errors (length buf) ls)) (
                add_field-add_header realloc buf q2 (c ∷ cs) (v ∷ vs) refl
                  (λ u. let t : (h == unknown_header) ≡ true = ground arith in rw t here)
                  (omega arith)
                  (slice-at buf pre_value (v ∷ vs) (13 ∷ 10 ∷ print ls) q2.token
                    (q2.end' - q2.token) e_value (omega (arith, len_value, at)) (omega arith)))
            ∙ sym (rw d refl)
      ]
