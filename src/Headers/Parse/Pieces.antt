-- ===== src/Headers/Parse/Pieces.antt =====
-- http/http_headers.cpp: `parse` over one piece of a line.
use gweb_plusplus.Base.{
  ℕ, suc, ◌+◌, ◌≤◌, ◌<◌, Bool, true, false, ◌||◌, [], ◌∷◌, ◌++◌, ltb, ◌==◌, Bytes, length, All,
  more, stop, arith, ◌≡◌, refl, ap, ◌∙◌,
}
use gweb_plusplus.Headers.Parse.{
  in_name, after_colon, in_value, after_cr, after_lf, Parser, is_blank, is_printable, step_name,
  step_colon, step_value, step_cr, next_word, step, advance, run,
}
use gweb_plusplus.Headers.Parse.Lines.{is_name_byte, is_graphic, IsWord}

-- One turn of the loop.
pub run-more :
    (realloc : ℕ → Bool) (buf cs : Bytes) (c : ℕ) (p q : Parser)
    → step realloc p.state buf p c ≡ more q
    → q.offset < 8192
    → run realloc buf (c ∷ cs) p ≡ run realloc buf cs (record q { offset = q.offset + 1 })
unfolding run advance
run-more realloc buf cs c p q e lt =
    let d : ltb 8192 (q.offset + 1) ≡ false = ground arith in
    ap (λ t. elim (advance t) [ more u ↦ run realloc buf cs u | stop r ↦ r ]) e ∙ rw d refl

module _ (realloc : ℕ → Bool) (buf : Bytes) where
  name_byte-step :
      (c : ℕ) (p : Parser) → is_name_byte c ≡ true → step realloc in_name buf p c ≡ more p
  unfolding step step_name is_blank is_printable
  name_byte-step c p h =
      let a : (c == b':') ≡ false = ground arith in
      let b : (c == b' ' || c == 9) ≡ false = ground arith in
      let d : (ltb c b' ' || ltb 126 c) ≡ false = ground arith in rw a (rw b (rw d refl))

  pub name-run :
      (xs rest : Bytes) (p : Parser)
      → All (λ c. is_name_byte c ≡ true) xs
      → p.offset + length xs ≤ 8192
      → run realloc buf (xs ++ rest) (record p { state = in_name })
        ≡ run realloc buf rest (record p { state = in_name; offset = p.offset + length xs })
  name-run [] rest p h le =
      ap (λ n. run realloc buf rest (record p { state = in_name; offset = n }))
        (let e : p.offset ≡ p.offset + 0 = omega arith in e)
  name-run (x ∷ xs) rest p h le =
      run-more realloc buf (xs ++ rest) x (record p { state = in_name })
        (record p { state = in_name }) (name_byte-step x (record p { state = in_name }) h.0)
        (omega (arith, le))
      ∙ name-run xs rest (record p { offset = p.offset + 1 }) h.1 (omega (arith, le))
      ∙ ap (λ n. run realloc buf rest (record p { state = in_name; offset = n }))
          (let e : p.offset + 1 + length xs ≡ p.offset + suc (length xs) = omega arith in e)

  graphic-step :
      (c : ℕ) (p : Parser)
      → is_graphic c ≡ true
      → p.end' ≡ 0
      → step realloc in_value buf p c ≡ more p
  unfolding step step_value next_word is_blank
  graphic-step c p h z =
      let a : (c == 13) ≡ false = ground arith in
      let b : (c == 10) ≡ false = ground arith in
      let d : (c == b' ' || c == 9) ≡ false = ground arith in rw a (rw b (rw d (rw h (rw z refl))))

  pub word-run :
      (xs rest : Bytes) (p : Parser)
      → All (λ c. is_graphic c ≡ true) xs
      → p.offset + length xs ≤ 8192
      → run realloc buf (xs ++ rest) (record p { state = in_value; end' = 0 })
        ≡ run realloc buf rest
            (record p { state = in_value; end' = 0; offset = p.offset + length xs })
  word-run [] rest p h le =
      ap (λ n. run realloc buf rest (record p { state = in_value; end' = 0; offset = n }))
        (let e : p.offset ≡ p.offset + 0 = omega arith in e)
  word-run (x ∷ xs) rest p h le =
      run-more realloc buf (xs ++ rest) x (record p { state = in_value; end' = 0 })
        (record p { state = in_value; end' = 0 })
        (graphic-step x (record p { state = in_value; end' = 0 }) h.0 refl) (omega (arith, le))
      ∙ word-run xs rest (record p { offset = p.offset + 1 }) h.1 (omega (arith, le))
      ∙ ap (λ n. run realloc buf rest (record p { state = in_value; end' = 0; offset = n }))
          (let e : p.offset + 1 + length xs ≡ p.offset + suc (length xs) = omega arith in e)

  first_graphic-step :
      (c : ℕ) (p : Parser)
      → is_graphic c ≡ true
      → step realloc after_colon buf p c
        ≡ more (record p { token = p.offset; end' = 0; state = in_value })
  unfolding step step_colon
  first_graphic-step c p h =
      let a : (c == 13) ≡ false = ground arith in
      let b : (c == 10) ≡ false = ground arith in rw a (rw b (rw h refl))

  -- The parser behind a value of `len` bytes that starts at `token`, and the end of its line.
  abbrev pub with_value : Parser → ℕ → ℕ → Parser
  with_value p token len = record p {
    state = after_lf;
    token = token;
    end' = token + len;
    crlfs = 1;
    offset = token + len + 1 + 1;
  }

  line_end-run :
      (rest : Bytes) (p : Parser)
      → p.offset + 2 ≤ 8192
      → run realloc buf (13 ∷ 10 ∷ rest) (record p { state = in_value; end' = 0; crlfs = 0 })
        ≡ run realloc buf rest
            (record p { state = after_lf; end' = p.offset; crlfs = 1; offset = p.offset + 1 + 1 })
  unfolding step step_value step_cr
  line_end-run rest p le =
      run-more realloc buf (10 ∷ rest) 13 (record p { state = in_value; end' = 0; crlfs = 0 })
        (record p { state = after_cr; end' = p.offset; crlfs = 0 }) refl (omega (arith, le))
      ∙ run-more realloc buf rest 10
          (record p { state = after_cr; end' = p.offset; crlfs = 0; offset = p.offset + 1 })
          (record p { state = after_lf; end' = p.offset; crlfs = 1; offset = p.offset + 1 }) refl
          (omega (arith, le))

  pub value-run :
      (v : ℕ) (vs rest : Bytes) (p : Parser)
      → IsWord is_graphic (v ∷ vs)
      → p.offset + length vs + 4 ≤ 8192
      → run realloc buf
          (b' ' ∷ ((v ∷ vs) ++ (13 ∷ 10 ∷ rest)))
          (record p { state = after_colon; crlfs = 0 })
        ≡ run realloc buf rest (with_value p (p.offset + 1) (suc (length vs)))
  unfolding step step_colon is_blank
  value-run v vs rest p h le =
      run-more realloc buf ((v ∷ vs) ++ (13 ∷ 10 ∷ rest)) b' '
        (record p { state = after_colon; crlfs = 0 }) (record p { state = after_colon; crlfs = 0 })
        refl (omega (arith, le))
      ∙ run-more realloc buf (vs ++ (13 ∷ 10 ∷ rest)) v
          (record p { state = after_colon; crlfs = 0; offset = p.offset + 1 })
          (record p {
            state = in_value;
            crlfs = 0;
            offset = p.offset + 1;
            token = p.offset + 1;
            end' = 0;
          })
          (first_graphic-step v (record p { state = after_colon; crlfs = 0; offset = p.offset + 1 })
            h.0)
          (omega (arith, le))
      ∙ word-run vs (13 ∷ 10 ∷ rest)
          (record p { crlfs = 0; offset = p.offset + 1 + 1; token = p.offset + 1 }) h.1
          (omega (arith, le))
      ∙ line_end-run rest
          (record p { crlfs = 0; offset = p.offset + 1 + 1 + length vs; token = p.offset + 1 })
          (omega (arith, le))
      ∙ ap
          (λ n. run realloc buf rest (record p {
            state = after_lf;
            token = p.offset + 1;
            end' = n;
            crlfs = 1;
            offset = n + 1 + 1;
          }))
          (let e : p.offset + 1 + 1 + length vs ≡ p.offset + 1 + suc (length vs) = omega arith in e)
