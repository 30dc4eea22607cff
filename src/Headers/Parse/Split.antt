-- ===== src/Headers/Parse/Split.antt =====
-- http/http_headers.cpp: `parse`, called again as more bytes come.
use gweb_plusplus.Base.{
  ℕ, suc, ◌+◌, ◌-◌, ◌≤◌, Bool, [], ◌∷◌, ◌++◌, ltb, ◌==◌, Bytes, length, drop, more, stop,
  Bool-cases, inl, inr, arith, ◌≡◌, refl, ap, sym, ◌∙◌, length-drop, drop-append, subst,
  drop-length,
}
use gweb_plusplus.Headers.Table.{unknown_header}
use gweb_plusplus.Headers.Store.{other}
use gweb_plusplus.Headers.Store.View.{slice-append}
use gweb_plusplus.Headers.Parse.{
  State, start, in_name, after_name, after_colon, in_value, after_cr, after_lf, in_fold,
  ParseResult, error_no_memory, error_wrong_headers, error_headers_too_large, not_end_of_header,
  end_of_header, Parser, Turn, header_of, with_header, on_colon, step_name, step_after_name, key_in,
  add_field, step_lf, step, advance, run, parse,
}
use gweb_plusplus.Headers.Parse.Places.{IsIn, IsReading, Keeps}
use gweb_plusplus.Headers.Parse.Extent.{finish}
use gweb_plusplus.Headers.Parse.Rounds.{step-Keeps}

-- The bytes behind the ones read make no difference to a round.
module _ (buf tail : Bytes) (p : Parser) (le : p.offset ≤ length buf) where
  on_colon-append :
      (q : Parser) → q.token + q.namelen ≤ length buf → on_colon (buf ++ tail) q ≡ on_colon buf q
  unfolding on_colon
  on_colon-append q h =
      ap (λ n. with_header q (header_of n)) (slice-append buf tail q.token q.namelen h)

  step_name-append : (c : ℕ) → IsIn in_name p → step_name (buf ++ tail) p c ≡ step_name buf p c
  unfolding step_name
  step_name-append c v =
      rw
        (on_colon-append (record p { namelen = p.offset - p.token })
          (omega (arith, v.token_le, le)))
        refl

  step_after_name-append :
      (c : ℕ) → IsIn after_name p → step_after_name (buf ++ tail) p c ≡ step_after_name buf p c
  unfolding step_after_name
  step_after_name-append c v = rw (on_colon-append p (omega (arith, v.name_fits, le))) refl

  key_in-append : IsIn after_lf p → key_in (buf ++ tail) p ≡ key_in buf p
  unfolding key_in
  key_in-append v = elim (Bool-cases (p.header == unknown_header)) [
    | inl u ↦ rw u (
        ap other
          (slice-append buf tail p.name p.namelen (omega (arith, le, v.name_fits (ground arith)))))
    | inr u ↦ rw u refl
  ]

  add_field-append :
      (realloc : ℕ → Bool)
      → IsIn after_lf p
      → add_field realloc (buf ++ tail) p ≡ add_field realloc buf p
  unfolding add_field
  add_field-append realloc v = rw (key_in-append v) (
      rw
        (slice-append buf tail p.token (p.end' - p.token)
          (omega (arith, v.value_fits, v.end_le, le)))
        refl)

  step_lf-append :
      (realloc : ℕ → Bool) (c : ℕ)
      → IsIn after_lf p
      → step_lf realloc (buf ++ tail) p c ≡ step_lf realloc buf p c
  unfolding step_lf
  step_lf-append realloc c v = rw (add_field-append realloc v) refl

  step-append :
      (realloc : ℕ → Bool) (c : ℕ) (s : State)
      → IsIn s p
      → step realloc s (buf ++ tail) p c ≡ step realloc s buf p c
  unfolding step
  step-append realloc c start v = refl
  step-append realloc c in_name v = step_name-append c v
  step-append realloc c after_name v = step_after_name-append c v
  step-append realloc c after_colon v = refl
  step-append realloc c in_value v = refl
  step-append realloc c after_cr v = refl
  step-append realloc c after_lf v = step_lf-append realloc c v
  step-append realloc c in_fold v = refl

-- The caller goes on where more bytes are needed.
abbrev pub resume : (ℕ → Bool) → Bytes → Parser × ParseResult → Parser × ParseResult
resume realloc buf (q, not_end_of_header) = parse realloc buf q
resume realloc buf (q, error_no_memory) = (q, error_no_memory)
resume realloc buf (q, error_wrong_headers) = (q, error_wrong_headers)
resume realloc buf (q, error_headers_too_large) = (q, error_headers_too_large)
resume realloc buf (q, end_of_header n) = (q, end_of_header n)

module _ (realloc : ℕ → Bool) (buf tail : Bytes) where
  -- The loop over the longer block is the loop over the block, and then the call for the rest.
  turn-append :
      (n : ℕ) (cs : Bytes) (t : Turn)
      → Keeps n t
      → n + suc (length cs) ≡ length buf
      → ((q : Parser)
          → IsReading q
          → q.offset + length cs ≡ length buf
          → run realloc (buf ++ tail) (cs ++ tail) q
            ≡ resume realloc (buf ++ tail) (run realloc buf cs q))
      → finish realloc (buf ++ tail) (cs ++ tail) (advance t)
        ≡ resume realloc (buf ++ tail) (finish realloc buf cs (advance t))
  unfolding advance finish
  turn-append n cs (more q) ((s, v), at) e ih = elim (Bool-cases (ltb 8192 (q.offset + 1))) [
    | inl d ↦ rw d refl
    | inr d ↦ rw d (
        ih (record q { offset = q.offset + 1 })
          (subst (λ t. IsIn t (record q { offset = q.offset + 1 })) (sym v.at) v, ground arith)
          (omega (arith, e, at)))
  ]
  turn-append n cs (stop (q, error_no_memory)) k e ih = refl
  turn-append n cs (stop (q, error_wrong_headers)) k e ih = refl
  turn-append n cs (stop (q, error_headers_too_large)) k e ih = refl
  turn-append n cs (stop (q, not_end_of_header)) k e ih = absurd k.2
  turn-append n cs (stop (q, end_of_header m)) k e ih = refl

  run-append :
      (cs : Bytes) (p : Parser)
      → IsReading p
      → p.offset + length cs ≡ length buf
      → run realloc (buf ++ tail) (cs ++ tail) p
        ≡ resume realloc (buf ++ tail) (run realloc buf cs p)
  unfolding run finish parse
  run-append [] p v e =
      ap (λ t. run realloc (buf ++ tail) t p)
        (sym (
          ap (λ n. drop n (buf ++ tail)) (let d : p.offset ≡ length buf = omega (arith, e) in d)
          ∙ drop-append (length buf) buf tail (omega arith)
          ∙ ap (λ t. t ++ tail) (drop-length buf)))
  run-append (c ∷ cs) p v e =
      ap (λ t. finish realloc (buf ++ tail) (cs ++ tail) (advance t))
        (step-append buf tail p (omega (arith, e)) realloc c p.state v.0)
      ∙ turn-append p.offset cs (step realloc p.state buf p c)
          (step-Keeps realloc buf p c p.state v.0) e (run-append cs)

  -- For a parser whose offsets lie where its state wants them, within the bytes so far: however the
  -- network splits a block of headers, the calls of `parse` come to what one call on the whole
  -- block comes to: where a call on the bytes so far asks for more, the next call goes on, and
  -- where it returns, the bytes behind make no difference.
  pub parse-append :
      (p : Parser)
      → IsReading p
      → p.offset ≤ length buf
      → parse realloc (buf ++ tail) p ≡ resume realloc (buf ++ tail) (parse realloc buf p)
  unfolding parse
  parse-append p v le =
      ap (λ t. run realloc (buf ++ tail) t p) (drop-append p.offset buf tail le)
      ∙ run-append (drop p.offset buf) p v (omega (arith, length-drop p.offset buf))
