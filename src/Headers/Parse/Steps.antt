-- ===== src/Headers/Parse/Steps.antt =====
-- http/http_headers.cpp: each state of `parse` keeps the offsets in their places.
use gweb_plusplus.Base.{ℕ, ◌+◌, ◌-◌, ◌≤◌, ltb, ◌==◌, Bytes, Bool-cases, inl, inr, arith, refl}
use gweb_plusplus.Headers.Table.{unknown_header}
use gweb_plusplus.Headers.Store.{slice}
use gweb_plusplus.Headers.Store.Room.{IsSound}
use gweb_plusplus.Headers.Parse.{
  start, in_name, after_name, after_colon, in_value, after_cr, after_lf, in_fold, Parser, header_of,
  is_repeated, with_header, on_colon, is_blank, is_printable, step_start, step_name,
  step_after_name, step_colon, mark_end, is_second_word, next_word, step_value, step_cr, step_fold,
}
use gweb_plusplus.Base.{◌||◌}
use gweb_plusplus.Headers.Parse.Places.{IsIn, Keeps, if_all, stays-Keeps, enters-Keeps}

module _ (p : Parser) (c : ℕ) where
  pub step_start-Keeps : IsIn start p → Keeps p.offset (step_start p c)
  unfolding step_start
  step_start-Keeps v =
      if_all (Keeps p.offset) (c == b':') (λ _. (v.sound, refl, tt))
        λ _.
          if_all (Keeps p.offset) (is_printable c)
            (λ _.
              (enters-Keeps in_name (record p { token = p.offset; crlfs = 0 }) v.sound (omega arith)
                v.end_le v.name_fits tt))
            λ _.
              if_all (Keeps p.offset) (c == 13)
                (λ _.
                  (enters-Keeps after_cr p v.sound v.token_le v.end_le v.name_fits
                    (omega (arith, v.value_fits))))
                λ _.
                  if_all (Keeps p.offset) (c == 10) (λ _. (v.sound, refl, refl))
                    (λ _. (v.sound, refl, tt))

  with_header-Keeps :
      (h : ℕ)
      → IsSound p.store
      → p.token + p.namelen ≤ p.offset
      → p.end' ≤ p.offset
      → Keeps p.offset (with_header p h)
  unfolding with_header
  with_header-Keeps h sound token_le end_le =
      if_all (Keeps p.offset) (h == unknown_header)
        (λ u.
          (enters-Keeps after_colon (record p { header = h; name = p.token; token = 0 }) sound
            (omega arith) (omega arith) (λ e. omega arith) refl))
        λ u.
          if_all (Keeps p.offset) (is_repeated p h) (λ _. (sound, refl, tt))
            (λ _.
              (enters-Keeps after_colon (record p { header = h; token = 0 }) sound (omega arith)
                (omega arith) (λ e. absurd (ground arith)) refl))

  on_colon-Keeps :
      (buf : Bytes)
      → IsSound p.store
      → p.token + p.namelen ≤ p.offset
      → p.end' ≤ p.offset
      → Keeps p.offset (on_colon buf p)
  unfolding on_colon
  on_colon-Keeps buf = with_header-Keeps (header_of (slice buf p.token p.namelen))

  pub step_colon-Keeps : IsIn after_colon p → Keeps p.offset (step_colon p c)
  unfolding step_colon
  step_colon-Keeps v =
      if_all (Keeps p.offset) (c == 13)
        (λ _.
          (enters-Keeps after_cr p v.sound v.token_le v.end_le v.name_fits
            (omega (arith, v.value_fits))))
        λ _.
          if_all (Keeps p.offset) (c == 10)
            (λ _.
              (enters-Keeps after_lf (record p { crlfs = 1 }) v.sound v.token_le v.end_le
                v.name_fits (omega (arith, v.value_fits))))
            λ _.
              if_all (Keeps p.offset) (ltb b' ' c)
                (λ _.
                  (enters-Keeps in_value (record p { token = p.offset; end' = 0 }) v.sound
                    (omega arith) (omega arith) v.name_fits (λ n. absurd (n refl))))
                λ _.
                  if_all (Keeps p.offset) (is_blank c) (λ _. stays-Keeps after_colon p v)
                    (λ _. (v.sound, refl, tt))

  pub step_cr-Keeps : IsIn after_cr p → Keeps p.offset (step_cr p c)
  unfolding step_cr
  step_cr-Keeps v =
      if_all (Keeps p.offset) (c == 10)
        (λ _.
          if_all (Keeps p.offset) (p.crlfs == 1) (λ _. (v.sound, refl, refl))
            (λ _.
              (enters-Keeps after_lf (record p { crlfs = 1 }) v.sound v.token_le v.end_le
                v.name_fits v.value_fits)))
        (λ _. (v.sound, refl, tt))

  pub step_fold-Keeps : IsIn in_fold p → Keeps p.offset (step_fold p c)
  unfolding step_fold
  step_fold-Keeps v =
      if_all (Keeps p.offset) (c == 13)
        (λ _. (enters-Keeps after_cr p v.sound v.token_le v.end_le v.name_fits v.value_fits))
        λ _.
          if_all (Keeps p.offset) (c == 10)
            (λ _.
              (enters-Keeps after_lf (record p { crlfs = 1 }) v.sound v.token_le v.end_le
                v.name_fits v.value_fits))
            λ _.
              if_all (Keeps p.offset) (ltb b' ' c)
                (λ _.
                  if_all (Keeps p.offset) (p.token == 0)
                    (λ _.
                      (enters-Keeps in_value (record p { token = p.offset; end' = 0 }) v.sound
                        (omega arith) (omega arith) v.name_fits (λ n. absurd (n refl))))
                    λ _.
                      if_all (Keeps p.offset) (is_second_word p)
                        (λ _.
                          if_all (Keeps p.offset) p.ignore_errors (λ _. stays-Keeps in_fold p v)
                            (λ _. (v.sound, refl, tt)))
                        (λ _.
                          (enters-Keeps in_value (record p { end' = 0 }) v.sound v.token_le
                            (omega arith) v.name_fits (λ n. absurd (n refl)))))
                λ _.
                  if_all (Keeps p.offset) (is_blank c) (λ _. stays-Keeps in_fold p v)
                    (λ _. (v.sound, refl, tt))

  pub step_after_name-Keeps :
      (buf : Bytes) → IsIn after_name p → Keeps p.offset (step_after_name buf p c)
  unfolding step_after_name
  step_after_name-Keeps buf v =
      if_all (Keeps p.offset) (c == b':') (λ _. on_colon-Keeps buf v.sound v.name_fits v.end_le)
        λ _.
          if_all (Keeps p.offset) (is_blank c) (λ _. stays-Keeps after_name p v)
            (λ _. (v.sound, refl, tt))

  mark_end-IsIn : IsIn in_value p → IsIn in_value (mark_end p) × (p.token ≤ (mark_end p).end')
  mark_end-IsIn v = elim (Bool-cases (p.end' == 0)) [
    | inl z ↦ rw z (
      record {
        at = v.at;
        sound = v.sound;
        token_le = v.token_le;
        end_le = omega arith;
        name_fits = v.name_fits;
        value_fits = λ n. v.token_le;
      },
      v.token_le,
    )
    | inr z ↦ rw z (v, v.value_fits (ground arith))
  ]

  next_word-Keeps : IsIn in_value p → Keeps p.offset (next_word p)
  unfolding next_word
  next_word-Keeps v =
      if_all (Keeps p.offset) (p.end' == 0) (λ _. stays-Keeps in_value p v)
        λ _.
          if_all (Keeps p.offset) (is_second_word p)
            (λ _.
              if_all (Keeps p.offset) p.ignore_errors (λ _. stays-Keeps in_value p v)
                (λ _. (v.sound, refl, tt)))
            (λ _.
              stays-Keeps in_value (record p { end' = 0 })
                (record {
                  at = v.at;
                  sound = v.sound;
                  token_le = v.token_le;
                  end_le = omega arith;
                  name_fits = v.name_fits;
                  value_fits = λ n. absurd (n refl);
                }))

  pub step_value-Keeps : IsIn in_value p → Keeps p.offset (step_value p c)
  unfolding step_value
  step_value-Keeps v =
      let (w, le) = mark_end-IsIn v in
      if_all (Keeps p.offset) (c == 13)
        (λ _. (enters-Keeps after_cr (mark_end p) v.sound v.token_le w.end_le v.name_fits le))
        λ _.
          if_all (Keeps p.offset) (c == 10)
            (λ _.
              (enters-Keeps after_lf (record (mark_end p) { crlfs = 1 }) v.sound v.token_le w.end_le
                v.name_fits le))
            λ _.
              if_all (Keeps p.offset) (is_blank c) (λ _. stays-Keeps in_value (mark_end p) w)
                λ _.
                  if_all (Keeps p.offset) (ltb b' ' c) (λ _. next_word-Keeps v)
                    (λ _. (v.sound, refl, tt))

module _ (p : Parser) (c : ℕ) (buf : Bytes) where
  pub step_name-Keeps : IsIn in_name p → Keeps p.offset (step_name buf p c)
  unfolding step_name
  step_name-Keeps v =
      if_all (Keeps p.offset) (c == b':')
        (λ _.
          on_colon-Keeps (record p { namelen = p.offset - p.token }) c buf v.sound
            (omega (arith, v.token_le)) v.end_le)
        λ _.
          if_all (Keeps p.offset) (is_blank c)
            (λ _.
              (enters-Keeps after_name (record p { namelen = p.offset - p.token }) v.sound
                v.token_le v.end_le (omega (arith, v.token_le)) tt))
            λ _.
              if_all (Keeps p.offset) (ltb c b' ' || ltb 126 c) (λ _. (v.sound, refl, tt))
                (λ _. stays-Keeps in_name p v)
