-- ===== src/Headers/Parse/Rounds.antt =====
-- http/http_headers.cpp: a round of `parse` keeps the offsets in their places, the state that adds a field included.
use gweb_plusplus.Base.{ℕ, ◌-◌, Bool, true, false, List, ◌==◌, Bytes, more, arith, refl}
use gweb_plusplus.Headers.Table.{unknown_header}
use gweb_plusplus.Headers.Store.{Store, slice}
use gweb_plusplus.Headers.Store.View.{Field}
use gweb_plusplus.Headers.Store.Room.{Gives, IsSound}
use gweb_plusplus.Headers.Store.Adds.{IsKey}
use gweb_plusplus.Headers.Store.Calls.{add_key-Gives}
use gweb_plusplus.Headers.Parse.{
  State, start, in_name, after_name, after_colon, in_value, after_cr, after_lf, in_fold, Parser,
  Turn, is_blank, is_printable, start_name, end_block, key_in, after_add, add_field, step_lf, step,
}
use gweb_plusplus.Headers.Parse.Places.{IsIn, Keeps, if_all, enters-Keeps}
use gweb_plusplus.Headers.Parse.Steps.{
  step_start-Keeps, step_colon-Keeps, step_cr-Keeps, step_fold-Keeps, step_after_name-Keeps,
  step_value-Keeps, step_name-Keeps,
}

module _ (realloc : ℕ → Bool) (buf : Bytes) (p : Parser) where
  key_in-IsKey : IsKey (key_in buf p)
  unfolding key_in
  key_in-IsKey =
      if_all IsKey (p.header == unknown_header) (λ _. tt) (λ u. λ e. absurd (ground arith))

  Gives-IsSound : (s : Store) (fs : List Field) (r : Store × Bool) → Gives s fs r → IsSound r.0
  Gives-IsSound s fs (t, true) g = g.0
  Gives-IsSound s fs (t, false) g = g.0

  add_field-IsSound : IsSound p.store → IsSound (add_field realloc buf p).0
  unfolding add_field
  add_field-IsSound sound =
      if_all (λ (r : Store × Bool). IsSound r.0) (p.token == 0) (λ _. sound)
        λ _. Gives-IsSound p.store _ _ (
          add_key-Gives realloc p.store (key_in buf p) (slice buf p.token (p.end' - p.token)) false
            sound key_in-IsKey)

  after_add-Keeps :
      (next : Parser → Turn) (r : Store × Bool)
      → IsSound r.0
      → ((s : Store) → IsSound s → Keeps p.offset (next (record p { store = s })))
      → Keeps p.offset (after_add p next r)
  after_add-Keeps next (s, true) h k = k s h
  after_add-Keeps next (s, false) h k = (h, refl, tt)

  step_lf-Keeps : (c : ℕ) → IsIn after_lf p → Keeps p.offset (step_lf realloc buf p c)
  unfolding step_lf
  step_lf-Keeps c v =
      if_all (Keeps p.offset) (c == 13)
        (λ _.
          after_add-Keeps (λ q. more (record q { state = after_cr })) (add_field realloc buf p)
            (add_field-IsSound v.sound)
            λ s h.
              (enters-Keeps after_cr (record p { store = s }) h v.token_le v.end_le v.name_fits
                v.value_fits))
        λ _.
          if_all (Keeps p.offset) (c == 10)
            (λ _.
              after_add-Keeps end_block (add_field realloc buf p) (add_field-IsSound v.sound)
                λ s h. (h, refl, refl))
            λ _.
              if_all (Keeps p.offset) (c == b':') (λ _. (v.sound, refl, tt))
                λ _.
                  if_all (Keeps p.offset) (is_printable c)
                    (λ _.
                      after_add-Keeps start_name (add_field realloc buf p)
                        (add_field-IsSound v.sound)
                        λ s h.
                          (enters-Keeps in_name
                            (record p { store = s; token = p.offset; crlfs = 0 }) h (omega arith)
                            v.end_le v.name_fits tt))
                    λ _.
                      if_all (Keeps p.offset) (is_blank c)
                        (λ _.
                          (enters-Keeps in_fold (record p { crlfs = 0 }) v.sound v.token_le v.end_le
                            v.name_fits v.value_fits))
                        (λ _. (v.sound, refl, tt))

  -- In every state, a round keeps the offsets in their places.
  pub step-Keeps : (c : ℕ) (s : State) → IsIn s p → Keeps p.offset (step realloc s buf p c)
  unfolding step
  step-Keeps c start v = step_start-Keeps p c v
  step-Keeps c in_name v = step_name-Keeps p c buf v
  step-Keeps c after_name v = step_after_name-Keeps p c buf v
  step-Keeps c after_colon v = step_colon-Keeps p c v
  step-Keeps c in_value v = step_value-Keeps p c v
  step-Keeps c after_cr v = step_cr-Keeps p c v
  step-Keeps c after_lf v = step_lf-Keeps c v
  step-Keeps c in_fold v = step_fold-Keeps p c v
