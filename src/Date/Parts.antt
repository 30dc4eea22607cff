-- ===== src/Date/Parts.antt =====
-- util/date_parser.cpp: each part of a date, read from its text with any bytes behind it.
use gweb_plusplus.Base.{
  All-get, ℕ, zero, suc, ◌+◌, ◌≤◌, ◌<◌, true, false, List, [], ◌∷◌, ◌++◌, some, Bytes, length,
  get_elem?, All, arith, ◌≡◌, refl, ap, ◌∙◌, is_alpha, subst,
}
use gweb_plusplus.Date.{
  Tm, Time, two_digits, bounded_digits, parse_year, parse_time, month_of, expect, skip_day,
  after_day,
}
use gweb_plusplus.Date.Text.{months, days, two_digit_text, year_text, time_text}

pub two_digits-text : (n : ℕ) (r : Bytes) → n < 100 → two_digits (two_digit_text n r) ≡ some (n, r)
unfolding two_digits
two_digits-text n r lt = ground arith

pub parse_year-text :
    (n : ℕ) (r : Bytes) → 1970 ≤ n → n < 10000 → parse_year (year_text n r) ≡ some (n, r)
unfolding parse_year
parse_year-text n r le lt = ground arith

pub bounded_digits-text :
    (top n : ℕ) (r : Bytes)
    → n ≤ top
    → top < 100
    → bounded_digits top (two_digit_text n r) ≡ some (n, r)
unfolding bounded_digits
bounded_digits-text top n r le lt = rw (two_digits-text n r (omega arith)) (ground arith)

abbrev pub time_of : Tm → Time
time_of t = record { hour = t.hour; minute = t.minute; sec = t.sec }

pub parse_time-text :
    (t : Tm) (r : Bytes)
    → t.hour ≤ 23
    → t.minute ≤ 59
    → t.sec ≤ 59
    → parse_time (time_text t (b' ' ∷ r)) ≡ some (time_of t, r)
unfolding parse_time expect
parse_time-text t r h m s = rw (bounded_digits-text 23 t.hour _ h (omega arith)) (
    rw (bounded_digits-text 59 t.minute _ m (omega arith))
      (rw (bounded_digits-text 59 t.sec (b' ' ∷ r) s (omega arith)) refl))

-- The name of a month, as three letters that `parse_month` reads as `i`.
abbrev pub IsMonth : ℕ → Bytes → Type 0
IsMonth i (a ∷ b ∷ c ∷ []) = month_of a b c ≡ some i
IsMonth i _ = ⊥

abbrev AreMonths : ℕ → List Bytes → Type 0
AreMonths i [] = Unit
AreMonths i (m ∷ ms) = IsMonth i m × AreMonths (suc i) ms

AreMonths-get :
    (ms : List Bytes) (i j : ℕ) (m : Bytes)
    → AreMonths i ms
    → get_elem? ms j ≡ some m
    → IsMonth (i + j) m
AreMonths-get [] i j m h e = cc
AreMonths-get (n ∷ ms) i zero m h e =
    let d : n ≡ m = cc in
    subst (IsMonth (i + 0)) d (subst (λ k. IsMonth k n) (let f : i ≡ i + 0 = omega arith in f) h.0)
AreMonths-get (n ∷ ms) i (suc j) m h e =
    subst (λ k. IsMonth k m) (let f : suc i + j ≡ i + suc j = omega arith in f)
      (AreMonths-get ms (suc i) j m h.1 e)

pub months-IsMonth : (i : ℕ) (m : Bytes) → get_elem? months i ≡ some m → IsMonth i m
unfolding month_of
months-IsMonth i m e =
    subst (λ k. IsMonth k m) (let f : 0 + i ≡ i = omega arith in f)
      (AreMonths-get months 0 i m
        (
          refl,
          (
            refl,
            (refl, (refl, (refl, (refl, (refl, (refl, (refl, (refl, (refl, (refl, tt)))))))))),
          ),
        )
        e)

-- The name of a day of the week.
abbrev pub IsDay : ℕ → Bytes → Type 0
IsDay n d = All (λ c. is_alpha c ≡ true) d × (length d ≡ n)

pub days-IsDay : (i : ℕ) (d : Bytes) → get_elem? days i ≡ some d → IsDay 3 d
days-IsDay i d e = All-get (IsDay 3) days i d (ground arith) e

pub skip_day-append :
    (n : ℕ) (d : Bytes) (c : ℕ) (s : Bytes)
    → All (λ c. is_alpha c ≡ true) d
    → is_alpha c ≡ false
    → skip_day n (d ++ (c ∷ s)) ≡ after_day (n + length d) (c ∷ s)
unfolding skip_day
skip_day-append n [] c s h e = rw e (ap (λ k. after_day k (c ∷ s)) (omega arith))
skip_day-append n (a ∷ d) c s h e =
    rw h.0 (skip_day-append (n + 1) d c s h.1 e ∙ ap (λ k. after_day k (c ∷ s)) (omega arith))
