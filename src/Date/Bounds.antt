-- ===== src/Date/Bounds.antt =====
-- util/date_parser.cpp: the dates that the parser accepts.
use gweb_plusplus.Base.{
  some-inj, ap, subst, Bool-cases, inl, inr, not, ◌||◌, ℕ, ◌+◌, ◌-◌, ◌≤◌, Bool, true, false, within,
  leb, [], ◌∷◌, Option, none, some, Bytes, length, ◌*◌, arith, ◌≡◌, refl, guard, >>=-eq-some,
  if◌then◌else◌, ◌==◌, is_alpha, is_digit, ◌&&◌, leb→le,
}
use gweb_plusplus.Date.{
  Tm, Time, two_digits, bounded_digits, parse_year, parse_month, month_of, parse_time, expect,
  day_digits, make_tm, parse_ansic, parse_date, DateFormat, rfc822, rfc850, format_year, century,
  separator, parse_gmt, skip_space, after_day, skip_day, parse,
}

-- The fields of a date that the parser accepts: within the ranges of `struct tm`, from 1970 on.
pub record IsRead (t : Tm) : Type 0 where
  pub first : 70 ≤ t.year
  pub last : t.year ≤ 8099
  pub mon_le : t.mon ≤ 11
  pub mday_pos : 1 ≤ t.mday
  pub mday_le : t.mday ≤ 31
  pub hour_le : t.hour ≤ 23
  pub minute_le : t.minute ≤ 59
  pub sec_le : t.sec ≤ 59

guard-true : (b : Bool) (u : Unit {0}) → guard b ≡ some u → b ≡ true
guard-true true u e = refl
guard-true false u e = cc

month_of-le : (a b c i : ℕ) → month_of a b c ≡ some i → i ≤ 11
unfolding month_of
month_of-le a b c i e = ground arith

parse_month-le : (s r : Bytes) (i : ℕ) → parse_month s ≡ some (i, r) → i ≤ 11
unfolding parse_month
parse_month-le [] r i e = cc
parse_month-le (a ∷ []) r i e = cc
parse_month-le (a ∷ b ∷ []) r i e = cc
parse_month-le (a ∷ b ∷ c ∷ s) r i e =
    let (m, d, f) = >>=-eq-some (month_of a b c) _ e in
    let g : m ≡ i = cc in rw (← g) (month_of-le a b c m d)

two_digits-le : (s r : Bytes) (n : ℕ) → two_digits s ≡ some (n, r) → n ≤ 99
unfolding two_digits
two_digits-le [] r n e = cc
two_digits-le (a ∷ []) r n e = cc
two_digits-le (a ∷ b ∷ s) r n e = ground arith

if-eq-some :
    (b : Bool) (y n : ℕ) (s r : Bytes)
    → ◌≡◌ {A = Option (ℕ × Bytes)} (if b then some (y, s) else none) (some (n, r))
    → (b ≡ true) × (y ≡ n)
if-eq-some true y n s r e = (refl, (cc))
if-eq-some false y n s r e = cc

and_true : (a b : Bool) → (a && b) ≡ true → (a ≡ true) × (b ≡ true)
and_true true b e = (refl, e)
and_true false b e = cc

digit-le : (c : ℕ) → is_digit c ≡ true → c - b'0' ≤ 9
digit-le c e = ground arith

parse_year_bounds : (s r : Bytes) (n : ℕ) → parse_year s ≡ some (n, r) → (1970 ≤ n) × (n ≤ 9999)
unfolding parse_year
parse_year_bounds [] r n e = cc
parse_year_bounds (a ∷ []) r n e = cc
parse_year_bounds (a ∷ b ∷ []) r n e = cc
parse_year_bounds (a ∷ b ∷ c ∷ []) r n e = cc
parse_year_bounds (a ∷ b ∷ c ∷ d ∷ s) r n e =
    let (all, y) = if-eq-some _ _ n s r e in
    let digits : Bool = is_digit a && is_digit b && is_digit c && is_digit d in
    let year = (a - b'0') * 1000 + (b - b'0') * 100 + (c - b'0') * 10 + (d - b'0') in
    let (abcd, le) = and_true digits (leb 1970 year) all in
    let (abc, dd) = and_true (is_digit a && is_digit b && is_digit c) (is_digit d) abcd in
    let (ab, cd) = and_true (is_digit a && is_digit b) (is_digit c) abc in
    let (ad, bd) = and_true (is_digit a) (is_digit b) ab in
    (
      omega (arith, leb→le 1970 year le, y),
      omega (arith, digit-le a ad, digit-le b bd, digit-le c cd, digit-le d dd, y),
    )

bounded_digits-le : (top n : ℕ) (s r : Bytes) → bounded_digits top s ≡ some (n, r) → n ≤ top
unfolding bounded_digits
bounded_digits-le top n s r e =
    let (p, d, f) = >>=-eq-some (two_digits s) _ e in
    let (u, g, h) = >>=-eq-some (guard (leb p.0 top)) _ f in
    let le = guard-true (leb p.0 top) u g in let q : p.0 ≡ n = cc in ground arith

abbrev IsTime : Time → Type 0
IsTime t = (t.hour ≤ 23) × (t.minute ≤ 59) × (t.sec ≤ 59)

parse_time-IsTime : (s r : Bytes) (t : Time) → parse_time s ≡ some (t, r) → IsTime t
unfolding parse_time
parse_time-IsTime s r t e =
    let (h, e1, f1) = >>=-eq-some (bounded_digits 23 s) _ e in
    let (s1, e2, f2) = >>=-eq-some (expect b':' h.1) _ f1 in
    let (m, e3, f3) = >>=-eq-some (bounded_digits 59 s1) _ f2 in
    let (s2, e4, f4) = >>=-eq-some (expect b':' m.1) _ f3 in
    let (x, e5, f5) = >>=-eq-some (bounded_digits 59 s2) _ f4 in
    let (s3, e6, f6) = >>=-eq-some (expect b' ' x.1) _ f5 in
    let q : record { hour = h.0; minute = m.0; sec = x.0 } ≡ t = ap (λ p. p.0) (some-inj f6) in
    subst IsTime q (
      bounded_digits-le 23 h.0 s h.1 e1,
      bounded_digits-le 59 m.0 s1 m.1 e3,
      bounded_digits-le 59 x.0 s2 x.1 e5,
    )

make_tm-IsRead :
    (year mon mday : ℕ) (t : Time)
    → (1970 ≤ year) × (year ≤ 9999)
    → mon ≤ 11
    → within 1 31 mday ≡ true
    → IsTime t
    → IsRead (make_tm year mon mday t)
unfolding make_tm
make_tm-IsRead year mon mday t y m d (h, n, s) = ground arith

parse_ansic-IsRead : (s : Bytes) (t : Tm) → parse_ansic s ≡ some t → IsRead t
unfolding parse_ansic
parse_ansic-IsRead s t e =
    let (mon, e1, f1) = >>=-eq-some (parse_month s) _ e in
    let (s1, e2, f2) = >>=-eq-some (expect b' ' mon.1) _ f1 in
    let (mday, e3, f3) = >>=-eq-some (day_digits s1) _ f2 in
    let (u, e4, f4) = >>=-eq-some (guard (within 1 31 mday.0)) _ f3 in
    let (s2, e5, f5) = >>=-eq-some (expect b' ' mday.1) _ f4 in
    let (u', e6, f6) = >>=-eq-some (guard (length s2 == 13)) _ f5 in
    let (x, e7, f7) = >>=-eq-some (parse_time s2) _ f6 in
    let (y, e8, f8) = >>=-eq-some (parse_year x.1) _ f7 in
    let q : make_tm y.0 mon.0 mday.0 x.0 ≡ t = some-inj f8 in
    subst IsRead q (
      make_tm-IsRead y.0 mon.0 mday.0 x.0 (parse_year_bounds x.1 y.1 y.0 e8)
        (parse_month-le s mon.1 mon.0 e1) (guard-true _ u e4) (parse_time-IsTime s2 x.1 x.0 e7))

format_year_bounds :
    (f : DateFormat) (s r : Bytes) (n : ℕ) → format_year f s ≡ some (n, r) → (1970 ≤ n) × (n ≤ 9999)
unfolding format_year century
format_year_bounds rfc822 s r n e = parse_year_bounds s r n e
format_year_bounds rfc850 s r n e =
    let (y, d, g) = >>=-eq-some (two_digits s) _ e in
    let le = two_digits-le s y.1 y.0 d in ground arith

parse_date-IsRead : (f : DateFormat) (s : Bytes) (t : Tm) → parse_date f s ≡ some t → IsRead t
unfolding parse_date
parse_date-IsRead f s t e =
    let (u0, e0, f0) = >>=-eq-some (guard (leb 22 (length s))) _ e in
    let (mday, e1, f1) = >>=-eq-some (two_digits (skip_space s)) _ f0 in
    let (u, e2, f2) = >>=-eq-some (guard (within 1 31 mday.0)) _ f1 in
    let (s1, e3, f3) = >>=-eq-some (expect (separator f) mday.1) _ f2 in
    let (mon, e4, f4) = >>=-eq-some (parse_month s1) _ f3 in
    let (s2, e5, f5) = >>=-eq-some (expect (separator f) mon.1) _ f4 in
    let (y, e6, f6) = >>=-eq-some (format_year f s2) _ f5 in
    let (s3, e7, f7) = >>=-eq-some (expect b' ' y.1) _ f6 in
    let (u', e8, f8) = >>=-eq-some (guard (length s3 == 12)) _ f7 in
    let (x, e9, f9) = >>=-eq-some (parse_time s3) _ f8 in
    let (s4, e10, f10) = >>=-eq-some (parse_gmt x.1) _ f9 in
    let q : make_tm y.0 mon.0 mday.0 x.0 ≡ t = some-inj f10 in
    subst IsRead q (
      make_tm-IsRead y.0 mon.0 mday.0 x.0 (format_year_bounds f s2 y.1 y.0 e6)
        (parse_month-le s1 mon.1 mon.0 e4) (guard-true _ u e2) (parse_time-IsTime s3 x.1 x.0 e9))

after_day-IsRead : (n : ℕ) (s : Bytes) (t : Tm) → after_day n s ≡ some t → IsRead t
unfolding after_day
after_day-IsRead n [] t e = cc
after_day-IsRead n (c ∷ s) t e = elim (Bool-cases (c == b' ')) [
  | inl d ↦ ansic (n == 3 && leb 19 (length s)) (rw d at e)
  | inr d ↦ other (not (c == b',') || not (within 3 9 n)) (rw d at e)
]
  where
    ansic : (b : Bool) → (if b then parse_ansic s else none) ≡ some t → IsRead t
    ansic true f = parse_ansic-IsRead s t f
    ansic false f = cc

    other :
        (b : Bool)
        → (if b then none else parse_date (if n == 3 then rfc822 else rfc850) s) ≡ some t
        → IsRead t
    other true f = cc
    other false f = parse_date-IsRead (if n == 3 then rfc822 else rfc850) s t f

skip_day-IsRead : (n : ℕ) (s : Bytes) (t : Tm) → skip_day n s ≡ some t → IsRead t
unfolding skip_day
skip_day-IsRead n [] t e = cc
skip_day-IsRead n (c ∷ s) t e = elim (Bool-cases (is_alpha c)) [
  | inl d ↦ skip_day-IsRead (n + 1) s t (rw d at e)
  | inr d ↦ after_day-IsRead n (c ∷ s) t (rw d at e)
]

-- Whatever the text, a date that `date_parser::parse` accepts has its month, day, hour, minute and second
-- within their ranges, and a year from 1970 to 9999.
pub parse-IsRead : (s : Bytes) (t : Tm) → parse s ≡ some t → IsRead t
unfolding parse
parse-IsRead s t e = skip_day-IsRead 0 s t e
