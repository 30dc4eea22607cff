-- ===== src/Date.antt =====
-- util/date_parser.h and util/date_parser.cpp: the parser of the three date formats of HTTP. A parser
-- of a part takes the bytes from `ptr` to `end`, and returns those behind the part; `none` is the
-- return of -1 or `false`. No read passes `end`: the lengths are tested first. `timegm` of the C library
-- is a parameter of `parse_time_t`.
pub mod Text
pub mod Parts
pub mod RoundTrip
pub mod Bounds
mod Examples
use gweb_plusplus.Base.{
  ℕ, ◌+◌, ◌-◌, ◌*◌, Bool, true, false, not, ◌&&◌, ◌||◌, [], ◌∷◌, Option, none, some, ltb, leb, ◌==◌,
  if◌then◌else◌, within, is_digit, is_alpha, Bytes, length, ℤ, negsuc, ◌>>=◌, ◌>>◌, guard,
}

-- The fields of `struct tm` that the parser sets; `tm_isdst` is 0. `year` counts from 1900.
pub record Tm : Type 0 where
  pub year : ℕ
  pub mon : ℕ
  pub mday : ℕ
  pub hour : ℕ
  pub minute : ℕ
  pub sec : ℕ

abbrev digit_value : ℕ → ℕ
digit_value c = c - b'0'

-- `*ptr == c`
pub expect : ℕ → Bytes → Option Bytes
expect c [] = none
expect c (d ∷ r) = if d == c then some r else none

pub two_digits : Bytes → Option (ℕ × Bytes)
two_digits (a ∷ b ∷ r) =
    if is_digit a && is_digit b then some (digit_value a * 10 + digit_value b, r) else none
two_digits _ = none

pub parse_year : Bytes → Option (ℕ × Bytes)
parse_year (a ∷ b ∷ c ∷ d ∷ r) =
    let year = digit_value a * 1000 + digit_value b * 100 + digit_value c * 10 + digit_value d in
    if is_digit a && is_digit b && is_digit c && is_digit d && leb 1970 year
    then some (year, r)
    else none
parse_year _ = none

-- `upper` is a capital letter.
letter : ℕ → ℕ → Bool
letter upper c = c == upper || c == upper + 32

pub month_of : ℕ → ℕ → ℕ → Option ℕ
unfolding letter
month_of a b c =
    if letter b'J' a
    then (if letter b'A' b
        then (if letter b'N' c then some 0 else none)
        else if letter b'U' b
        then (if letter b'N' c then some 5 else if letter b'L' c then some 6 else none)
        else none)
    else if letter b'F' a
    then (if letter b'E' b && letter b'B' c then some 1 else none)
    else if letter b'M' a
    then (if letter b'A' b
        then (if letter b'R' c then some 2 else if letter b'Y' c then some 4 else none)
        else none)
    else if letter b'A' a
    then (if letter b'P' b
        then (if letter b'R' c then some 3 else none)
        else if letter b'U' b
        then (if letter b'G' c then some 7 else none)
        else none)
    else if letter b'S' a
    then (if letter b'E' b && letter b'P' c then some 8 else none)
    else if letter b'O' a
    then (if letter b'C' b && letter b'T' c then some 9 else none)
    else if letter b'N' a
    then (if letter b'O' b && letter b'V' c then some 10 else none)
    else if letter b'D' a
    then (if letter b'E' b && letter b'C' c then some 11 else none)
    else none

pub parse_month : Bytes → Option (ℕ × Bytes)
unfolding month_of
parse_month (a ∷ b ∷ c ∷ r) = month_of a b c >>= λ m. some (m, r)
parse_month _ = none

-- A number of two digits, at most `top`.
pub bounded_digits : ℕ → Bytes → Option (ℕ × Bytes)
unfolding two_digits
bounded_digits top s = do (n, r) ← two_digits s; guard (leb n top); some (n, r)

pub record Time : Type 0 where
  pub hour : ℕ
  pub minute : ℕ
  pub sec : ℕ

-- With the space behind it.
pub parse_time : Bytes → Option (Time × Bytes)
unfolding bounded_digits expect
parse_time s = do
  (h, s) ← bounded_digits 23 s
  s ← expect b':' s
  (m, s) ← bounded_digits 59 s
  s ← expect b':' s
  (x, s) ← bounded_digits 59 s
  s ← expect b' ' s
  some (record { hour = h; minute = m; sec = x }, s)

pub make_tm : ℕ → ℕ → ℕ → Time → Tm
make_tm year mon mday t = record {
  year = year - 1900;
  mon = mon;
  mday = mday;
  hour = t.hour;
  minute = t.minute;
  sec = t.sec;
}

-- One digit or two.
pub day_digits : Bytes → Option (ℕ × Bytes)
day_digits [] = none
day_digits (a ∷ []) = if is_digit a then some (digit_value a, []) else none
day_digits (a ∷ b ∷ r) =
    if is_digit a
    then (if is_digit b
        then some (digit_value a * 10 + digit_value b, r)
        else some (digit_value a, b ∷ r))
    else none

pub parse_ansic : Bytes → Option Tm
unfolding parse_month expect day_digits parse_time parse_year make_tm
parse_ansic s = do
  (mon, s) ← parse_month s
  s ← expect b' ' s
  (mday, s) ← day_digits s
  guard (within 1 31 mday)
  s ← expect b' ' s
  guard (length s == 13)
  (t, s) ← parse_time s
  (year, s) ← parse_year s
  some (make_tm year mon mday t)

pub data DateFormat : Type 0 where
  rfc822 rfc850 : DateFormat

pub separator : DateFormat → ℕ
separator rfc822 = b' '
separator rfc850 = b'-'

-- The two digits of a year are those of 1970 to 2069.
pub century : ℕ → ℕ
century y = if ltb y 70 then y + 2000 else y + 1900

pub format_year : DateFormat → Bytes → Option (ℕ × Bytes)
unfolding parse_year two_digits century
format_year rfc822 s = parse_year s
format_year rfc850 s = two_digits s >>= λ r. some (century r.0, r.1)

pub skip_space : Bytes → Bytes
skip_space [] = []
skip_space (c ∷ s) = if c == b' ' then s else c ∷ s

pub parse_gmt : Bytes → Option Bytes
unfolding letter
parse_gmt (g ∷ m ∷ t ∷ r) = if letter b'G' g && letter b'M' m && letter b'T' t then some r else none
parse_gmt _ = none

-- Behind the comma.
pub parse_date : DateFormat → Bytes → Option Tm
unfolding skip_space bounded_digits two_digits separator expect parse_month format_year parse_time
    parse_gmt make_tm
parse_date f s = do
  guard (leb 22 (length s))
  (mday, s) ← two_digits (skip_space s)
  guard (within 1 31 mday)
  s ← expect (separator f) s
  (mon, s) ← parse_month s
  s ← expect (separator f) s
  (year, s) ← format_year f s
  s ← expect b' ' s
  guard (length s == 12)
  (t, s) ← parse_time s
  s ← parse_gmt s
  some (make_tm year mon mday t)

-- Behind the day of the week, which has `n` letters.
pub after_day : ℕ → Bytes → Option Tm
unfolding parse_ansic parse_date
after_day n [] = none
after_day n (c ∷ s) =
    if c == b' '
    then (if n == 3 && leb 19 (length s) then parse_ansic s else none)
    else if not (c == b',') || not (within 3 9 n)
    then none
    else parse_date (if n == 3 then rfc822 else rfc850) s

-- The loop that skips the day of the week; `n` letters have been skipped.
pub skip_day : ℕ → Bytes → Option Tm
unfolding after_day
skip_day n [] = none
skip_day n (c ∷ s) =
    let rest = skip_day (n + 1) s in if is_alpha c then rest else after_day n (c ∷ s)

pub parse : Bytes → Option Tm
unfolding skip_day
parse s = skip_day 0 s

-- What the function returns.
pub parse_time_t : (Tm → ℤ) → Bytes → ℤ
unfolding parse
parse_time_t timegm s = elim (parse s) [ none ↦ negsuc 0 | some t ↦ timegm t ]
