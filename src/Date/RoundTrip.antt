-- ===== src/Date/RoundTrip.antt =====
-- util/date_parser.cpp: dates as the server writes them, and in the two older formats, are read back.
use gweb_plusplus.Base.{
  is_alpha, >>=-eq-some, ltb, if◌then◌else◌, Bool-cases, inl, inr, ℕ, ◌+◌, ◌/◌, ◌%◌, ◌≤◌, ◌<◌, true,
  false, within, ◌==◌, [], ◌∷◌, ◌++◌, none, some, Bytes, length, get_elem?, arith, ◌≡◌, refl, ap,
  sym, ◌∙◌,
}
use gweb_plusplus.Date.{Tm, month_of, after_day, century, parse_date, make_tm, day_digits, parse}
use gweb_plusplus.Date.Text.{months, days, http_text, http_date, rfc850_text, asctime_text, padded}
use gweb_plusplus.Date.Parts.{
  two_digits-text, parse_year-text, parse_time-text, time_of, IsMonth, months-IsMonth, IsDay,
  days-IsDay, skip_day-append,
}

-- The fields of a date that HTTP can write; the day of the month is not checked against the month.
pub record IsDate (last_year : ℕ) (t : Tm) : Type 0 where
  pub first : 70 ≤ t.year
  pub last : t.year ≤ last_year
  pub mday_pos : 1 ≤ t.mday
  pub mday_le : t.mday ≤ 31
  pub hour_le : t.hour ≤ 23
  pub minute_le : t.minute ≤ 59
  pub sec_le : t.sec ≤ 59

make_tm-fields : (t : Tm) → make_tm (1900 + t.year) t.mon t.mday (time_of t) ≡ t
unfolding make_tm
make_tm-fields t = ground arith

within_mday : (n : ℕ) → 1 ≤ n → n ≤ 31 → within 1 31 n ≡ true
within_mday n lo hi = ground arith

-- Behind the day of the week, for a month of the three letters `a`, `b` and `c`.
after_day-http_text :
    (a b c : ℕ) (t : Tm)
    → month_of a b c ≡ some t.mon
    → IsDate 8099 t
    → after_day 3 (http_text (a ∷ b ∷ c ∷ []) t) ≡ some t
unfolding after_day parse_date
after_day-http_text a b c t m v = rw (two_digits-text t.mday _ (omega arith)) (
    rw (within_mday t.mday v.mday_pos v.mday_le) (
      rw m (
        rw (parse_year-text (1900 + t.year) _ (omega arith) (omega arith))
          (rw (parse_time-text t _ v.hour_le v.minute_le v.sec_le) (ap some (make_tm-fields t))))))

century-year : (n : ℕ) → 70 ≤ n → n ≤ 169 → century (n % 100) ≡ 1900 + n
unfolding century
century-year n lo hi = ground arith

after_day-rfc850_text :
    (n a b c : ℕ) (t : Tm)
    → within 3 9 n ≡ true
    → (n == 3) ≡ false
    → month_of a b c ≡ some t.mon
    → IsDate 169 t
    → after_day n (rfc850_text (a ∷ b ∷ c ∷ []) t) ≡ some t
unfolding after_day parse_date
after_day-rfc850_text n a b c t long ne m v = rw long (
    rw ne (
      rw (two_digits-text t.mday _ (omega arith)) (
        rw (within_mday t.mday v.mday_pos v.mday_le) (
          rw m (
            rw (two_digits-text (t.year % 100) _ (omega arith)) (
              rw (century-year t.year v.first v.last) (
                rw (parse_time-text t _ v.hour_le v.minute_le v.sec_le)
                  (ap some (make_tm-fields t)))))))))

day_digits-text :
    (n : ℕ) (r : Bytes)
    → 10 ≤ n
    → n < 100
    → day_digits (padded (n / 10) ∷ (n % 10 + b'0') ∷ r) ≡ some (n, r)
unfolding day_digits
day_digits-text n r lo hi = ground arith

after_day-asctime_text :
    (a b c : ℕ) (t : Tm)
    → month_of a b c ≡ some t.mon
    → IsDate 8099 t
    → 10 ≤ t.mday
    → after_day 3 (asctime_text (a ∷ b ∷ c ∷ []) t) ≡ some t
unfolding after_day
after_day-asctime_text a b c t m v ten = rw m (
    rw (day_digits-text t.mday _ ten (omega arith)) (
      rw (within_mday t.mday v.mday_pos v.mday_le) (
        rw (parse_time-text t _ v.hour_le v.minute_le v.sec_le) (
          rw (parse_year-text (1900 + t.year) [] (omega arith) (omega arith))
            (ap some (make_tm-fields t))))))

-- The space that pads a day below 10 is refused.
after_day-asctime_short :
    (a b c : ℕ) (t : Tm)
    → month_of a b c ≡ some t.mon
    → t.mday < 10
    → after_day 3 (asctime_text (a ∷ b ∷ c ∷ []) t) ≡ none
unfolding after_day day_digits
after_day-asctime_short a b c t m lt = let z : t.mday / 10 ≡ 0 = omega arith in rw z (rw m refl)

-- From three letters to the names of the table.
module _ (P : Bytes → Type 0) (i : ℕ)
    (three : (a b c : ℕ) → month_of a b c ≡ some i → P (a ∷ b ∷ c ∷ [])) where
  of_letters : (m : Bytes) → IsMonth i m → P m
  of_letters (a ∷ b ∷ c ∷ []) h = three a b c h
  of_letters [] h = elim h [ ]
  of_letters (a ∷ []) h = elim h [ ]
  of_letters (a ∷ b ∷ []) h = elim h [ ]
  of_letters (a ∷ b ∷ c ∷ d ∷ m) h = elim h [ ]

parse-day :
    (n : ℕ) (d : Bytes) (c : ℕ) (s : Bytes)
    → IsDay n d
    → is_alpha c ≡ false
    → parse (d ++ (c ∷ s)) ≡ after_day n (c ∷ s)
unfolding parse
parse-day n d c s h e =
    skip_day-append 0 d c s h.0 e
    ∙ ap (λ k. after_day k (c ∷ s)) (let f : 0 + length d ≡ n = omega (arith, h.1) in f)

-- For a date of the years 1970 to 9999 whose fields are in range, `date_parser::parse` reads the value
-- that `http_headers::add_known_header` writes for it, on any day of the week, back to
-- the date.
pub parse-http_date :
    (wday : ℕ) (t : Tm) (text : Bytes)
    → IsDate 8099 t
    → http_date wday t ≡ some text
    → parse text ≡ some t
unfolding http_date
parse-http_date wday t text v e =
    let (day, at, e') = >>=-eq-some (get_elem? days wday) _ e in
    let (mon, at', e'') = >>=-eq-some (get_elem? months t.mon) _ e' in
    let f : day ++ http_text mon t ≡ text = cc in
    ap parse (sym f)
    ∙ parse-day 3 day b',' _ (days-IsDay wday day at) refl
    ∙ of_letters (λ m. after_day 3 (http_text m t) ≡ some t) t.mon
        (λ a b c m. after_day-http_text a b c t m v) mon (months-IsMonth t.mon mon at')

-- For a date of the years 1970 to 2069, with any name of four to nine letters for the day of
-- the week, the format of RFC 850 is read back to the date.
pub parse-rfc850_text :
    (n : ℕ) (day mon : Bytes) (t : Tm)
    → 4 ≤ n
    → n ≤ 9
    → IsDay n day
    → IsDate 169 t
    → get_elem? months t.mon ≡ some mon
    → parse (day ++ rfc850_text mon t) ≡ some t
parse-rfc850_text n day mon t lo hi d v at =
    parse-day n day b',' _ d refl
    ∙ of_letters (λ m. after_day n (rfc850_text m t) ≡ some t) t.mon
        (λ a b c m. after_day-rfc850_text n a b c t (ground arith) (ground arith) m v) mon
        (months-IsMonth t.mon mon at)

-- Of the format of `asctime`, the date is read back from the tenth of the month on; on the first nine
-- days, which it pads with a space, `date_parser::parse` returns -1.
pub parse-asctime_text :
    (day mon : Bytes) (t : Tm)
    → IsDay 3 day
    → IsDate 8099 t
    → get_elem? months t.mon ≡ some mon
    → parse (day ++ asctime_text mon t) ≡ (if ltb t.mday 10 then none else some t)
parse-asctime_text day mon t d v at = elim (Bool-cases (ltb t.mday 10)) [
  | inl e ↦ rw e (
      parse-day 3 day b' ' _ d refl
      ∙ of_letters (λ m. after_day 3 (asctime_text m t) ≡ none) t.mon
          (λ a b c m. after_day-asctime_short a b c t m (ground arith)) mon
          (months-IsMonth t.mon mon at))
  | inr e ↦ rw e (
      parse-day 3 day b' ' _ d refl
      ∙ of_letters (λ m. after_day 3 (asctime_text m t) ≡ some t) t.mon
          (λ a b c m. after_day-asctime_text a b c t m v (ground arith)) mon
          (months-IsMonth t.mon mon at))
]
