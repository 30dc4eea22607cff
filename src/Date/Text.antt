-- ===== src/Date/Text.antt =====
-- http/http_headers.cpp and constants/months_and_days.cpp: the date that the server writes in a header.
-- Beside it, the two older formats of RFC 2616 (3.3.1).
use gweb_plusplus.Base.{
  ℕ, zero, suc, ◌+◌, ◌/◌, ◌%◌, List, [], ◌∷◌, ◌++◌, Option, some, Bytes, get_elem?, ◌>>=◌,
}
use gweb_plusplus.Date.{Tm}

abbrev pub months : List Bytes
months =
    (b'J' ∷ b'a' ∷ b'n' ∷ [])
    ∷ (b'F' ∷ b'e' ∷ b'b' ∷ [])
    ∷ (b'M' ∷ b'a' ∷ b'r' ∷ [])
    ∷ (b'A' ∷ b'p' ∷ b'r' ∷ [])
    ∷ (b'M' ∷ b'a' ∷ b'y' ∷ [])
    ∷ (b'J' ∷ b'u' ∷ b'n' ∷ [])
    ∷ (b'J' ∷ b'u' ∷ b'l' ∷ [])
    ∷ (b'A' ∷ b'u' ∷ b'g' ∷ [])
    ∷ (b'S' ∷ b'e' ∷ b'p' ∷ [])
    ∷ (b'O' ∷ b'c' ∷ b't' ∷ [])
    ∷ (b'N' ∷ b'o' ∷ b'v' ∷ [])
    ∷ (b'D' ∷ b'e' ∷ b'c' ∷ [])
    ∷ []

abbrev pub days : List Bytes
days =
    (b'S' ∷ b'u' ∷ b'n' ∷ [])
    ∷ (b'M' ∷ b'o' ∷ b'n' ∷ [])
    ∷ (b'T' ∷ b'u' ∷ b'e' ∷ [])
    ∷ (b'W' ∷ b'e' ∷ b'd' ∷ [])
    ∷ (b'T' ∷ b'h' ∷ b'u' ∷ [])
    ∷ (b'F' ∷ b'r' ∷ b'i' ∷ [])
    ∷ (b'S' ∷ b'a' ∷ b't' ∷ [])
    ∷ []

-- `%02d` of a number below 100, in front of `r`.
abbrev pub two_digit_text : ℕ → Bytes → Bytes
two_digit_text n r = (n / 10 + b'0') ∷ (n % 10 + b'0') ∷ r

-- `%d` of a number of four digits.
abbrev pub year_text : ℕ → Bytes → Bytes
year_text n r =
    (n / 1000 + b'0') ∷ (n / 100 % 10 + b'0') ∷ (n / 10 % 10 + b'0') ∷ (n % 10 + b'0') ∷ r

-- `%02d:%02d:%02d`
abbrev pub time_text : Tm → Bytes → Bytes
time_text t r =
    two_digit_text t.hour (b':' ∷ two_digit_text t.minute (b':' ∷ two_digit_text t.sec r))

abbrev pub gmt_text : Bytes
gmt_text = b' ' ∷ b'G' ∷ b'M' ∷ b'T' ∷ []

-- Behind the name of the day: `, %02d %s %d %02d:%02d:%02d GMT`.
abbrev pub http_text : Bytes → Tm → Bytes
http_text mon t =
    b','
    ∷ b' '
    ∷ two_digit_text t.mday
        (b' ' ∷ (mon ++ (b' ' ∷ year_text (1900 + t.year) (b' ' ∷ time_text t gmt_text))))

-- The value that `http_headers::add_known_header` formats for a `struct tm`; `none` is a read past a
-- table.
unfoldable pub http_date : ℕ → Tm → Option Bytes
http_date wday t = do
  day ← get_elem? days wday
  mon ← get_elem? months t.mon
  some (day ++ http_text mon t)

-- `, 06-Nov-94 08:49:37 GMT`
abbrev pub rfc850_text : Bytes → Tm → Bytes
rfc850_text mon t =
    b','
    ∷ b' '
    ∷ two_digit_text t.mday
        (b'-' ∷ (mon ++ (b'-' ∷ two_digit_text (t.year % 100) (b' ' ∷ time_text t gmt_text))))

-- ` Nov  6 08:49:37 1994`: the day of the month is padded with a space.
abbrev pub padded : ℕ → ℕ
padded zero = b' '
padded (suc n) = suc n + b'0'

abbrev pub asctime_text : Bytes → Tm → Bytes
asctime_text mon t =
    b' '
    ∷ (mon
        ++ (b' '
            ∷ padded (t.mday / 10)
            ∷ (t.mday % 10 + b'0')
            ∷ b' '
            ∷ time_text t (b' ' ∷ year_text (1900 + t.year) [])))
