-- ===== src/Date/Examples.antt =====
-- The parser of dates at the dates of RFC 2616 (3.3.1), and its theorems at one of them.
use gweb_plusplus.Base.{arith, [], ◌∷◌, ◌++◌, some, none, ◌≡◌, refl, Bytes, if◌then◌else◌, ltb}
use gweb_plusplus.Date.{Tm, parse}
use gweb_plusplus.Date.Text.{http_date, http_text, asctime_text}
use gweb_plusplus.Date.RoundTrip.{parse-http_date, parse-asctime_text}
use gweb_plusplus.Date.Bounds.{IsRead, parse-IsRead}

-- 6 November 1994, 08:49:37
abbrev sixth : Tm
sixth = record { year = 94; mon = 10; mday = 6; hour = 8; minute = 49; sec = 37 }

abbrev november : Bytes
november = b'N' ∷ b'o' ∷ b'v' ∷ []

abbrev sunday : Bytes
sunday = b'S' ∷ b'u' ∷ b'n' ∷ b'd' ∷ b'a' ∷ b'y' ∷ []

abbrev sun : Bytes
sun = b'S' ∷ b'u' ∷ b'n' ∷ []

abbrev http_sixth : Bytes
http_sixth = sun ++ http_text november sixth

parse-http_date_example : parse http_sixth ≡ some sixth
unfolding http_date
parse-http_date_example = parse-http_date 0 sixth http_sixth (omega arith) refl

parse-asctime_text_example :
    parse (sun ++ asctime_text november sixth) ≡ (if ltb sixth.mday 10 then none else some sixth)
parse-asctime_text_example = parse-asctime_text sun november sixth (ground arith) (omega arith) refl

parse-IsRead_example : IsRead sixth
unfolding parse
parse-IsRead_example = parse-IsRead http_sixth sixth refl
