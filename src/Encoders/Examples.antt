-- ===== src/Encoders/Examples.antt =====
-- The encoders on concrete texts, and their theorems at one of them.
use gweb_plusplus.Base.{arith, ℕ, Bool, true, [], ◌∷◌, ◌≡◌, refl, Bytes, pos}
use gweb_plusplus.Buffer.{Buffer, allocate}
use gweb_plusplus.Buffer.Appends.{IsSound}
use gweb_plusplus.Encoders.{url_encode, html_encode, url_width, url_code, html_width, html_code}
use gweb_plusplus.Encoders.Text.{IsEncoded}
use gweb_plusplus.Encoders.Url.{Denotes, url_encode-IsEncoded}
use gweb_plusplus.Encoders.Html.{Shows, html_encode-IsEncoded}

abbrev enough_memory : ℕ → Bool
enough_memory n = true

abbrev empty : Buffer
empty = record { data' = []; size = 0; used = 0; increment = 4 }

empty-IsSound : IsSound empty
empty-IsSound = record { written = omega arith; fits = omega arith; grows = omega arith }

-- `a <`
abbrev text : Bytes
text = b'a' ∷ b' ' ∷ b'<' ∷ []

url_run : url_encode enough_memory text empty ≡ (
  record {
    data' = b'a' ∷ b'%' ∷ b'2' ∷ b'0' ∷ b'%' ∷ b'3' ∷ b'c' ∷ [];
    size = 8;
    used = 7;
    increment = 4;
  },
  pos 7,
)
unfolding url_encode allocate url_width url_code
url_run = refl

html_run : html_encode enough_memory text empty ≡ (
  record {
    data' = b'a' ∷ b' ' ∷ b'&' ∷ b'l' ∷ b't' ∷ b';' ∷ [];
    size = 8;
    used = 6;
    increment = 4;
  },
  pos 6,
)
unfolding html_encode allocate html_width html_code
html_run = refl

url_encode-IsEncoded_example :
    (t : Bytes) × Denotes t text
    × IsEncoded enough_memory empty t (url_encode enough_memory text empty)
url_encode-IsEncoded_example =
    url_encode-IsEncoded enough_memory text empty (omega arith, (omega arith, (omega arith, tt)))
      empty-IsSound (omega arith)

html_encode-IsEncoded_example :
    (t : Bytes) × Shows t text
    × IsEncoded enough_memory empty t (html_encode enough_memory text empty)
html_encode-IsEncoded_example =
    html_encode-IsEncoded enough_memory text empty empty-IsSound (omega arith)
