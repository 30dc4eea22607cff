-- ===== src/Encoders.antt =====
-- net/url_encoder.h, net/url_encoder.cpp, html/html_encoder.h and html/html_encoder.cpp: the two
-- encoders of text for a page. Both count the bytes that they need, allocate them, and write them
-- behind the buffer's contents.
pub mod Text
pub mod Url
pub mod Html
mod Examples
use gweb_plusplus.Base.{
  ℕ, ◌+◌, ◌-◌, ◌/◌, ◌%◌, ◌^◌, Bool, true, false, not, ◌||◌, ◌&&◌, [], ◌∷◌, ◌++◌, ltb, ◌==◌,
  if◌then◌else◌, is_alpha, is_digit, size_mod, Bytes, ℤ, pos, negsuc,
}
use gweb_plusplus.Buffer.{Buffer, write, increment_count, allocate}

pub is_unreserved : ℕ → Bool
is_unreserved c = is_alpha c || is_digit c || c == b'-' || c == b'.' || c == b'_' || c == b'~'

-- `(!is_unreserved(c)) && (c != '/')`
pub is_escaped : ℕ → Bool
unfolding is_unreserved
is_escaped c = not (is_unreserved c) && not (c == b'/')

-- A digit of `%XY`.
pub hex_code : ℕ → ℕ
hex_code n = if ltb n 10 then b'0' + n else b'a' + (n - 10)

pub url_width : ℕ → ℕ
unfolding is_escaped
url_width c = if is_escaped c then 3 else 1

pub url_code : ℕ → Bytes
unfolding is_escaped hex_code
url_code c = if is_escaped c then b'%' ∷ hex_code (c / 16) ∷ hex_code (c % 16) ∷ [] else c ∷ []

pub html_width : ℕ → ℕ
html_width c =
    if c == b'<' || c == b'>'
    then 4
    else if c == b'&' || c == 39
    then 5
    else if c == b'"'
    then 6
    else 1

-- 39 is the apostrophe.
pub html_code : ℕ → Bytes
html_code c =
    if c == b'<'
    then b'&' ∷ b'l' ∷ b't' ∷ b';' ∷ []
    else if c == b'>'
    then b'&' ∷ b'g' ∷ b't' ∷ b';' ∷ []
    else if c == b'&'
    then b'&' ∷ b'a' ∷ b'm' ∷ b'p' ∷ b';' ∷ []
    else if c == b'"'
    then b'&' ∷ b'q' ∷ b'u' ∷ b'o' ∷ b't' ∷ b';' ∷ []
    else if c == 39
    then b'&' ∷ b'#' ∷ b'3' ∷ b'9' ∷ b';' ∷ []
    else c ∷ []

-- The loop that counts.
pub needed : (ℕ → ℕ) → ℕ → Bytes → ℕ
needed width n [] = n
needed width n (c ∷ cs) = needed width ((n + width c) % size_mod) cs

-- The loop that writes.
pub encoded : (ℕ → Bytes) → Bytes → Bytes
encoded code [] = []
encoded code (c ∷ cs) = code c ++ encoded code cs

-- `return needed`: an `int`, 32 bits wide in two's complement.
abbrev pub int : ℕ → ℤ
int n = let t = n % 2 ^ 32 in if ltb t (2 ^ 31) then pos t else negsuc (2 ^ 32 - 1 - t)

-- Behind the call of `allocate`; -1 where it fails.
pub fill : Buffer × Bool → Bytes → ℕ → Buffer × ℤ
fill (b, true) text n = (increment_count (write b text) n, int n)
fill (b, false) text n = (b, negsuc 0)

module _ (realloc : ℕ → Bool) where
  pub url_encode : Bytes → Buffer → Buffer × ℤ
  unfolding needed encoded fill
  url_encode url b =
      let n = needed url_width 0 url in fill (allocate realloc b n) (encoded url_code url) n

  pub html_encode : Bytes → Buffer → Buffer × ℤ
  unfolding needed encoded fill
  html_encode text b =
      let n = needed html_width 0 text in fill (allocate realloc b n) (encoded html_code text) n
