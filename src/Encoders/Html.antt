-- ===== src/Encoders/Html.antt =====
-- html/html_encoder.cpp: what `html_encoder::encode` writes, as a browser shows it.
use gweb_plusplus.Base.{
  ℕ, ◌+◌, ◌*◌, ◌≤◌, ◌<◌, ◌^◌, Bool, false, ◌||◌, [], ◌∷◌, ◌++◌, ◌==◌, Bytes, length, arith, ◌≡◌,
}
use gweb_plusplus.Buffer.{Buffer}
use gweb_plusplus.Buffer.Appends.{IsSound}
use gweb_plusplus.Encoders.{html_width, html_code, encoded, html_encode}
use gweb_plusplus.Encoders.Text.{IsEncoded, encode-IsEncoded}

-- The bytes that have a meaning of their own in a page or in an attribute's value.
abbrev pub is_markup : ℕ → Bool
is_markup c = c == b'<' || c == b'>' || c == b'&' || c == b'"' || c == 39

-- `Shows t s`: a browser shows the text `s` for `t`, which holds no markup but the five references.
pub data Shows : Bytes → Bytes → Type 0 where
  done : Shows [] []
  plain : {c : ℕ} {t s : Bytes} → is_markup c ≡ false → Shows t s → Shows (c ∷ t) (c ∷ s)
  less : {t s : Bytes} → Shows t s → Shows (b'&' ∷ b'l' ∷ b't' ∷ b';' ∷ t) (b'<' ∷ s)
  greater : {t s : Bytes} → Shows t s → Shows (b'&' ∷ b'g' ∷ b't' ∷ b';' ∷ t) (b'>' ∷ s)
  ampersand : {t s : Bytes} → Shows t s → Shows (b'&' ∷ b'a' ∷ b'm' ∷ b'p' ∷ b';' ∷ t) (b'&' ∷ s)
  quote : {t s : Bytes} → Shows t s → Shows (b'&' ∷ b'q' ∷ b'u' ∷ b'o' ∷ b't' ∷ b';' ∷ t) (b'"' ∷ s)
  apostrophe : {t s : Bytes} → Shows t s → Shows (b'&' ∷ b'#' ∷ b'3' ∷ b'9' ∷ b';' ∷ t) (39 ∷ s)

html_width-code : (c : ℕ) → html_width c ≡ length (html_code c)
unfolding html_width html_code
html_width-code c = ground arith

html_code_le : (c : ℕ) → length (html_code c) ≤ 6
unfolding html_code
html_code_le c = ground arith

-- The byte `c` in front.
html_code-Shows : (c : ℕ) (t s : Bytes) → Shows t s → Shows (html_code c ++ t) (c ∷ s)
unfolding html_code
html_code-Shows c t s h =
    let p : is_markup c ≡ false → Shows (c ∷ t) (c ∷ s) = λ m. plain m h in
    ground (arith, less h, greater h, ampersand h, quote h, apostrophe h, p)

-- What `html_encoder::encode` writes shows the text that it is given.
pub encoded-Shows : (s : Bytes) → Shows (encoded html_code s) s
unfolding encoded
encoded-Shows [] = done
encoded-Shows (c ∷ s) = html_code-Shows c (encoded html_code s) s (encoded-Shows s)

-- `html_encoder::encode`, on a text and a buffer of a total size well below 2 ^ 31, returns the number of bytes that it puts behind the
-- buffer's contents, within the array, or returns -1 and leaves the buffer, where `realloc` has failed for want of room; those bytes hold no markup but the references to the five characters, and show the text.
pub html_encode-IsEncoded :
    (realloc : ℕ → Bool) (s : Bytes) (b : Buffer)
    → IsSound b
    → b.used + 6 * length s + b.increment < 2 ^ 31
    → (t : Bytes) × Shows t s × IsEncoded realloc b t (html_encode realloc s b)
unfolding html_encode
html_encode-IsEncoded realloc s b v lt = (
  encoded html_code s,
  encoded-Shows s,
  encode-IsEncoded html_width html_code html_width-code html_code_le realloc b s v lt,
)
