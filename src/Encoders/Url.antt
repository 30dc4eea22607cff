-- ===== src/Encoders/Url.antt =====
-- net/url_encoder.cpp: what `url_encoder::encode` writes, as the parser of paths reads it.
use gweb_plusplus.Base.{
  ℕ, ◌+◌, ◌*◌, ◌/◌, ◌%◌, ◌≤◌, ◌<◌, ◌^◌, Bool, false, [], ◌∷◌, some, Bytes, length, All, arith, ◌≡◌,
  ap, ◌∙◌, Bool-cases, ◌⊎◌, inl, inr,
}
use gweb_plusplus.Buffer.{Buffer}
use gweb_plusplus.Buffer.Appends.{IsSound}
use gweb_plusplus.UrlPath.{hex_digit, two_digits, escape}
use gweb_plusplus.Encoders.{
  is_unreserved, is_escaped, hex_code, url_width, url_code, encoded, url_encode,
}
use gweb_plusplus.Encoders.Text.{IsEncoded, encode-IsEncoded}

-- The bytes that stand for themselves: letters, digits, `-`, `.`, `/`, `_` and `~`, by RFC 3986.
abbrev pub IsPlain : ℕ → Type 0
IsPlain c =
    ((b'A' ≤ c) × (c ≤ b'Z'))
    ⊎ ((b'a' ≤ c) × (c ≤ b'z'))
    ⊎ ((b'-' ≤ c) × (c ≤ b'9'))
    ⊎ (c ≡ b'_')
    ⊎ (c ≡ b'~')

-- `Denotes t s`: `t` is text of such bytes and of escapes `%XY`, as
-- `url_parser` reads them, and it stands for the bytes `s`.
pub data Denotes : Bytes → Bytes → Type 0 where
  done : Denotes [] []
  plain : {c : ℕ} {t s : Bytes} → IsPlain c → Denotes t s → Denotes (c ∷ t) (c ∷ s)
  escaped :
      {x y c : ℕ} {t s : Bytes}
      → escape (x ∷ y ∷ []) ≡ some (c, [])
      → Denotes t s
      → Denotes (b'%' ∷ x ∷ y ∷ t) (c ∷ s)

is_escaped-IsPlain : (c : ℕ) → is_escaped c ≡ false → IsPlain c
unfolding is_escaped is_unreserved
is_escaped-IsPlain c e = ground arith

url_width-code : (c : ℕ) → url_width c ≡ length (url_code c)
unfolding url_width url_code
url_width-code c = ground arith

url_code_le : (c : ℕ) → length (url_code c) ≤ 6
unfolding url_code
url_code_le c = ground arith

hex_digit-code : (n : ℕ) → n < 16 → hex_digit (hex_code n) ≡ some n
unfolding hex_digit hex_code
hex_digit-code n lt = ground arith

escape_digits :
    (x y a b : ℕ)
    → hex_digit x ≡ some a
    → hex_digit y ≡ some b
    → escape (x ∷ y ∷ []) ≡ some (a * 16 + b, [])
unfolding escape two_digits
escape_digits x y a b e d = cc

escape-code : (c : ℕ) → c < 256 → escape (hex_code (c / 16) ∷ hex_code (c % 16) ∷ []) ≡ some (c, [])
escape-code c lt =
    escape_digits (hex_code (c / 16)) (hex_code (c % 16)) (c / 16) (c % 16)
      (hex_digit-code (c / 16) (omega arith)) (hex_digit-code (c % 16) (omega arith))
    ∙ ap (λ k. some (k, [])) (omega arith)

-- The text that `url_encoder::encode` writes stands for the bytes that it is given.
pub encoded-Denotes : (s : Bytes) → All (λ c. c < 256) s → Denotes (encoded url_code s) s
unfolding encoded url_code
encoded-Denotes [] h = done
encoded-Denotes (c ∷ s) h = elim (Bool-cases (is_escaped c)) [
  | inl e ↦ rw e (escaped (escape-code c h.0) (encoded-Denotes s h.1))
  | inr e ↦ rw e (plain (is_escaped-IsPlain c e) (encoded-Denotes s h.1))
]

-- `url_encoder::encode`, on a text and a buffer of a total size well below 2 ^ 31, returns the number of bytes that it puts behind the
-- buffer's contents, within the array, or returns -1 and leaves the buffer, where `realloc` has failed for want of room; those bytes are letters, digits, `-`, `.`, `/`, `_`, `~` and escapes, which stand for the text.
pub url_encode-IsEncoded :
    (realloc : ℕ → Bool) (s : Bytes) (b : Buffer)
    → All (λ c. c < 256) s
    → IsSound b
    → b.used + 6 * length s + b.increment < 2 ^ 31
    → (t : Bytes) × Denotes t s × IsEncoded realloc b t (url_encode realloc s b)
unfolding url_encode
url_encode-IsEncoded realloc s b h v lt = (
  encoded url_code s,
  encoded-Denotes s h,
  encode-IsEncoded url_width url_code url_width-code url_code_le realloc b s v lt,
)
