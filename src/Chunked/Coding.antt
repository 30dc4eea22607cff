-- ===== src/Chunked/Coding.antt =====
-- A body in the chunked coding, as RFC 2616 (3.6.1) writes it.
use gweb_plusplus.Base.{
  ℕ, ◌+◌, ◌*◌, ◌^◌, ◌<◌, Bool, true, false, [], ◌∷◌, ◌++◌, ◌≡◌, ◌≢◌, Option, none, some, List, ◌==◌,
  ◌||◌, Bytes, size_mod, length, All,
}
use gweb_plusplus.Chunked.{is_control, hex_digit}

-- The value of a digit, and of a numeral in base 16.
abbrev pub value_of : Option ℕ → ℕ
value_of none = 0
value_of (some d) = d

abbrev pub digit_value : ℕ → ℕ
digit_value c = value_of (hex_digit c)

abbrev pub hex_value : Bytes → ℕ
hex_value [] = 0
hex_value (c ∷ cs) = digit_value c * 16 ^ length cs + hex_value cs

abbrev pub IsHexDigit : ℕ → Type 0
IsHexDigit c = (d : ℕ) × (hex_digit c ≡ some d)

-- A byte of an extension or of a trailer line.
abbrev pub IsText : ℕ → Type 0
IsText c = is_control c ≡ false

-- What may stand between the size and its line end: nothing, or text behind a blank or a `;`.
abbrev pub IsExtension : Bytes → Type 0
IsExtension [] = Unit
IsExtension (c ∷ cs) = ((c == b' ' || c == b'\t' || c == b';') ≡ true) × All IsText cs

-- A chunk on the wire: the numeral of its size, an extension, and its data.
pub record Chunk : Type 0 where
  pub digits : Bytes
  pub extension : Bytes
  pub content : Bytes

abbrev pub IsNumeral : Bytes → ℕ → Type 0
IsNumeral ds n = All IsHexDigit ds × (ds ≢ []) × (hex_value ds ≡ n) × (n < size_mod)

pub record IsChunk (k : Chunk) : Type 0 where
  pub numeral : IsNumeral k.digits (length k.content)
  pub extended : IsExtension k.extension
  pub not_empty : 0 < length k.content

-- The last chunk, of size 0, and the trailer's lines.
pub record Ending : Type 0 where
  pub zeros : Bytes
  pub note : Bytes
  pub lines : List Bytes

abbrev pub IsLine : Bytes → Type 0
IsLine l = (l ≢ []) × All IsText l

pub record IsEnding (e : Ending) : Type 0 where
  pub numeral : IsNumeral e.zeros 0
  pub extended : IsExtension e.note
  pub trailers : All IsLine e.lines

abbrev pub crlf : Bytes
crlf = 13 ∷ 10 ∷ []

abbrev pub encode_chunk : Chunk → Bytes → Bytes
encode_chunk k rest = k.digits ++ (k.extension ++ (13 ∷ 10 ∷ (k.content ++ (13 ∷ 10 ∷ rest))))

abbrev pub encode_chunks : List Chunk → Bytes → Bytes
encode_chunks [] rest = rest
encode_chunks (k ∷ ks) rest = encode_chunk k (encode_chunks ks rest)

abbrev pub encode_lines : List Bytes → Bytes → Bytes
encode_lines [] rest = 13 ∷ 10 ∷ rest
encode_lines (l ∷ ls) rest = l ++ (13 ∷ 10 ∷ encode_lines ls rest)

abbrev pub encode_ending : Ending → Bytes → Bytes
encode_ending e rest = e.zeros ++ (e.note ++ (13 ∷ 10 ∷ encode_lines e.lines rest))

-- A callback that keeps all it is given.
abbrev pub collect : Bytes → Bytes → Bytes × Bool
collect s b = (s ++ b, true)

-- The data of the chunks.
abbrev pub contents : List Chunk → Bytes
contents [] = []
contents (k ∷ ks) = k.content ++ contents ks
