-- ===== src/Fastcgi.antt =====
-- http/fastcgi.h and http/fastcgi.cpp: the records of the FastCGI protocol, and the reader of those that an
-- application sends. What the subclass does with a record is a parameter, over a state of its own. What
-- is logged is left out.
pub mod Pairs
pub mod Rounds
pub mod Decode
pub mod Split
pub mod Records
pub mod Stream
mod Examples
use gweb_plusplus.Base.{
  ℕ, zero, suc, ◌+◌, ◌*◌, ◌/◌, ◌%◌, Bool, true, false, not, ◌||◌, List, [], ◌∷◌, ◌++◌, Option, none,
  some, ltb, leb, ◌==◌, if◌then◌else◌, Bytes, length, take, drop, Round, more, stop, loop,
}
use gweb_plusplus.Buffer.{Buffer, allocate, write_in}

-- The two bytes of an `unsigned short`.
abbrev pub high : ℕ → ℕ
high n = n / 256 % 256

abbrev pub low : ℕ → ℕ
low n = n % 256

-- `fill_header`.
abbrev pub header_bytes : ℕ → ℕ → ℕ → ℕ → Bytes
header_bytes type id len padding =
    1 ∷ type ∷ high id ∷ low id ∷ high len ∷ low len ∷ padding ∷ 0 ∷ []

module _ (realloc : ℕ → Bool) where
  begin_request : ℕ → ℕ → Bool → Buffer → Buffer × Bool
  unfolding allocate
  begin_request id role keep_alive out = write_in (allocate realloc out 16) (
      header_bytes 1 id 8 0
      ++ (high role ∷ low role ∷ (if keep_alive then 1 else 0) ∷ 0 ∷ 0 ∷ 0 ∷ 0 ∷ 0 ∷ []))

  abort_request : ℕ → Buffer → Buffer × Bool
  unfolding allocate
  abort_request id out = write_in (allocate realloc out 8) (header_bytes 2 id 0 0)

-- The length of a name or of a value, of 16 bits.
abbrev pub length_bytes : ℕ → Bytes
length_bytes n =
    if leb n 127
    then n ∷ []
    else (128 + n / 16777216) ∷ n / 65536 % 256 ∷ n / 256 % 256 ∷ n % 256 ∷ []

-- `FCGI_Header`, read back; the two bytes of a number are put together.
pub record Header : Type 0 where
  pub version : ℕ
  pub type : ℕ
  pub id : ℕ
  pub len : ℕ
  pub padding : ℕ

pub read_header : Bytes → Option (Header × Bytes)
read_header (v ∷ t ∷ i1 ∷ i0 ∷ c1 ∷ c0 ∷ p ∷ z ∷ body) =
    some
      (record { version = v; type = t; id = i1 * 256 + i0; len = c1 * 256 + c0; padding = p }, body)
read_header _ = none

-- The length of a name or of a value; `none` where the record is too small, or the length too large. Where
-- no byte is left the source looks at the byte behind, and ignores the record whatever that byte is.
pub read_length : Bytes → Option (ℕ × Bytes)
read_length [] = none
read_length (b ∷ bs) =
    if leb 128 b
    then elim bs [
      | b2 ∷ b1 ∷ b0 ∷ rest ↦
          let n : ℕ = b % 128 * 16777216 + b2 * 65536 + b1 * 256 + b0 in
          if ltb 65535 n then none else some (n, rest)
      | _ ↦ none
    ]
    else some (b, bs)

abbrev pub with_name : ℕ → Option (ℕ × Bytes) → Option (ℕ × ℕ × Bytes)
with_name name_len none = none
with_name name_len (some (value_len, rest)) = some (name_len, value_len, rest)

abbrev pub read_lengths : Option (ℕ × Bytes) → Option (ℕ × ℕ × Bytes)
read_lengths none = none
read_lengths (some (name_len, bytes)) = with_name name_len (read_length bytes)

-- The virtual functions.
pub record Callbacks (S : Type 0) : Type 0 where
  pub get_values_result : S → Bytes → Bytes → S × Bool
  pub stdout_stream : S → ℕ → Bytes → S × Bool
  pub stderr_stream : S → ℕ → Bytes → S × Bool
  pub end_request : S → ℕ → ℕ → ℕ → S × Bool

module _ {S : Type 0} (c : Callbacks S) where
  -- Behind a call of `get_values_result`.
  pub after_pair : Bytes → S × Bool → Round (S × Bytes) (S × Bool)
  after_pair rest (s, false) = stop (s, false)
  after_pair rest (s, true) = if length rest == 0 then stop (s, true) else more (s, rest)

  pub decode_pair : S → Option (ℕ × ℕ × Bytes) → Round (S × Bytes) (S × Bool)
  unfolding after_pair
  decode_pair s none = stop (s, true)
  decode_pair s (some (name_len, value_len, rest)) =
      if ltb (length rest) (name_len + value_len)
      then stop (s, true)
      else after_pair (drop (name_len + value_len) rest)
          (c.get_values_result s (take name_len rest) (take value_len (drop name_len rest)))

  -- A round of the loop, with the bytes that are left.
  pub decode_round : S × Bytes → Round (S × Bytes) (S × Bool)
  unfolding decode_pair read_length
  decode_round (s, bytes) = decode_pair s (read_lengths (read_length bytes))

  abbrev pub returned : S → Option (S × Bool) → S × Bool
  returned s none = (s, true)
  returned s (some r) = r

  -- `decode_name_value_pairs`, on a byte or more. Its loop returns, so `none` does not happen.
  unfoldable pub decode : S → Bytes → S × Bool
  unfolding decode_round loop
  decode s bytes = returned s (loop decode_round (suc (length bytes)) (s, bytes))

  -- The number of four bytes; `end->appStatusB3` and so on.
  call_end : S → ℕ → Bytes → S × Bool
  call_end s id (b3 ∷ b2 ∷ b1 ∷ b0 ∷ status ∷ rest) =
      c.end_request s id (b3 * 16777216 + b2 * 65536 + b1 * 256 + b0) status
  call_end s id _ = (s, true)

  -- What a record of a type leads to. A record of another type is left out, as are those of no bytes.
  pub dispatch : S → Header → Bytes → S × Bool
  unfolding decode call_end
  dispatch s h content =
      if h.type == 10
      then (if h.len == 0 then (s, true) else decode s content)
      else if h.type == 6
      then (if h.len == 0 then (s, true) else c.stdout_stream s h.id content)
      else if h.type == 7
      then (if h.len == 0 then (s, true) else c.stderr_stream s h.id content)
      else if h.type == 3
      then (if h.len == 8 then call_end s h.id content else (s, true))
      else (s, true)

-- How a call of `process` ends: with `true` and the rest of the bytes kept, with `true` and the buffer
-- discarded, or with `false`.
pub data End : Type 0 where
  waits discards fails : End

abbrev pub is_invalid : Header → Bool
is_invalid h = not (h.version == 1) || h.type == 0 || ltb 11 h.type

module _ {S : Type 0} where
  abbrev pub with_buffer : Bytes → Option (S × Bytes × End) → Option (S × Bytes × End)
  with_buffer bytes none = none
  with_buffer bytes (some (s, rest, waits)) = some (s, rest, waits)
  with_buffer bytes (some (s, rest, discards)) = some (s, rest, discards)
  with_buffer bytes (some (s, rest, fails)) = some (s, bytes, fails)

module _ {S : Type 0} (c : Callbacks S) where
  pub after_record : Bytes → S × Bool → Round (S × Bytes) (S × Bytes × End)
  after_record rest (s, true) = more (s, rest)
  after_record rest (s, false) = stop (s, rest, fails)

  pub process_record : S → Bytes → Option (Header × Bytes) → Round (S × Bytes) (S × Bytes × End)
  unfolding after_record dispatch
  process_record s bytes none = stop (s, bytes, waits)
  process_record s bytes (some (h, body)) =
      if is_invalid h
      then stop (s, [], discards)
      else if ltb (length body) (h.len + h.padding)
      then stop (s, bytes, waits)
      else after_record (drop (h.len + h.padding) body) (dispatch c s h (take h.len body))

  -- A round of the loop, with the bytes from the offset on.
  pub process_round : S × Bytes → Round (S × Bytes) (S × Bytes × End)
  unfolding process_record read_header
  process_round (s, bytes) = process_record s bytes (read_header bytes)

  -- On the bytes of the buffer, with those that it is left with: all of them where a callback has
  -- failed. A round takes 8 bytes or more, so the fuel does not run out.
  unfoldable pub process : S → Bytes → Option (S × Bytes × End)
  unfolding process_round loop
  process s bytes = with_buffer bytes (loop process_round (suc (length bytes)) (s, bytes))
