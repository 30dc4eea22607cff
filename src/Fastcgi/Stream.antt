-- ===== src/Fastcgi/Stream.antt =====
-- http/fastcgi.h and http/fastcgi.cpp: the records of a stream that is sent to an application.
pub mod Whole
pub mod Lost
use gweb_plusplus.Base.{
  ℕ, zero, suc, ◌+◌, ◌-◌, ◌*◌, ◌/◌, ◌%◌, ◌≤◌, ◌<◌, Bool, true, false, List, [], ◌∷◌, ◌++◌, Option,
  none, some, ltb, ◌==◌, if◌then◌else◌, Bytes, length, take, drop, size_mod,
}
use gweb_plusplus.Buffer.{Buffer, allocate, write_in}
use gweb_plusplus.Fastcgi.{header_bytes}

abbrev pub zeros : ℕ → Bytes
zeros zero = []
zeros (suc n) = 0 ∷ zeros n

abbrev pub padding_for : ℕ → ℕ
padding_for len = if len % 8 == 0 then 0 else 8 - len % 8

-- `nrecords`.
abbrev pub record_count : ℕ → ℕ
record_count len = len / 65535 + (if len % 65535 == 0 then 0 else 1)

-- The bytes that `fill_stream_record` writes.
abbrev pub stream_record : ℕ → ℕ → ℕ → ℕ → Bytes → Bytes
stream_record type id len padding buf =
    header_bytes type id len padding ++ (take len buf ++ zeros padding)

module _ (type id padding : ℕ) where
  -- The rounds of the loop that are left, and the last record. `len` is an `unsigned short`.
  unfoldable pub stream_records : ℕ → Bytes → Bytes
  stream_records zero buf = stream_record type id (length buf % 65536) padding buf
  stream_records (suc rounds) buf =
      let len = length buf % 65535 in
      stream_record type id len 0 buf ++ stream_records rounds (drop len buf)

pub stream_bytes : ℕ → ℕ → Bytes → Bytes
unfolding stream_records
stream_bytes type id buf =
    stream_records type id (padding_for (length buf)) (record_count (length buf) - 1) buf

-- On a buffer. The room for all records is made first.
unfoldable pub input_stream : (ℕ → Bool) → ℕ → ℕ → Bytes → Buffer → Buffer × Bool
unfolding stream_bytes allocate
input_stream realloc type id buf out =
    write_in
      (allocate realloc out (record_count (length buf) * 8 + length buf + padding_for (length buf)))
      (stream_bytes type id buf)

stdin_stream : (ℕ → Bool) → ℕ → Bytes → Buffer → Buffer × Bool
unfolding input_stream
stdin_stream realloc id buf out = input_stream realloc 5 id buf out

data_stream : (ℕ → Bool) → ℕ → Bytes → Buffer → Buffer × Bool
unfolding input_stream
data_stream realloc id buf out = input_stream realloc 8 id buf out

-- On a file. What a write of the record does is a parameter, over the state of the file.
module _ {F : Type 0} (writev : F → Bytes → F × Bool) (type id padding : ℕ) where
  -- The file, `filesize`, and whether the record has been written.
  fill_file_record : F × ℕ → ℕ → ℕ → Bytes → F × ℕ × Bool
  fill_file_record (file, size) len pad buf =
      let (file', written) = writev file (stream_record type id len pad buf) in
      if written then (file', size + (8 + len + pad), true) else (file', size, false)

  -- In the loop the result is not looked at.
  unfoldable pub file_records : ℕ → F × ℕ → Bytes → F × ℕ × Bool
  unfolding fill_file_record
  file_records zero s buf = fill_file_record s (length buf % 65536) padding buf
  file_records (suc rounds) s buf =
      let len = length buf % 65535 in
      let r = fill_file_record s len 0 buf in file_records rounds (r.0, r.1) (drop len buf)
