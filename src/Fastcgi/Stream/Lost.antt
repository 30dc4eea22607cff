-- ===== src/Fastcgi/Stream/Lost.antt =====
-- http/fastcgi.cpp: streams that do not arrive whole, and the empty stream.
use gweb_plusplus.Base.{
  ℕ, zero, suc, ◌+◌, ◌-◌, ◌*◌, ◌/◌, ◌%◌, ◌≤◌, ◌<◌, Bool, true, [], ◌++◌, leb, Bytes, length, take,
  drop, size_mod, length-append, length-take, length-drop, arith, ◌≡◌, refl, ap, ◌∙◌,
}
use gweb_plusplus.Buffer.{Buffer, allocate, write}
use gweb_plusplus.Buffer.Appends.{IsSound, write-length}
use gweb_plusplus.Fastcgi.{header_bytes}
use gweb_plusplus.Fastcgi.Stream.{
  zeros, padding_for, record_count, stream_record, stream_records, stream_bytes, input_stream,
}
use gweb_plusplus.Fastcgi.Stream.Whole.{length-zeros}

length-stream_record :
    (type id len padding : ℕ) (buf : Bytes)
    → len ≤ length buf
    → length (stream_record type id len padding buf) ≡ 8 + (len + padding)
length-stream_record type id len padding buf le = omega (
  arith,
  length-append (take len buf) (zeros padding),
  length-take len buf le,
  length-zeros padding,
)

module _ (type id padding : ℕ) where
  -- What is left after the first round is a multiple of 65535, of which no round takes anything.
  length-rounds :
      (rounds m : ℕ) (buf : Bytes)
      → length buf ≡ 65535 * m
      → length (stream_records type id padding rounds buf)
        ≡ rounds * 8 + (8 + (65535 * m % 65536 + padding))
  unfolding stream_records
  length-rounds zero m buf e =
      let h : length buf % 65536 ≡ 65535 * m % 65536 = ap (λ n. n % 65536) e in
      omega (arith, length-stream_record type id (length buf % 65536) padding buf (omega arith), h)
  length-rounds (suc rounds) m buf e =
      let len = length buf % 65535 in
      omega (
        arith,
        e,
        length-append (stream_record type id len 0 buf)
            (stream_records type id padding rounds (drop len buf)),
        length-stream_record type id len 0 buf (omega arith),
        length-rounds rounds m (drop len buf) (omega (arith, length-drop len buf)),
      )

-- `input_stream`, on 131070 bytes of data or more, writes fewer bytes than the data, the headers and the
-- padding take: the loop passes empty records on, and the length of the last is cut to 16 bits.
pub length-stream_bytes_short :
    (type id : ℕ) (buf : Bytes)
    → 131070 ≤ length buf
    → length (stream_bytes type id buf)
      < record_count (length buf) * 8 + length buf + padding_for (length buf)
unfolding stream_bytes stream_records
length-stream_bytes_short type id buf le =
    let n = length buf in
    let rest = n % 65535 in
    let padding = padding_for n in
    let rounds : record_count n - 1 ≡ suc (record_count n - 2) = ground arith in
    rw rounds (
      omega (
        arith,
        le,
        rounds,
        length-append (stream_record type id rest 0 buf)
            (stream_records type id padding (record_count n - 2) (drop rest buf)),
        length-stream_record type id rest 0 buf (omega arith),
        length-rounds type id padding (record_count n - 2) (n / 65535) (drop rest buf)
            (omega (arith, length-drop rest buf)),
      ))

-- The empty stream, with which a client's data end: `input_stream` makes no room for its record, and
-- writes 8 bytes all the same, past the array where it holds fewer than 8 more.
pub input_stream_overruns :
    (realloc : ℕ → Bool) (type id : ℕ) (out : Buffer)
    → IsSound out
    → out.size < out.used + 8
    → out.used + 8 < size_mod
    → let r = input_stream realloc type id [] out in
      (r.1 ≡ true) × (r.0.size ≡ out.size) × (out.size < r.0.used) × (out.size < length r.0.data')
unfolding input_stream stream_bytes stream_records allocate
input_stream_overruns realloc type id out v full room =
    let small : (0 + out.used) % size_mod ≡ out.used = omega arith in
    let enough : leb ((0 + out.used) % size_mod) out.size ≡ true =
      ground (arith, small, v.written, v.fits) in
    let grown : (out.used + 8) % size_mod ≡ out.used + 8 = omega arith in
    let wide = write-length out (header_bytes type id 0 0 ++ []) v.written in
    let e : input_stream realloc type id [] out ≡ (
      record (write out (header_bytes type id 0 0 ++ [])) { used = (out.used + 8) % size_mod },
      true,
    ) =
      rw enough refl in
    let f : (input_stream realloc type id [] out).0.used ≡ out.used + 8 =
      ap (λ (r : Buffer × Bool). r.0.used) e ∙ grown in
    (
      ap (λ (r : Buffer × Bool). r.1) e,
      ap (λ (r : Buffer × Bool). r.0.size) e,
      omega (arith, f),
      omega (arith, wide, ap (λ (r : Buffer × Bool). length r.0.data') e),
    )
