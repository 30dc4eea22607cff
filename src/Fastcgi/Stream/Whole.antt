-- ===== src/Fastcgi/Stream/Whole.antt =====
-- http/fastcgi.cpp: streams that arrive whole.
use gweb_plusplus.Base.{
  ℕ, zero, suc, ◌+◌, ◌-◌, ◌*◌, ◌%◌, ◌≤◌, ◌<◌, Bool, List, [], ◌∷◌, ◌++◌, append-nil, if◌then◌else◌,
  ◌==◌, Bytes, length, take, drop, size_mod, length-append, length-take, length-drop, take-length,
  All, Bool-cases, inl, inr, arith, ◌≡◌, refl, ap, ◌∙◌,
}
use gweb_plusplus.Buffer.{Buffer}
use gweb_plusplus.Buffer.Appends.{IsSound, IsAppended, write_in-IsAppended, allocate-IsAllocated}
use gweb_plusplus.Fastcgi.{header_bytes}
use gweb_plusplus.Fastcgi.Records.{Record, IsRecord, record_onto, records_onto}
use gweb_plusplus.Fastcgi.Stream.{
  zeros, padding_for, record_count, stream_record, stream_records, stream_bytes, input_stream,
}

-- The one or two records of a stream below 131070 bytes: what is over 65535 comes first.
pub records_of : ℕ → ℕ → Bytes → List Record
records_of type id buf =
    let pad = zeros (padding_for (length buf)) in
    if record_count (length buf) == 1
    then record { type = type; id = id; content = buf; padding = pad } ∷ []
    else record { type = type; id = id; content = take (length buf % 65535) buf; padding = [] }
      ∷ record { type = type; id = id; content = drop (length buf % 65535) buf; padding = pad }
      ∷ []

abbrev pub contents_of : List Record → Bytes
contents_of [] = []
contents_of (r ∷ rs) = r.content ++ contents_of rs

pub length-zeros : (n : ℕ) → length (zeros n) ≡ n
length-zeros zero = refl
length-zeros (suc n) = ap suc (length-zeros n)

pub take-append-drop : (n : ℕ) (xs : Bytes) → take n xs ++ drop n xs ≡ xs
take-append-drop zero xs = refl
take-append-drop (suc n) [] = refl
take-append-drop (suc n) (x ∷ xs) = ap (◌∷◌ x) (take-append-drop n xs)

last_record :
    (type id pad : ℕ) (buf : Bytes)
    → length buf < 65536
    → stream_record type id (length buf % 65536) pad buf
      ≡ record_onto (record { type = type; id = id; content = buf; padding = zeros pad }) []
last_record type id pad buf lt =
    let e : length buf % 65536 ≡ length buf = omega arith in
    ap (λ n. stream_record type id n pad buf) e
    ∙ rw (length-zeros pad) (rw (take-length buf) (rw (append-nil (zeros pad)) refl))

first_record :
    (type id n : ℕ) (buf rest : Bytes)
    → n ≤ length buf
    → stream_record type id n 0 buf ++ rest
      ≡ record_onto (record { type = type; id = id; content = take n buf; padding = [] }) rest
first_record type id n buf rest le =
    rw (length-take n buf le)
      (ap (λ x. header_bytes type id n 0 ++ (x ++ rest)) (append-nil (take n buf)))

-- The bytes of the stream are those of the records.
stream_bytes-records_onto :
    (type id : ℕ) (buf : Bytes)
    → 0 < length buf
    → length buf < 131070
    → stream_bytes type id buf ≡ records_onto (records_of type id buf) []
unfolding stream_bytes stream_records records_of records_onto
stream_bytes-records_onto type id buf pos lt = elim (Bool-cases (record_count (length buf) == 1)) [
  | inl d ↦
      let one : record_count (length buf) - 1 ≡ 0 = ground arith in
      let short : length buf < 65536 = ground arith in
      rw d (rw one (last_record type id (padding_for (length buf)) buf short))
  | inr d ↦
      let k = length buf % 65535 in
      let two : record_count (length buf) - 1 ≡ 1 = ground arith in
      let left : length (drop k buf) < 65536 = ground (arith, length-drop k buf) in
      rw d (
        rw two (
          first_record type id k buf _ (omega arith)
          ∙ ap (record_onto (record { type = type; id = id; content = take k buf; padding = [] }))
              (last_record type id (padding_for (length buf)) (drop k buf) left)))
]

length-record_onto :
    (r : Record) (rest : Bytes)
    → length (record_onto r rest) ≡ 8 + (length r.content + (length r.padding + length rest))
length-record_onto r rest =
    omega (arith, length-append r.content (r.padding ++ rest), length-append r.padding rest)

length-records_of :
    (type id : ℕ) (buf : Bytes)
    → 0 < length buf
    → length buf < 131070
    → length (records_onto (records_of type id buf) [])
      ≡ record_count (length buf) * 8 + length buf + padding_for (length buf)
unfolding records_of records_onto
length-records_of type id buf pos lt = elim (Bool-cases (record_count (length buf) == 1)) [
  | inl d ↦
      let one : record_count (length buf) ≡ 1 = ground arith in
      let r : Record = record {
        type = type;
        id = id;
        content = buf;
        padding = zeros (padding_for (length buf));
      } in
      rw d (omega (arith, one, length-record_onto r [], length-zeros (padding_for (length buf))))
  | inr d ↦
      let k = length buf % 65535 in
      let two : record_count (length buf) ≡ 2 = ground arith in
      let r : Record = record { type = type; id = id; content = take k buf; padding = [] } in
      let q : Record = record {
        type = type;
        id = id;
        content = drop k buf;
        padding = zeros (padding_for (length buf));
      } in
      rw d (
        omega (
          arith,
          two,
          length-record_onto r (record_onto q []),
          length-record_onto q [],
          length-zeros (padding_for (length buf)),
          length-take k buf (omega arith),
          length-drop k buf,
        ))
]

records_of-IsRecord :
    (type id : ℕ) (buf : Bytes)
    → 0 < type
    → type ≤ 11
    → id < 65536
    → 0 < length buf
    → length buf < 131070
    → All IsRecord (records_of type id buf) × (contents_of (records_of type id buf) ≡ buf)
unfolding records_of
records_of-IsRecord type id buf low_type high_type small pos lt =
    let k = length buf % 65535 in
    let pad : length (zeros (padding_for (length buf))) < 256 =
      ground (arith, length-zeros (padding_for (length buf))) in
    elim (Bool-cases (record_count (length buf) == 1)) [
      | inl d ↦
          let short : length buf < 65536 = ground arith in
          rw d (((low_type, high_type, small, short, pad), tt), append-nil buf)
      | inr d ↦
          let short : length (take k buf) < 65536 =
            omega (arith, length-take k buf (omega arith)) in
          let left : length (drop k buf) < 65536 = ground (arith, length-drop k buf) in
          rw d (
            (
              (low_type, high_type, small, short, omega arith),
              ((low_type, high_type, small, left, pad), tt),
            ),
            rw (append-nil (drop k buf)) (take-append-drop k buf),
          )
    ]

-- `input_stream`, on 1 to 131069 bytes of data: the buffer then holds records of the protocol behind what it held, in an
-- array as large as it was, or as `realloc` has made it; or it is as it was, and then the array has no room for the
-- records, and `realloc` has failed for a size that has. The contents of the records, one behind the other, are the
-- data. The sum of the sizes must be below 2 ^ 64.
pub input_stream-IsAppended :
    (realloc : ℕ → Bool) (type id : ℕ) (buf : Bytes) (out : Buffer)
    → 0 < type
    → type ≤ 11
    → id < 65536
    → 0 < length buf
    → length buf < 131070
    → IsSound out
    → out.used + length buf + 24 + out.increment < size_mod
    → IsAppended realloc out
        (records_onto (records_of type id buf) [])
        (input_stream realloc type id buf out)
      × All IsRecord (records_of type id buf)
      × (contents_of (records_of type id buf) ≡ buf)
unfolding input_stream
input_stream-IsAppended realloc type id buf out low_type high_type small pos lt v room =
    let bytes = records_onto (records_of type id buf) [] in
    let len : length bytes ≡ record_count (length buf) * 8 + length buf + padding_for (length buf) =
      length-records_of type id buf pos lt in
    let two : record_count (length buf) ≤ 2 = ground arith in
    let pad : padding_for (length buf) ≤ 7 = ground arith in
    let (records, contents) = records_of-IsRecord type id buf low_type high_type small pos lt in
    (
      rw (stream_bytes-records_onto type id buf pos lt) (
          write_in-IsAppended realloc out bytes _ (omega (arith, len, two, pad))
            (rw len (allocate-IsAllocated realloc out _ v (omega (arith, two, pad))))),
      records,
      contents,
    )
