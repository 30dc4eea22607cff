-- ===== src/Fastcgi/Examples.antt =====
-- The records of FastCGI on concrete bytes, and the theorems at some of them.
use gweb_plusplus.Base.{
  ℕ, ◌+◌, ◌*◌, ◌<◌, Bool, true, false, [], ◌∷◌, ◌++◌, map, Option, none, some, Bytes, length, All,
  arith, ◌≡◌, refl,
}
use gweb_plusplus.Buffer.{Buffer, allocate}
use gweb_plusplus.Buffer.Appends.{IsSound, IsAppended, contents}
use gweb_plusplus.Fastcgi.{
  begin_request, abort_request, Callbacks, decode, waits, discards, fails, process,
}
use gweb_plusplus.Fastcgi.Decode.{Pair, pairs_bytes, call_pairs, decode-pairs_bytes}
use gweb_plusplus.Fastcgi.Split.{outcome, process-append}
use gweb_plusplus.Fastcgi.Records.{
  Record, IsRecord, record_onto, records_onto, dispatch_all, process-records_onto,
}
use gweb_plusplus.Fastcgi.Pairs.{NameValuePairs, Argument, record_of, params_end}
use gweb_plusplus.Fastcgi.Pairs.Begun.{pair_of}
use gweb_plusplus.Fastcgi.Pairs.Whole.{record_of-IsWritten}
use gweb_plusplus.Fastcgi.Pairs.Moved.{record_of_moved}
use gweb_plusplus.Fastcgi.Stream.{
  zeros, stream_bytes, input_stream, record_count, padding_for, stream_record, file_records,
}
use gweb_plusplus.Fastcgi.Stream.Whole.{
  records_of, contents_of, length-zeros, input_stream-IsAppended,
}
use gweb_plusplus.Fastcgi.Stream.Lost.{length-stream_bytes_short, input_stream_overruns}

-- Callbacks that keep what they get; standard error makes them fail.
abbrev keep : Callbacks Bytes
keep = record {
  get_values_result = λ s name value. (s ++ (name ++ (b'=' ∷ value)), true);
  stdout_stream = λ s id content. (s ++ content, true);
  stderr_stream = λ s id content. (s ++ content, false);
  end_request = λ s id app status. (s ++ (app ∷ status ∷ []), true);
}

abbrev enough_memory : ℕ → Bool
enough_memory n = true

-- `HI`, that stands for nothing.
abbrev first_pair : Pair
first_pair = record { name = b'H' ∷ b'I' ∷ []; value = [] }

abbrev second_pair : Pair
second_pair = record { name = b'N' ∷ []; value = b'1' ∷ b'2' ∷ [] }

pairs_run :
    decode keep [] (0 ∷ 1 ∷ b'x' ∷ 1 ∷ 2 ∷ b'N' ∷ b'1' ∷ b'2' ∷ [])
    ≡ (b'=' ∷ b'x' ∷ b'N' ∷ b'=' ∷ b'1' ∷ b'2' ∷ [], true)
unfolding decode
pairs_run = refl

decode-pairs_bytes_example :
    decode keep [] (pairs_bytes (first_pair ∷ second_pair ∷ []))
    ≡ call_pairs keep (first_pair ∷ second_pair ∷ []) []
decode-pairs_bytes_example =
    decode-pairs_bytes keep [] first_pair (second_pair ∷ [])
      ((omega arith, omega arith), ((omega arith, omega arith), tt))

-- Standard output, and the end of the request with status 7.
abbrev output : Record
output = record { type = 6; id = 1; content = b'o' ∷ b'k' ∷ []; padding = zeros 6 }

abbrev ending : Record
ending = record { type = 3; id = 1; content = 0 ∷ 0 ∷ 0 ∷ 7 ∷ 0 ∷ 0 ∷ 0 ∷ 0 ∷ []; padding = [] }

whole_run :
    process keep [] (1 ∷ 6 ∷ 0 ∷ 1 ∷ 0 ∷ 2 ∷ 1 ∷ 0 ∷ b'o' ∷ b'k' ∷ 0 ∷ 1 ∷ 3 ∷ [])
    ≡ some (b'o' ∷ b'k' ∷ [], 1 ∷ 3 ∷ [], waits)
unfolding process
whole_run = refl

invalid_run : process keep [] (2 ∷ 6 ∷ 0 ∷ 1 ∷ 0 ∷ 2 ∷ 1 ∷ 0 ∷ b'o' ∷ []) ≡ some ([], [], discards)
unfolding process
invalid_run = refl

-- Where a callback fails the buffer still holds the records that were taken.
fails_run :
    process keep [] (1 ∷ 7 ∷ 0 ∷ 1 ∷ 0 ∷ 1 ∷ 0 ∷ 0 ∷ b'e' ∷ [])
    ≡ some (b'e' ∷ [], 1 ∷ 7 ∷ 0 ∷ 1 ∷ 0 ∷ 1 ∷ 0 ∷ 0 ∷ b'e' ∷ [], fails)
unfolding process
fails_run = refl

process-records_onto_example :
    outcome keep (process keep [] (records_onto (output ∷ ending ∷ []) (1 ∷ 3 ∷ [])))
    ≡ dispatch_all keep (output ∷ ending ∷ []) (λ t. outcome keep (process keep t (1 ∷ 3 ∷ []))) []
process-records_onto_example = process-records_onto keep (output ∷ ending ∷ []) [] (1 ∷ 3 ∷ []) (
  (omega arith, omega arith, omega arith, omega arith, omega arith),
  ((omega arith, omega arith, omega arith, omega arith, omega arith), tt),
)

-- A record, and the first byte of the next; then the rest of the header.
process-append_example :
    outcome keep (process keep [] ((1 ∷ 6 ∷ 0 ∷ 1 ∷ 0 ∷ 1 ∷ 0 ∷ 0 ∷ b'o' ∷ 1 ∷ []) ++ (6 ∷ 0 ∷ [])))
    ≡ outcome keep (process keep (b'o' ∷ []) ((1 ∷ []) ++ (6 ∷ 0 ∷ [])))
unfolding process
process-append_example =
    process-append keep [] (b'o' ∷ []) (1 ∷ 6 ∷ 0 ∷ 1 ∷ 0 ∷ 1 ∷ 0 ∷ 0 ∷ b'o' ∷ 1 ∷ []) (6 ∷ 0 ∷ [])
      (1 ∷ []) refl

abbrev of_sixteen : Buffer
of_sixteen = record { data' = []; size = 0; used = 0; increment = 16 }

of_sixteen-IsSound : IsSound of_sixteen
of_sixteen-IsSound = record { written = omega arith; fits = omega arith; grows = omega arith }

input_stream-IsAppended_example :
    IsAppended enough_memory of_sixteen
      (records_onto (records_of 5 1 (b'o' ∷ b'k' ∷ [])) [])
      (input_stream enough_memory 5 1 (b'o' ∷ b'k' ∷ []) of_sixteen)
    × All IsRecord (records_of 5 1 (b'o' ∷ b'k' ∷ []))
    × (contents_of (records_of 5 1 (b'o' ∷ b'k' ∷ [])) ≡ b'o' ∷ b'k' ∷ [])
input_stream-IsAppended_example =
    input_stream-IsAppended enough_memory 5 1 (b'o' ∷ b'k' ∷ []) of_sixteen (omega arith)
      (omega arith) (omega arith) (omega arith) (omega arith) of_sixteen-IsSound (omega arith)

length-stream_bytes_short_example :
    length (stream_bytes 5 1 (zeros 131070))
    < record_count (length (zeros 131070)) * 8
      + length (zeros 131070)
      + padding_for (length (zeros 131070))
length-stream_bytes_short_example =
    length-stream_bytes_short 5 1 (zeros 131070) (omega (arith, length-zeros 131070))

-- A full array.
abbrev full : Buffer
full = record { data' = zeros 16; size = 16; used = 16; increment = 16 }

input_stream_overruns_example :
    let r = input_stream enough_memory 5 1 [] full in
    (r.1 ≡ true) × (r.0.size ≡ full.size) × (full.size < r.0.used) × (full.size < length r.0.data')
input_stream_overruns_example =
    input_stream_overruns enough_memory 5 1 full
      (record { written = omega arith; fits = omega arith; grows = omega arith }) (omega arith)
      (omega arith)

-- The header `x-a: 1`.
abbrev x_header : Argument
x_header = record {
  name = b'x' ∷ b'-' ∷ b'a' ∷ [];
  value = b'1' ∷ [];
  prepend_http = true;
  to_uppercase = true;
}

abbrev of_forty : NameValuePairs
of_forty = record {
  out = record { data' = []; size = 40; used = 0; increment = 16 };
  header = none;
  content_length = 0;
}

abbrev stays : ℕ → Bool
stays n = false

abbrev bytes_of : Option (NameValuePairs × Bool) → Bytes
bytes_of none = []
bytes_of (some (s, b)) = contents s.out

-- `HTTP_X_A` stands for `1`; the 11 bytes are padded to 16.
record_of_run :
    bytes_of (record_of enough_memory stays 4 1 (x_header ∷ []) of_forty)
    ≡ 1 ∷ 4 ∷ 0 ∷ 1 ∷ 0 ∷ 11 ∷ 5 ∷ 0 ∷ 8 ∷ 1 ∷ b'H' ∷ b'T' ∷ b'T' ∷ b'P' ∷ b'_' ∷ b'X' ∷ b'_' ∷ b'A'
      ∷ b'1' ∷ 0 ∷ 0 ∷ 0 ∷ 0 ∷ 0 ∷ []
unfolding record_of
record_of_run = refl

record_of-IsWritten_example :
    (t : NameValuePairs) × (record_of enough_memory stays 4 1 (x_header ∷ []) of_forty
      ≡ some (t, true))
    × IsSound t.out
    × (contents t.out
        ≡ contents of_forty.out
          ++ record_onto
              (record {
                type = 4;
                id = 1;
                content = pairs_bytes (map pair_of (x_header ∷ []));
                padding = zeros (padding_for (length (pairs_bytes (map pair_of (x_header ∷ [])))));
              })
              [])
unfolding pairs_bytes
record_of-IsWritten_example =
    record_of-IsWritten enough_memory stays 4 1 (x_header ∷ []) of_forty
      ((omega arith, omega arith), tt)
      (record { written = omega arith; fits = omega arith; grows = omega arith }) (omega arith)
      (omega arith) (omega arith)

-- A header alone, in an array of 16 bytes.
abbrev begun : NameValuePairs
begun = record {
  out = record { data' = 1 ∷ 4 ∷ 0 ∷ 1 ∷ 0 ∷ 0 ∷ 0 ∷ 0 ∷ []; size = 16; used = 8; increment = 16 };
  header = some 0;
  content_length = 0;
}

-- The array that the header makes `realloc` allocate has 16 bytes.
abbrev unallocated : NameValuePairs
unallocated = record { out = of_sixteen; header = none; content_length = 0 }

record_of_moved_example :
    record_of enough_memory enough_memory 4 1 (x_header ∷ []) unallocated ≡ none
unfolding pairs_bytes allocate
record_of_moved_example =
    record_of_moved enough_memory enough_memory (λ n. refl) (λ n. refl) 4 1 (x_header ∷ [])
      unallocated ((omega arith, omega arith), tt) of_sixteen-IsSound (omega arith) (omega arith)
      (omega arith)

begin_run :
    contents (begin_request enough_memory 1 1 true of_sixteen).0
    ≡ 1 ∷ 1 ∷ 0 ∷ 1 ∷ 0 ∷ 8 ∷ 0 ∷ 0 ∷ 0 ∷ 1 ∷ 1 ∷ 0 ∷ 0 ∷ 0 ∷ 0 ∷ 0 ∷ []
unfolding begin_request allocate
begin_run = refl

abort_run :
    contents (abort_request enough_memory 258 of_sixteen).0 ≡ 1 ∷ 2 ∷ 1 ∷ 2 ∷ 0 ∷ 0 ∷ 0 ∷ 0 ∷ []
unfolding abort_request allocate
abort_run = refl

-- Behind the record of the parameters comes an empty one.
params_run :
    bytes_of (params_end enough_memory stays 1 begun)
    ≡ 1 ∷ 4 ∷ 0 ∷ 1 ∷ 0 ∷ 0 ∷ 0 ∷ 0 ∷ 1 ∷ 4 ∷ 0 ∷ 1 ∷ 0 ∷ 0 ∷ 0 ∷ 0 ∷ []
unfolding params_end
params_run = refl

-- On a file that takes every write.
abbrev taken : Bytes → Bytes → Bytes × Bool
taken file bytes = (file ++ bytes, true)

file_run :
    file_records taken 5 1 6 0 ([], 0) (b'o' ∷ b'k' ∷ [])
    ≡ (stream_record 5 1 2 6 (b'o' ∷ b'k' ∷ []), 16, true)
unfolding file_records
file_run = refl
