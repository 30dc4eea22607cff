-- ===== src/Chunked/Examples.antt =====
-- The theorems on the chunked coding at concrete bodies.
use gweb_plusplus.Base.{
  ℕ, ◌+◌, [], ◌∷◌, ◌++◌, ◌≡◌, refl, arith, Bytes, length, some, append_assoc, sym, ap, true,
  map_result,
}
use gweb_plusplus.Chunked.{reset, Outcome, parse_chunk, end_of_response, hex_digit}
use gweb_plusplus.Chunked.Run.{parse_chunk_total}
use gweb_plusplus.Chunked.Rounds.{seen}
use gweb_plusplus.Chunked.Split.{and_then, parse_chunk-append}
use gweb_plusplus.Chunked.Coding.{
  Chunk, Ending, IsChunk, IsEnding, IsHexDigit, collect, contents, encode_chunks, encode_ending,
}
use gweb_plusplus.Chunked.RoundTrip.{ended, parse_chunk-encode}
use gweb_plusplus.Chunked.Overflow.{parse_chunk_wraps, bare_ending}

-- `1;x`, a line end, and the byte `a`.
abbrev one_chunk : Chunk
one_chunk = record { digits = b'1' ∷ []; extension = b';' ∷ b'x' ∷ []; content = b'a' ∷ [] }

-- `0`, and a trailer of one line.
abbrev last_chunk : Ending
last_chunk = record { zeros = b'0' ∷ []; note = []; lines = (b'x' ∷ b':' ∷ b'y' ∷ []) ∷ [] }

abbrev wire : Bytes
wire = encode_chunks (one_chunk ∷ []) (encode_ending last_chunk (b'G' ∷ []))

wire_run : parse_chunk collect reset [] wire ≡ some (end_of_response 18 ended (b'a' ∷ []))
unfolding parse_chunk hex_digit
wire_run = refl

parse_chunk_total_example :
    (o : Outcome Bytes) × (parse_chunk collect reset [] (b'1' ∷ 13 ∷ []) ≡ some o)
parse_chunk_total_example = parse_chunk_total collect reset [] (b'1' ∷ 13 ∷ [])

parse_chunk-append_example :
    map_result seen
      (parse_chunk collect reset [] ((b'2' ∷ 13 ∷ 10 ∷ b'a' ∷ []) ++ (b'b' ∷ 13 ∷ [])))
    ≡ map_result seen (
        and_then collect
          (b'b' ∷ 13 ∷ [])
          4
          (parse_chunk collect reset [] (b'2' ∷ 13 ∷ 10 ∷ b'a' ∷ [])))
parse_chunk-append_example =
    parse_chunk-append collect reset [] (b'2' ∷ 13 ∷ 10 ∷ b'a' ∷ []) (b'b' ∷ 13 ∷ [])
      (λ s a b. ap (λ d. (d, true)) (sym (append_assoc s a b)))

one_chunk-IsChunk : IsChunk one_chunk
unfolding hex_digit
one_chunk-IsChunk = record {
  numeral = (((1, refl), tt), (λ e. cc), refl, omega arith);
  extended = (refl, (refl, tt));
  not_empty = omega arith;
}

zero_digit : IsHexDigit b'0'
unfolding hex_digit
zero_digit = (0, refl)

last_chunk-IsEnding : IsEnding last_chunk
unfolding hex_digit
last_chunk-IsEnding = record {
  numeral = (((0, refl), tt), (λ e. cc), refl, omega arith);
  extended = tt;
  trailers = (((λ e. cc), (refl, (refl, (refl, tt)))), tt);
}

parse_chunk-encode_example :
    (size : ℕ) × (parse_chunk collect reset [] wire
      ≡ some (end_of_response size ended ([] ++ contents (one_chunk ∷ []))))
    × (size + 1 ≡ length wire)
unfolding hex_digit
parse_chunk-encode_example =
    parse_chunk-encode (one_chunk ∷ []) last_chunk (b'G' ∷ []) [] (one_chunk-IsChunk, tt)
      last_chunk-IsEnding

-- 2 ^ 64, in 17 digits.
abbrev too_large : Bytes
too_large =
    b'1' ∷ b'0' ∷ b'0' ∷ b'0' ∷ b'0' ∷ b'0' ∷ b'0' ∷ b'0' ∷ b'0' ∷ b'0' ∷ b'0' ∷ b'0' ∷ b'0' ∷ b'0'
    ∷ b'0' ∷ b'0' ∷ b'0' ∷ []

parse_chunk_wraps_example :
    (size : ℕ) × (parse_chunk collect reset [] (bare_ending too_large [])
      ≡ some (end_of_response size ended []))
    × (size + 0 ≡ length (bare_ending too_large []))
unfolding hex_digit
parse_chunk_wraps_example =
    parse_chunk_wraps too_large [] []
      (
        (1, refl),
        (
          zero_digit,
          (
            zero_digit,
            (
              zero_digit,
              (
                zero_digit,
                (
                  zero_digit,
                  (
                    zero_digit,
                    (
                      zero_digit,
                      (
                        zero_digit,
                        (
                          zero_digit,
                          (
                            zero_digit,
                            (
                              zero_digit,
                              (
                                zero_digit,
                                (zero_digit, (zero_digit, (zero_digit, (zero_digit, tt)))),
                              ),
                            ),
                          ),
                        ),
                      ),
                    ),
                  ),
                ),
              ),
            ),
          ),
        ),
      )
      (λ e. cc) refl
