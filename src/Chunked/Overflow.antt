-- ===== src/Chunked/Overflow.antt =====
-- http/chunked_parser.cpp: sizes that `size_t` does not hold.
use gweb_plusplus.Base.{
  ℕ, suc, ◌+◌, ◌*◌, ◌^◌, ◌%◌, [], ◌∷◌, ◌++◌, ◌≡◌, ◌≢◌, refl, sym, ap, ◌∙◌, some, arith, Bytes,
  size_mod, length, All, more, here, after, Runs-trans, loop_returns,
}
use gweb_plusplus.Chunked.{
  State, chunk_size, cr_after_chunk_size, reading_chunk_size, trailer, cr_after_trailer, reset,
  end_of_response, hex_digit, round_in, round, parse_chunk,
}
use gweb_plusplus.Chunked.Run.{rounds_left, round_falls}
use gweb_plusplus.Chunked.Coding.{value_of, digit_value, hex_value, IsHexDigit, collect}
use gweb_plusplus.Chunked.Pieces.{cursor, Goes, arrives, pow_split, Goes-at}
use gweb_plusplus.Chunked.RoundTrip.{ended, last_round}

wrap_step : (n d : ℕ) → ((n % size_mod) * 16 + d) % size_mod ≡ (n * 16 + d) % size_mod
wrap_step n d = omega arith

read_digit_wrapped :
    (c d n at : ℕ) (cs s : Bytes)
    → hex_digit c ≡ some d
    → round collect (cursor reading_chunk_size (n % size_mod) s at (c ∷ cs))
      ≡ more (cursor reading_chunk_size ((n * 16 + d) % size_mod) s (at + 1) cs)
unfolding round_in
read_digit_wrapped c d n at cs s e = ground (arith, wrap_step n d)

cursor_eq :
    {st : State} {n n' : ℕ} {s s' : Bytes} {at at' : ℕ} {xs : Bytes}
    → n ≡ n'
    → s ≡ s'
    → at ≡ at'
    → cursor st n s at xs ≡ cursor st n' s' at' xs
cursor_eq p q r = cc

digits_wrapped :
    (ds rest s : Bytes) (n at : ℕ)
    → All IsHexDigit ds
    → Goes (cursor reading_chunk_size (n % size_mod) s at (ds ++ rest)) (
        cursor reading_chunk_size
          ((n * 16 ^ length ds + hex_value ds) % size_mod)
          s
          (at + length ds)
          rest)
digits_wrapped [] rest s n at h = arrives (cursor_eq (omega arith) refl (omega arith)) here
digits_wrapped (c ∷ cs) rest s n at ((d, e), h) =
    let v : digit_value c ≡ d = ap value_of e in
    let total : (n * 16 + d) * 16 ^ length cs + hex_value cs
        ≡ n * 16 ^ suc (length cs) + hex_value (c ∷ cs) =
      pow_split n d (hex_value cs) (length cs)
      ∙ ap (λ m. n * 16 ^ suc (length cs) + (m * 16 ^ length cs + hex_value cs)) (sym v) in
    arrives (cursor_eq (ap (λ m. m % size_mod) total) refl (omega arith)) (
      Runs-trans (round collect) (after here (read_digit_wrapped c d n at (cs ++ rest) s e))
        (digits_wrapped cs rest s (n * 16 + d) (at + 1) h))

-- A size line from the state before the first chunk, and an empty trailer.
abbrev pub bare_ending : Bytes → Bytes → Bytes
bare_ending ds rest = ds ++ (13 ∷ 10 ∷ 13 ∷ 10 ∷ rest)

-- One digit is below 16.
first_digit_lem :
    (c d : ℕ) (cs s : Bytes)
    → hex_digit c ≡ some d
    → round collect (cursor chunk_size 0 s 0 (c ∷ cs))
      ≡ more (cursor reading_chunk_size (d % size_mod) s 1 cs)
unfolding round_in hex_digit
first_digit_lem c d cs s e = ground arith

crlf_run :
    (rest s : Bytes) (a : ℕ)
    → Goes
        (cursor reading_chunk_size 0 s a (13 ∷ 10 ∷ 13 ∷ 10 ∷ rest))
        (cursor cr_after_trailer 0 s (a + 1 + 1 + 1) (10 ∷ rest))
unfolding round_in hex_digit
crlf_run rest s a =
    after {t = cursor trailer 0 s (a + 1 + 1) (13 ∷ 10 ∷ rest)}
      (after {t = cursor cr_after_chunk_size 0 s (a + 1) (10 ∷ 13 ∷ 10 ∷ rest)}
        (after here (ground arith)) (ground arith))
      (ground arith)

bare_run :
    (ds rest s : Bytes)
    → All IsHexDigit ds
    → ds ≢ []
    → hex_value ds % size_mod ≡ 0
    → (a : ℕ) × Goes
        (cursor chunk_size 0 s 0 (bare_ending ds rest))
        (cursor cr_after_trailer 0 s a (10 ∷ rest))
unfolding round_in
bare_run [] rest s h ne z = absurd (ne refl)
bare_run (c ∷ cs) rest s ((d, e), h) ne z =
    let lines = 13 ∷ 10 ∷ 13 ∷ 10 ∷ rest in
    let a = 0 + 1 + length cs in
    let v : (d * 16 ^ length cs + hex_value cs) % size_mod ≡ 0 =
      ap (λ k. (k * 16 ^ length cs + hex_value cs) % size_mod) (sym (ap value_of e)) ∙ z in
    let first : Goes (cursor chunk_size 0 s 0 (c ∷ (cs ++ lines)))
        (cursor reading_chunk_size (d % size_mod) s 1 (cs ++ lines)) =
      after here (first_digit_lem c d (cs ++ lines) s e) in
    (
      a + 1 + 1 + 1,
      Runs-trans (round collect) first (
          Runs-trans (round collect)
            (arrives (cursor_eq v refl refl) (digits_wrapped cs lines s d 1 h))
            (crlf_run rest s (1 + length cs))),
    )

-- The size of a chunk counts modulo 2 ^ 64: a size line whose number is a multiple of 2 ^ 64, however
-- large, is taken for the last chunk, and `parse_chunk` reports the end of the response
-- behind it, with no data, where the size announces data that cannot have come.
pub parse_chunk_wraps :
    (ds rest s : Bytes)
    → All IsHexDigit ds
    → ds ≢ []
    → hex_value ds % size_mod ≡ 0
    → (size : ℕ) × (parse_chunk collect reset s (bare_ending ds rest)
        ≡ some (end_of_response size ended s))
      × (size + length rest ≡ length (bare_ending ds rest))
unfolding parse_chunk
parse_chunk_wraps ds rest s h ne z =
    let (a, run) = bare_run ds rest s h ne z in
    (
      a + 1,
      loop_returns (round collect) rounds_left (round_falls collect)
          (2 * length (bare_ending ds rest) + 2) (ground arith) run (last_round rest s a),
      omega (arith, Goes-at run),
    )
