-- ===== src/Chunked/Pieces.antt =====
-- The rounds of `parse_chunk` over the pieces of a size line.
use native.Mathlib.Nat.{pow-suc, one-le-pow, le-mul_of_pos_right}
use gweb_plusplus.Base.{
  ℕ, suc, ◌+◌, ◌*◌, ◌^◌, ◌<◌, ◌≤◌, [], ◌∷◌, ◌++◌, ◌≡◌, refl, ◌∙◌, sym, ap, subst, ◌∙◌, some, arith,
  Bytes, size_mod, length, All, more, Runs, here, after, Runs-trans,
}
use gweb_plusplus.Chunked.{
  State, reading_chunk_size, after_chunk_size, cr_after_chunk_size, entity_header, Cursor,
  hex_digit, round_in, round,
}
use gweb_plusplus.Chunked.Rounds.{round-at}
use gweb_plusplus.Chunked.Coding.{
  value_of, digit_value, hex_value, IsHexDigit, IsText, IsExtension, collect,
}

abbrev pub cursor : State → ℕ → Bytes → ℕ → Bytes → Cursor Bytes
cursor st n s at xs = record {
  parser = record { state = st; size = n };
  sink = s;
  at = at;
  rest = xs;
}

-- One round on one byte.
abbrev pub Goes : Cursor Bytes → Cursor Bytes → Type 0
Goes = Runs (round collect)

pub pow_split : (n d v k : ℕ) → (n * 16 + d) * 16 ^ k + v ≡ n * 16 ^ suc k + (d * 16 ^ k + v)
pow_split n d v k = rw (pow-suc 16 k) (omega arith)

le_pow : (m v k : ℕ) → m ≤ m * 16 ^ k + v
le_pow m v k = omega (arith, le-mul_of_pos_right {m = 16 ^ k} m (one-le-pow k 16 (omega arith)))

pub read_digit :
    (c d n at : ℕ) (cs s : Bytes)
    → hex_digit c ≡ some d
    → n * 16 + d < size_mod
    → round collect (cursor reading_chunk_size n s at (c ∷ cs))
      ≡ more (cursor reading_chunk_size (n * 16 + d) s (at + 1) cs)
unfolding round_in
read_digit c d n at cs s e lt = ground (arith)

-- The bytes taken and the bytes left are together always the same.
pub Goes-at : {k t : Cursor Bytes} → Goes k t → t.at + length t.rest ≡ k.at + length k.rest
Goes-at here = refl
Goes-at (after {t} {u} r e) = round-at collect t u e ∙ Goes-at r

pub arrives : {k t u : Cursor Bytes} → t ≡ u → Goes k t → Goes k u
arrives {k} e r = subst (Goes k) e r

-- A run up to a cursor that is written another way.
pub lands :
    {k : Cursor Bytes} (st : State) (n n' : ℕ) (s : Bytes) (at at' : ℕ) (xs : Bytes)
    → n ≡ n'
    → at ≡ at'
    → Goes k (cursor st n s at xs)
    → Goes k (cursor st n' s at' xs)
lands {k} st n n' s at at' xs e d r =
    subst (λ a. Goes k (cursor st n' s a xs)) d (subst (λ m. Goes k (cursor st m s at xs)) e r)

pub digits_run :
    (ds rest s : Bytes) (n at : ℕ)
    → All IsHexDigit ds
    → n * 16 ^ length ds + hex_value ds < size_mod
    → Goes
        (cursor reading_chunk_size n s at (ds ++ rest))
        (cursor reading_chunk_size (n * 16 ^ length ds + hex_value ds) s (at + length ds) rest)
digits_run [] rest s n at h lt =
    lands reading_chunk_size n _ s at _ rest (omega arith) (omega arith) here
digits_run (c ∷ cs) rest s n at ((d, e), h) lt =
    let v : digit_value c ≡ d = ap value_of e in
    let total : (n * 16 + d) * 16 ^ length cs + hex_value cs
        ≡ n * 16 ^ suc (length cs) + hex_value (c ∷ cs) =
      pow_split n d (hex_value cs) (length cs)
      ∙ ap (λ m. n * 16 ^ suc (length cs) + (m * 16 ^ length cs + hex_value cs)) (sym v) in
    lands reading_chunk_size _ _ s _ _ rest total (omega arith) (
      Runs-trans (round collect)
        (after here (
          read_digit c d n at (cs ++ rest) s e
            (omega (arith, le_pow (n * 16 + d) (hex_value cs) (length cs)))))
        (digits_run cs rest s (n * 16 + d) (at + 1) h (omega arith)))

-- Text that a state skips, up to the carriage return.
pub data Skips : State → Type 0 where
  size_text : Skips after_chunk_size
  line_text : Skips entity_header

pub text_run :
    {st : State} (cs rest s : Bytes) (n at : ℕ)
    → Skips st
    → All IsText cs
    → Goes (cursor st n s at (cs ++ rest)) (cursor st n s (at + length cs) rest)
unfolding round_in
text_run {st} [] rest s n at k h = lands st n n s at _ rest refl (omega arith) here
text_run (c ∷ cs) rest s n at size_text (h, hs) =
    lands after_chunk_size n n s _ _ rest refl (omega arith) (
      Runs-trans (round collect) (after here (ground arith))
        (text_run cs rest s n (at + 1) size_text hs))
text_run (c ∷ cs) rest s n at line_text (h, hs) =
    lands entity_header n n s _ _ rest refl (omega arith) (
      Runs-trans (round collect) (after here (ground arith))
        (text_run cs rest s n (at + 1) line_text hs))

-- The rest of the size line, up to its line feed.
pub extension_run :
    (xs rest s : Bytes) (n at : ℕ)
    → IsExtension xs
    → Goes
        (cursor reading_chunk_size n s at (xs ++ (13 ∷ rest)))
        (cursor cr_after_chunk_size n s (at + length xs + 1) rest)
unfolding round_in hex_digit
extension_run [] rest s n at h =
    lands cr_after_chunk_size n n s (at + 1) _ rest refl (omega arith) (after here (ground arith))
extension_run (c ∷ cs) rest s n at (h, hs) =
    lands cr_after_chunk_size n n s (at + 1 + length cs + 1) _ rest refl (omega arith) (
      after
        (Runs-trans (round collect) (after here (ground arith))
          (text_run cs (13 ∷ rest) s n (at + 1) size_text hs))
        (ground arith))
