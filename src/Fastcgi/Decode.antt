-- ===== src/Fastcgi/Decode.antt =====
-- http/fastcgi.cpp: what `decode_name_value_pairs` makes of pairs in their encoding.
use gweb_plusplus.Base.{
  ℕ, zero, suc, ◌+◌, ◌*◌, ◌/◌, ◌%◌, ◌<◌, Bool, true, false, List, [], ◌∷◌, ◌++◌, Option, some, ltb,
  leb, ◌==◌, Bytes, length, take, drop, length-append, append_assoc, take-append, take-length,
  drop-append, drop-length, All, Round, more, stop, loop, Bool-cases, inl, inr, arith, ◌≡◌, refl,
  ap, sym, ◌∙◌, subst,
}
use gweb_plusplus.Fastcgi.{
  read_length, read_lengths, with_name, Callbacks, after_pair, decode_pair, decode_round, decode,
  returned, length_bytes,
}

read_length-length_bytes :
    (n : ℕ) (rest : Bytes) → n < 65536 → read_length (length_bytes n ++ rest) ≡ some (n, rest)
unfolding read_length
read_length-length_bytes n rest lt = elim (Bool-cases (leb n 127)) [
  | inl d ↦ rw d (let e : leb 128 n ≡ false = ground arith in rw e refl)
  | inr d ↦ rw d (
      let e : leb 128 (128 + n / 16777216) ≡ true = ground arith in
      let f : (128 + n / 16777216) % 128 * 16777216
            + n / 65536 % 256 * 65536
            + n / 256 % 256 * 256
            + n % 256
          ≡ n =
        omega arith in
      let g : ltb 65535 n ≡ false = ground arith in rw e (rw f (rw g refl)))
]

pub record Pair : Type 0 where
  pub name : Bytes
  pub value : Bytes

-- Both lengths fit 16 bits.
abbrev IsPair : Pair → Type 0
IsPair p = (length p.name < 65536) × (length p.value < 65536)

abbrev pair_onto : Pair → Bytes → Bytes
pair_onto p rest =
    length_bytes (length p.name) ++ (length_bytes (length p.value) ++ (p.name ++ (p.value ++ rest)))

unfoldable pub pairs_bytes : List Pair → Bytes
pairs_bytes [] = []
pairs_bytes (p ∷ ps) = pair_onto p (pairs_bytes ps)

pub drop-two : (a b c : Bytes) → drop (length a + length b) (a ++ (b ++ c)) ≡ c
drop-two a b c =
    ap (drop (length a + length b)) (sym (append_assoc a b c))
    ∙ ap (λ n. drop n ((a ++ b) ++ c)) (sym (length-append a b))
    ∙ drop-append (length (a ++ b)) (a ++ b) c (omega arith)
    ∙ ap (λ x. x ++ c) (drop-length (a ++ b))

pub take-first : (a b : Bytes) → take (length a) (a ++ b) ≡ a
take-first a b = take-append (length a) a b (omega arith) ∙ take-length a

drop-first : (a b : Bytes) → drop (length a) (a ++ b) ≡ b
drop-first a b = drop-append (length a) a b (omega arith) ∙ ap (λ x. x ++ b) (drop-length a)

length_bytes-more : (n : ℕ) (rest : Bytes) → length rest < length (length_bytes n ++ rest)
length_bytes-more n rest = elim (Bool-cases (leb n 127)) [
  | inl d ↦ rw d (omega arith)
  | inr d ↦ rw d (omega arith)
]

pair_onto-longer : (p : Pair) (rest : Bytes) → length rest < length (pair_onto p rest)
pair_onto-longer p rest =
    let tail = p.name ++ (p.value ++ rest) in
    omega (
      arith,
      length_bytes-more (length p.name) (length_bytes (length p.value) ++ tail),
      length_bytes-more (length p.value) tail,
      length-append p.name (p.value ++ rest),
      length-append p.value rest,
    )

module _ {S : Type 0} (c : Callbacks S) where
  abbrev while_ok : (S → S × Bool) → S × Bool → S × Bool
  while_ok next (s, true) = next s
  while_ok next (s, false) = (s, false)

  -- The calls of `get_values_result`, up to the first that fails.
  unfoldable pub call_pairs : List Pair → S → S × Bool
  call_pairs [] s = (s, true)
  call_pairs (p ∷ ps) s = while_ok (call_pairs ps) (c.get_values_result s p.name p.value)

  round-pair :
      (s : S) (p : Pair) (rest : Bytes)
      → IsPair p
      → decode_round c (s, pair_onto p rest)
        ≡ after_pair c rest (c.get_values_result s p.name p.value)
  unfolding decode_round decode_pair
  round-pair s p rest v =
      let short : ltb (length (p.name ++ (p.value ++ rest))) (length p.name + length p.value)
          ≡ false =
        ground (arith, length-append p.name (p.value ++ rest), length-append p.value rest) in
      ap (λ o. decode_pair c s (read_lengths o))
        (read_length-length_bytes (length p.name)
          (length_bytes (length p.value) ++ (p.name ++ (p.value ++ rest))) v.0)
      ∙ ap (λ o. decode_pair c s (with_name (length p.name) o))
          (read_length-length_bytes (length p.value) (p.name ++ (p.value ++ rest)) v.1)
      ∙ rw short (
          rw (drop-two p.name p.value rest) (
            rw (take-first p.name (p.value ++ rest))
              (rw (drop-first p.name (p.value ++ rest)) (rw (take-first p.value rest) refl))))

  abbrev go : ℕ → Round (S × Bytes) (S × Bool) → Option (S × Bool)
  go n (more k) = loop (decode_round c) n k
  go n (stop r) = some r

  after-pairs :
      (n : ℕ) (ps : List Pair) (r : S × Bool)
      → ((t : S) (q : Pair) (qs : List Pair)
          → ps ≡ q ∷ qs
          → loop (decode_round c) n (t, pairs_bytes (q ∷ qs)) ≡ some (call_pairs (q ∷ qs) t))
      → go n (after_pair c (pairs_bytes ps) r) ≡ some (while_ok (call_pairs ps) r)
  unfolding after_pair pairs_bytes call_pairs
  after-pairs n ps (t, false) ih = refl
  after-pairs n [] (t, true) ih = refl
  after-pairs n (q ∷ qs) (t, true) ih =
      let some_left : (length (pair_onto q (pairs_bytes qs)) == 0) ≡ false = ground (
        arith,
        length_bytes-more (length q.name)
            (length_bytes (length q.value) ++ (q.name ++ (q.value ++ pairs_bytes qs))),
      ) in
      rw some_left (ih t q qs refl)

  loop-pairs :
      (n : ℕ) (s : S) (p : Pair) (ps : List Pair)
      → All IsPair (p ∷ ps)
      → length (pairs_bytes (p ∷ ps)) < n
      → loop (decode_round c) n (s, pairs_bytes (p ∷ ps)) ≡ some (call_pairs (p ∷ ps) s)
  unfolding loop pairs_bytes call_pairs
  loop-pairs zero s p ps v lt = absurd (omega arith)
  loop-pairs (suc n) s p ps v lt =
      same (decode_round c (s, pair_onto p (pairs_bytes ps)))
      ∙ ap (go n) (round-pair s p (pairs_bytes ps) v.0)
      ∙ after-pairs n ps (c.get_values_result s p.name p.value) (λ t q qs e.
        loop-pairs n t q qs (tails ps q qs e v.1) (
          omega (
            arith,
            ap (λ (x : List Pair). length (pairs_bytes x)) e,
            lt,
            pair_onto-longer p (pairs_bytes ps),
          )))
    where
      same :
          (r : Round (S × Bytes) (S × Bool))
          → elim r as (λ _. Option (S × Bool)) [
            | more k ↦ loop (decode_round c) n k
            | stop a ↦ some a
          ]
            ≡ go n r
      same (more k) = refl
      same (stop a) = refl

      tails :
          (xs : List Pair) (q : Pair) (qs : List Pair)
          → xs ≡ q ∷ qs
          → All IsPair xs
          → All IsPair (q ∷ qs)
      tails xs q qs e a = subst (All IsPair) e a

  -- `decode_name_value_pairs`, on a pair or more in their encoding, each name and value below 2 ^ 16
  -- bytes, calls `get_values_result` with the pairs in order, up to the first call that fails, and returns what
  -- the last call has returned.
  pub decode-pairs_bytes :
      (s : S) (p : Pair) (ps : List Pair)
      → All IsPair (p ∷ ps)
      → decode c s (pairs_bytes (p ∷ ps)) ≡ call_pairs (p ∷ ps) s
  unfolding decode
  decode-pairs_bytes s p ps v =
      ap (returned c s) (loop-pairs (suc (length (pairs_bytes (p ∷ ps)))) s p ps v (omega arith))
