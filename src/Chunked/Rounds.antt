-- ===== src/Chunked/Rounds.antt =====
-- One round of the loop of `parse_chunk`, with more bytes behind those that it has.
use gweb_plusplus.Base.{
  ℕ, suc, ◌+◌, ◌-◌, ◌<◌, ◌≤◌, Bool, true, false, [], ◌∷◌, ◌++◌, ◌≡◌, refl, ap, ◌∙◌, arith, Bytes,
  length, length-append, take, take-append, drop-append, take-append_past, drop-append_past,
  length-drop, if◌then◌else◌, Round, more, stop, map_round, Bool-cases, inl, inr, append-nil,
}
use gweb_plusplus.Chunked.{
  State, reading_chunk_size, after_chunk_size, cr_after_chunk_size, chunk_data, Parser, Outcome,
  invalid_chunked_response, callback_failed, not_end_of_response, end_of_response, Cursor, is_data,
  round_in, round,
}

-- The states in which the chunk size is still read before it is set.
abbrev pub is_live : State → Bool
is_live reading_chunk_size = true
is_live after_chunk_size = true
is_live cr_after_chunk_size = true
is_live chunk_data = true
is_live _ = false

-- The parser without a size that is not read again.
abbrev pub normal : Parser → Parser
normal p = if is_live p.state then p else record p { size = 0 }

-- The outcome without such a size; that of a failed callback is not read either.
module _ {S : Type 0} where
  abbrev pub seen : Outcome S → Outcome S
  seen (callback_failed p s) = callback_failed (record p { size = 0 }) s
  seen (invalid_chunked_response p s) = invalid_chunked_response (normal p) s
  seen (not_end_of_response p s) = not_end_of_response (normal p) s
  seen (end_of_response n p s) = end_of_response n (normal p) s

  -- An end of the response counted from `n` bytes further back.
  abbrev pub shift : ℕ → Outcome S → Outcome S
  shift n (end_of_response size p s) = end_of_response (n + size) p s
  shift n o = o

abbrev pub with_rest : {S : Type 0} → Cursor S → Bytes → Cursor S
with_rest k xs = record k { rest = xs }

-- Handing over two pieces at once is handing over the first and, unless that fails, the second.
abbrev pub IsAdditive : {S : Type 0} → (S → Bytes → S × Bool) → Type 0
IsAdditive {S} add =
    (s : S) (a b : Bytes) → add s (a ++ b) ≡ (if (add s a).1 then add (add s a).0 b else add s a)

module _ {S : Type 0} where
  abbrev pub extend : Bytes → Round (Cursor S) (Outcome S) → Round (Cursor S) (Outcome S)
  extend ys (more t) = more (record t { rest = t.rest ++ ys })
  extend ys (stop o) = stop o

  abbrev pub move : ℕ → Cursor S → Cursor S
  move n k = record k { at = n + k.at }

  abbrev pub normal_cursor : Cursor S → Cursor S
  normal_cursor k = record k { parser = normal k.parser }

  -- More bytes of the chunk are due than there are.
  abbrev pub Waits : Cursor S → Bytes → Type 0
  Waits k xs = (is_data k.parser.state ≡ true) × (length xs < k.parser.size)

module _ {S : Type 0} (add : S → Bytes → S × Bool) where
  -- A round that does not wait for more of a chunk does the same with more bytes behind.
  pub round_in-append :
      (k : Cursor S) (c : ℕ) (cs ys : Bytes)
      → (is_data k.parser.state ≡ true → k.parser.size ≤ suc (length cs))
      → round_in add k (c ∷ (cs ++ ys)) ≡ extend ys (round_in add k (c ∷ cs))
  unfolding round_in is_data
  round_in-append k c cs ys h = elim (Bool-cases (is_data k.parser.state)) [
    | inl d ↦ ground (
      arith,
      h d,
      length-append cs ys,
      take-append k.parser.size (c ∷ cs) ys (h d),
      drop-append k.parser.size (c ∷ cs) ys (h d),
    )
    | inr d ↦ ground arith
  ]

  pub round_in-shift :
      (n : ℕ) (k : Cursor S) (xs : Bytes)
      → round_in add (move n k) xs ≡ map_round (move n) (shift n) (round_in add k xs)
  unfolding round_in
  round_in-shift n k [] = refl
  round_in-shift n k (c ∷ cs) = ground arith

  pub round_in-normal :
      (k l : Cursor S) (xs : Bytes)
      → normal_cursor k ≡ normal_cursor l
      → map_round normal_cursor seen (round_in add k xs)
        ≡ map_round normal_cursor seen (round_in add l xs)
  unfolding round_in is_data
  round_in-normal k l [] e = ground arith
  round_in-normal k l (c ∷ cs) e = ground arith

  -- The cursor of the next call, after the first has had `size` bytes of an unfinished chunk.
  abbrev pub resumed : Cursor S → Bytes → Bytes → Cursor S
  resumed k d ys = record {
    parser = record { state = k.parser.state; size = k.parser.size - length d };
    sink = (add k.sink d).0;
    at = k.at + length d;
    rest = ys;
  }

  -- In the middle of a chunk, a round on the bytes of both calls does what the first round of the
  -- next call does.
  pub round_in-resumed :
      (k : Cursor S) (c : ℕ) (cs ys : Bytes)
      → IsAdditive add
      → is_data k.parser.state ≡ true
      → suc (length cs) < k.parser.size
      → (add k.sink (c ∷ cs)).1 ≡ true
      → map_round normal_cursor seen (round_in add k (c ∷ (cs ++ ys)))
        ≡ map_round normal_cursor seen (round_in add (resumed k (c ∷ cs) ys) ys)
  unfolding round_in is_data
  round_in-resumed k c cs [] law d lt ok = ground (arith, append-nil cs)
  round_in-resumed k c cs (y ∷ ys) law d lt ok = ground (
    arith,
    length-append cs (y ∷ ys),
    take-append_past k.parser.size (c ∷ cs) (y ∷ ys) (omega arith),
    drop-append_past k.parser.size (c ∷ cs) (y ∷ ys) (omega arith),
    law k.sink (c ∷ cs) (take (k.parser.size - suc (length cs)) (y ∷ ys)),
    law k.sink (c ∷ cs) (y ∷ ys),
  )

  -- If the sink refuses the bytes of the first call, it refuses those of both.
  pub round_in_refused :
      (k : Cursor S) (c : ℕ) (cs ys : Bytes)
      → IsAdditive add
      → is_data k.parser.state ≡ true
      → suc (length cs) < k.parser.size
      → (add k.sink (c ∷ cs)).1 ≡ false
      → round_in add k (c ∷ (cs ++ ys)) ≡ stop (callback_failed k.parser (add k.sink (c ∷ cs)).0)
  unfolding round_in is_data
  round_in_refused k c cs ys law d lt refused = ground (
    arith,
    length-append cs ys,
    take-append_past k.parser.size (c ∷ cs) ys (omega arith),
    law k.sink (c ∷ cs) (take (k.parser.size - suc (length cs)) ys),
    law k.sink (c ∷ cs) ys,
  )

  -- A round keeps the place of the end, and returns for more bytes only in the middle of a chunk.
  nothing_left : (k t : Cursor S) → round_in add k [] ≡ more t → t.at + length t.rest ≡ k.at + 0
  unfolding round_in
  nothing_left k t e = cc

  pub round_in-at :
      (k t : Cursor S) (c : ℕ) (cs : Bytes)
      → round_in add k (c ∷ cs) ≡ more t
      → t.at + length t.rest ≡ k.at + suc (length cs)
  unfolding round_in is_data
  round_in-at k t c cs e = ground (arith, length-drop k.parser.size (c ∷ cs))

  pub round_in_accepted :
      (k : Cursor S) (c : ℕ) (cs : Bytes)
      → Waits k (c ∷ cs)
      → (add k.sink (c ∷ cs)).1 ≡ true
      → round_in add k (c ∷ cs)
        ≡ stop (
            not_end_of_response
              (record k.parser { size = k.parser.size - suc (length cs) })
              (add k.sink (c ∷ cs)).0)
  unfolding round_in
  round_in_accepted k c cs w ok = ground arith

  pub round_in_not_accepted :
      (k : Cursor S) (c : ℕ) (cs : Bytes)
      → Waits k (c ∷ cs)
      → (add k.sink (c ∷ cs)).1 ≡ false
      → round_in add k (c ∷ cs) ≡ stop (callback_failed k.parser (add k.sink (c ∷ cs)).0)
  unfolding round_in
  round_in_not_accepted k c cs w refused = ground arith

  pub round-normal :
      (k l : Cursor S)
      → normal_cursor k ≡ normal_cursor l
      → map_round normal_cursor seen (round add k) ≡ map_round normal_cursor seen (round add l)
  round-normal k l e =
      round_in-normal k l k.rest e
      ∙ ap (λ xs. map_round normal_cursor seen (round_in add l xs))
          (ap (λ (t : Cursor S). t.rest) e)

  pub round-append :
      (k : Cursor S) (c : ℕ) (cs ys : Bytes)
      → ¬ (Waits k (c ∷ cs))
      → round add (with_rest k (c ∷ (cs ++ ys))) ≡ extend ys (round add (with_rest k (c ∷ cs)))
  unfolding round_in
  round-append k c cs ys w = round_in-append (with_rest k (c ∷ cs)) c cs ys (λ s. ground arith)

  pub round-at :
      (k t : Cursor S) → round add k ≡ more t → t.at + length t.rest ≡ k.at + length k.rest
  round-at k t = on_rest k.rest
    where
      on_rest : (xs : Bytes) → round_in add k xs ≡ more t → t.at + length t.rest ≡ k.at + length xs
      on_rest [] e = nothing_left k t e
      on_rest (c ∷ cs) e = round_in-at k t c cs e
