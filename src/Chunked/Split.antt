-- ===== src/Chunked/Split.antt =====
-- `parse_chunk` over a body that comes in pieces.
use gweb_plusplus.Base.{
  ℕ, zero, suc, ◌+◌, ◌*◌, ◌<◌, Bool, ltb, ◌&&◌, ◌⊎◌, [], ◌∷◌, ◌++◌, ◌≡◌, refl, sym, ap, subst, ◌∙◌,
  Option, none, some, arith, Bytes, length, length-append, loop_meet, stop, loop, loop-more,
  loop-stop, loop_fuel, Round-cases, map_result, loop_simulation, Bool-cases, inl, inr,
}
use gweb_plusplus.Chunked.{
  Parser, Outcome, invalid_chunked_response, callback_failed, not_end_of_response, end_of_response,
  Cursor, is_data, round_in, round, parse_chunk,
}
use gweb_plusplus.Chunked.Run.{rounds_left, round_falls}
use gweb_plusplus.Chunked.Rounds.{
  seen, shift, with_rest, IsAdditive, extend, move, round_in-shift, normal_cursor, resumed,
  round_in-resumed, round_in_refused, Waits, round_in-at, round_in_accepted, round_in_not_accepted,
  round-normal, round-append,
}

module _ {S : Type 0} (add : S → Bytes → S × Bool) where
  -- The next call, on `ys`, if the first call asked for more.
  abbrev pub and_then : Bytes → ℕ → Option (Outcome S) → Option (Outcome S)
  and_then ys n (some (not_end_of_response p s)) = map_result (shift n) (parse_chunk add p s ys)
  and_then ys n o = o

  -- A call on `ys`, its bytes counted from `n` bytes further back.
  parse_at : ℕ → Parser → S → Bytes → Option (Outcome S)
  parse_at n p s ys =
      loop (round add) (2 * length ys + 2) (record { parser = p; sink = s; at = n; rest = ys })

  parse_at-shift :
      (n : ℕ) (p : Parser) (s : S) (ys : Bytes)
      → parse_at n p s ys ≡ map_result (shift n) (parse_chunk add p s ys)
  unfolding parse_at parse_chunk
  parse_at-shift n p s ys =
      subst (λ m. parse_at m p s ys ≡ map_result (shift n) (parse_chunk add p s ys)) (omega arith)
        (loop_simulation (round add) (round add) (move n) (shift n)
          (λ k. round_in-shift add n k k.rest) (2 * length ys + 2)
          (record { parser = p; sink = s; at = 0; rest = ys }))

  -- The next call, its bytes counted from `base` bytes further back.
  abbrev and_then_at : Bytes → ℕ → Option (Outcome S) → Option (Outcome S)
  and_then_at ys base (some (not_end_of_response p s)) = parse_at base p s ys
  and_then_at ys base o = o

  round_in-stop :
      (k : Cursor S) (c : ℕ) (cs ys : Bytes) (base : ℕ) (o : Outcome S)
      → ¬ (Waits k (c ∷ cs))
      → round_in add k (c ∷ cs) ≡ stop o
      → and_then_at ys base (some o) ≡ some o
  unfolding round_in is_data
  round_in-stop k c cs ys base o w e = ground arith

  abbrev Splits : ℕ → ℕ → Cursor S → Bytes → Bytes → Type 0
  Splits n m k xs ys =
      map_result seen (loop (round add) m (with_rest k (xs ++ ys)))
      ≡ map_result seen (and_then_at ys (k.at + length xs) (loop (round add) n (with_rest k xs)))

  split_waiting :
      (n m : ℕ) (k : Cursor S) (c : ℕ) (cs ys : Bytes)
      → IsAdditive add
      → Waits k (c ∷ cs)
      → rounds_left (with_rest k (c ∷ (cs ++ ys))) < suc m
      → Splits (suc n) (suc m) k (c ∷ cs) ys
  unfolding parse_at
  split_waiting n m k c cs ys law w f = elim (Bool-cases (add k.sink (c ∷ cs)).1) [
    | inl ok ↦
        loop_meet (round add) normal_cursor seen (round-normal add) m _ (resumed add k (c ∷ cs) ys)
          (round_in-resumed add (with_rest k (c ∷ (cs ++ ys))) c cs ys law w.0 w.1 ok)
        ∙ ap (map_result seen) (
            loop_fuel (round add) rounds_left (round_falls add) (suc m) (2 * length ys + 2)
              (resumed add k (c ∷ cs) ys) (ground (arith, length-append cs ys)) (ground arith))
        ∙ ap after
            (sym (loop-stop (round add) n (round_in_accepted add (with_rest k (c ∷ cs)) c cs w ok)))
    | inr refused ↦
        ap (map_result seen) (
          loop-stop (round add) m
            (round_in_refused add (with_rest k (c ∷ (cs ++ ys))) c cs ys law w.0 w.1 refused))
        ∙ ap after (
            sym (
              loop-stop (round add) n
                (round_in_not_accepted add (with_rest k (c ∷ cs)) c cs w refused)))
  ]
    where
      after : Option (Outcome S) → Option (Outcome S)
      after o = map_result seen (and_then_at ys (k.at + suc (length cs)) o)

  -- A round that does not wait, with the lemma for the rounds that follow it.
  split_round :
      (n m : ℕ) (k : Cursor S) (c : ℕ) (cs ys : Bytes)
      → ¬ (Waits k (c ∷ cs))
      → ((t : Cursor S)
          → rounds_left t < n
          → rounds_left (with_rest t (t.rest ++ ys)) < m
          → Splits n m t t.rest ys)
      → rounds_left (with_rest k (c ∷ cs)) < suc n
      → rounds_left (with_rest k (c ∷ (cs ++ ys))) < suc m
      → Splits (suc n) (suc m) k (c ∷ cs) ys
  split_round n m k c cs ys w ih h f =
      let d = with_rest k (c ∷ cs) in
      let whole = round-append add k c cs ys w in
      elim (Round-cases (round add d)) [
        | inl (t, e) ↦
            ap (map_result seen) (loop-more (round add) m (whole ∙ ap (extend ys) e))
            ∙ ih t (omega (arith, round_falls add d t e))
                (omega (arith, round_falls add _ _ (whole ∙ ap (extend ys) e)))
            ∙ ap (λ base. map_result seen (and_then_at ys base (loop (round add) n t)))
                (round_in-at add d t c cs e)
            ∙ ap (λ r. map_result seen (and_then_at ys (k.at + suc (length cs)) r))
                (sym (loop-more (round add) n e))
        | inr (o, e) ↦
            ap (map_result seen) (loop-stop (round add) m (whole ∙ ap (extend ys) e))
            ∙ ap (map_result seen) (sym (round_in-stop d c cs ys (k.at + suc (length cs)) o w e))
            ∙ ap (λ r. map_result seen (and_then_at ys (k.at + suc (length cs)) r))
                (sym (loop-stop (round add) n e))
      ]

  split_end :
      (n m : ℕ) (k : Cursor S) (ys : Bytes)
      → rounds_left (with_rest k ys) < m
      → Splits (suc n) m k [] ys
  unfolding parse_at round_in
  split_end n m k ys f =
      rw
        (
          loop-stop (round add) n {s = with_rest k []} refl,
          let e : k.at + 0 ≡ k.at = omega arith in e,
        )
        (ap (map_result seen) (
          loop_fuel (round add) rounds_left (round_falls add) m (2 * length ys + 2) (with_rest k ys)
            f (ground arith)))

  Waits-dec : (k : Cursor S) (xs : Bytes) → Waits k xs ⊎ ¬ (Waits k xs)
  Waits-dec k xs = elim (Bool-cases (is_data k.parser.state && ltb (length xs) k.parser.size)) [
    | inl w ↦ inl (ground arith)
    | inr w ↦ inr (λ h. ground arith)
  ]

  split :
      (n m : ℕ) (k : Cursor S) (xs ys : Bytes)
      → IsAdditive add
      → rounds_left (with_rest k xs) < n
      → rounds_left (with_rest k (xs ++ ys)) < m
      → Splits n m k xs ys
  split zero m k [] ys law h f = absurd (omega arith)
  split (suc n) m k [] ys law h f = split_end n m k ys f
  split zero m k (c ∷ cs) ys law h f = absurd (omega arith)
  split (suc n) zero k (c ∷ cs) ys law h f = absurd (omega arith)
  split (suc n) (suc m) k (c ∷ cs) ys law h f = elim (Waits-dec k (c ∷ cs)) [
    | inl w ↦ split_waiting n m k c cs ys law w f
    | inr w ↦ split_round n m k c cs ys w (λ t. split n m t t.rest ys law) h f
  ]

  and_then_at_lem :
      (n : ℕ) (ys : Bytes) (o : Option (Outcome S)) → and_then_at ys n o ≡ and_then ys n o
  and_then_at_lem n ys (some (not_end_of_response p s)) = parse_at-shift n p s ys
  and_then_at_lem n ys (some (invalid_chunked_response p s)) = refl
  and_then_at_lem n ys (some (callback_failed p s)) = refl
  and_then_at_lem n ys (some (end_of_response _ p s)) = refl
  and_then_at_lem n ys none = refl

  -- However the network splits the body, the calls of `parse_chunk` return what one call on the
  -- whole returns, and leave the same parser and the same callback's state: a call on `xs` that asks
  -- for more, then one on `ys`, does what one call on `xs ++ ys` does, and a call on `xs` that
  -- returns anything else returns that with `ys` behind it. The callback must take two pieces
  -- at once as it takes them in turn. A chunk size that no state reads again is not compared.
  pub parse_chunk-append :
      (p : Parser) (s : S) (xs ys : Bytes)
      → IsAdditive add
      → map_result seen (parse_chunk add p s (xs ++ ys))
        ≡ map_result seen (and_then ys (length xs) (parse_chunk add p s xs))
  unfolding parse_chunk
  parse_chunk-append p s xs ys law =
      let k : Cursor S = record { parser = p; sink = s; at = 0; rest = xs } in
      split (2 * length xs + 2) (2 * length (xs ++ ys) + 2) k xs ys law (ground arith)
        (ground arith)
      ∙ rw (let e : 0 + length xs ≡ length xs = omega arith in e)
          (ap (map_result seen) (and_then_at_lem (length xs) ys _))
