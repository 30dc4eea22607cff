-- ===== src/Chunked/Run.antt =====
-- http/chunked_parser.cpp: the fuel of the loop of `parse_chunk`.
use gweb_plusplus.Base.{
  ℕ, ◌+◌, ◌*◌, ◌<◌, Bool, [], ◌∷◌, ◌≡◌, refl, some, arith, Bytes, length, length-drop,
  if◌then◌else◌, more, loop_total,
}
use gweb_plusplus.Chunked.{Parser, Outcome, Cursor, is_data, round_in, round, parse_chunk}

-- Twice the bytes left, and one more for a round of state 4 that takes none.
abbrev pub rounds_left : {S : Type 0} → Cursor S → ℕ
rounds_left k = 2 * length k.rest + (if is_data k.parser.state then 1 else 0)

module _ {S : Type 0} (add : S → Bytes → S × Bool) where
  round_in_falls :
      (k t : Cursor S) (xs : Bytes)
      → k.rest ≡ xs
      → round_in add k xs ≡ more t
      → rounds_left t < rounds_left k
  unfolding round_in
  round_in_falls k t [] e h = cc
  round_in_falls k t (c ∷ cs) e h = ground (arith, length-drop k.parser.size (c ∷ cs))

  pub round_falls : (k t : Cursor S) → round add k ≡ more t → rounds_left t < rounds_left k
  round_falls k t = round_in_falls k t k.rest refl

  -- `parse_chunk` always returns.
  pub parse_chunk_total :
      (p : Parser) (s : S) (buf : Bytes) → (o : Outcome S) × (parse_chunk add p s buf ≡ some o)
  unfolding parse_chunk is_data
  parse_chunk_total p s buf =
      loop_total (round add) rounds_left round_falls (2 * length buf + 2)
        (record { parser = p; sink = s; at = 0; rest = buf }) (ground arith)
