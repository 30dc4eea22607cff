-- ===== src/NameSearch/Rounds.antt =====
-- The rounds of the search for a name.
use gweb_plusplus.Base.{
  List, ◌+◌, ℕ, suc, ◌-◌, ◌/◌, ◌≤◌, ◌<◌, Option, none, some, Bytes, length, more, loop_total, arith,
  ◌≡◌, inl, inr, leb, Bool-cases,
}
use Prim.Native.Nat.{Ordering}
use gweb_plusplus.NameSearch.{Between, search_at, search_name, search_round, find_name}

abbrev left : Between → ℕ
left k = k.past - k.from

search_at_falls :
    (k t : Between) (pivot : ℕ) (name : Bytes) (len : ℕ) (o : Ordering)
    → k.from ≤ pivot
    → pivot < k.past
    → search_at k pivot name len o ≡ more t
    → left t < left k
unfolding search_at
search_at_falls k t pivot name len Ordering.lt lo hi e = ground arith
search_at_falls k t pivot name len Ordering.gt lo hi e = ground arith
search_at_falls k t pivot name len Ordering.eq lo hi e = ground arith

module _ (fold : ℕ → ℕ) (names : List Bytes) (unknown : ℕ) where
  search_name_falls :
      (k t : Between) (pivot : ℕ) (string : Bytes) (o : Option Bytes)
      → k.from ≤ pivot
      → pivot < k.past
      → search_name fold names unknown k pivot string o ≡ more t
      → left t < left k
  unfolding search_name
  search_name_falls k t pivot string none lo hi e = cc
  search_name_falls k t pivot string (some name) lo hi e =
      search_at_falls k t pivot name (length string) _ lo hi e

  search_round_falls :
      (string : Bytes) (k t : Between)
      → search_round fold names unknown string k ≡ more t
      → left t < left k
  unfolding search_round
  search_round_falls string k t e = elim (Bool-cases (leb k.past k.from)) [
    | inl d ↦ ground arith
    | inr d ↦
        let lt : k.from < k.past = ground arith in
        search_name_falls k t ((k.from + (k.past - 1)) / 2) string _ (omega arith) (omega arith)
          (rw d at e)
  ]

  -- The search returns, for any name.
  pub find_name_total : (string : Bytes) → (i : ℕ) × (find_name fold names unknown string ≡ some i)
  unfolding find_name
  find_name_total string =
      loop_total (search_round fold names unknown string) left (search_round_falls string)
        (suc (length names)) (record { from = 0; past = length names }) (omega arith)
