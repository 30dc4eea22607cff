-- ===== src/SortedList/Place.antt =====
-- What the search in a sorted list finds: the string, or the place for it.
use gweb_plusplus.Base.{
  ℕ, zero, suc, ◌+◌, ◌-◌, ◌/◌, ◌≤◌, ◌<◌, Bool, true, false, List, [], ◌∷◌, map, some, leb, Bytes,
  length, take, drop, drop-length, get_elem?, All, All-get, All-map, Round, more, stop, stop-inj,
  stop-ne-more, more-inj, loop_correct, Bool-cases, ◌⊎◌, inl, inr, arith, ◌≡◌, refl, ap, sym, ◌∙◌,
  subst,
}
use Prim.Native.Nat.{compare, Ordering}
use gweb_plusplus.NameSearch.{unless_eq, Between, below, above}
use gweb_plusplus.SortedList.{place_at, place_in, place_round, search}
use gweb_plusplus.SortedList.Order.{lex, compare_names-lex, lex_eq, lex_gt, lex_trans}

pub Ordering-cases : (o : Ordering) → (o ≡ Ordering.lt) ⊎ ((o ≡ Ordering.eq) ⊎ (o ≡ Ordering.gt))
Ordering-cases Ordering.lt = inl refl
Ordering-cases Ordering.eq = inr (inl refl)
Ordering-cases Ordering.gt = inr (inr refl)

abbrev placed : Between → ℕ → Ordering → Round Between (ℕ × Bool)
placed k pivot Ordering.lt = below k pivot
placed k pivot Ordering.eq = stop (pivot, true)
placed k pivot Ordering.gt = above k pivot

place_at-placed :
    (k : Between) (pivot other len : ℕ) (o : Ordering)
    → place_at k pivot other len o ≡ placed k pivot (unless_eq o (compare len other))
unfolding place_at
place_at-placed k pivot other len Ordering.lt = refl
place_at-placed k pivot other len Ordering.gt = refl
place_at-placed k pivot other len Ordering.eq = ground arith

get_elem?-some : (xs : List Bytes) (i : ℕ) → i < length xs → (x : Bytes) × (get_elem? xs i ≡ some x)
get_elem?-some [] i lt = absurd (omega arith)
get_elem?-some (x ∷ xs) zero lt = (x, refl)
get_elem?-some (x ∷ xs) (suc i) lt = get_elem?-some xs i (omega arith)

module _ (fold : ℕ → ℕ) where
  abbrev pub Precedes : Bytes → Bytes → Type 0
  Precedes a b = lex (map fold a) (map fold b) ≡ Ordering.lt

  -- Each string precedes those behind it, up to `fold`.
  abbrev pub IsSorted : List Bytes → Type 0
  IsSorted [] = Unit
  IsSorted (s ∷ strings) = All (Precedes s) strings × IsSorted strings

  -- What a search must return.
  abbrev pub IsPlace : List Bytes → Bytes → ℕ × Bool → Type 0
  IsPlace strings string (pos, true) =
      (other : Bytes) × (get_elem? strings pos ≡ some other) × (map fold string ≡ map fold other)
  IsPlace strings string (pos, false) =
      (pos ≤ length strings)
      × All (λ s. Precedes s string) (take pos strings)
      × All (Precedes string) (drop pos strings)

  Precedes_trans : (a b c : Bytes) → Precedes a b → Precedes b c → Precedes a c
  Precedes_trans a b c p q = lex_trans (map fold a) (map fold b) (map fold c) p q

  up_to :
      (strings : List Bytes) (i : ℕ) (other string : Bytes)
      → IsSorted strings
      → get_elem? strings i ≡ some other
      → Precedes other string
      → All (λ s. Precedes s string) (take (suc i) strings)
  up_to [] i other string v e p = cc
  up_to (s ∷ strings) zero other string v e p =
      (let d : s ≡ other = cc in subst (λ x. Precedes x string) (sym d) p, tt)
  up_to (s ∷ strings) (suc i) other string v e p = (
    Precedes_trans s other string (All-get (Precedes s) strings i other v.0 e) p,
    up_to strings i other string v.1 e p,
  )

  from_on :
      (strings : List Bytes) (i : ℕ) (other string : Bytes)
      → IsSorted strings
      → get_elem? strings i ≡ some other
      → Precedes string other
      → All (Precedes string) (drop i strings)
  from_on [] i other string v e p = cc
  from_on (s ∷ strings) zero other string v e p =
      let d : s ≡ other = cc in
      let q : Precedes string s = subst (λ x. Precedes string x) (sym d) p in
      (q, All-map (Precedes s) (Precedes string) strings (λ x r. Precedes_trans string s x q r) v.0)
  from_on (s ∷ strings) (suc i) other string v e p = from_on strings i other string v.1 e p

  module _ (strings : List Bytes) (string : Bytes) where
    -- What is left between `i` and `j` holds the place.
    record IsBetween (k : Between) : Type 0 where
      ordered : k.from ≤ k.past
      inside : k.past ≤ length strings
      left : All (λ s. Precedes s string) (take k.from strings)
      right : All (Precedes string) (drop k.past strings)

    abbrev pivot_of : Between → ℕ
    pivot_of k = (k.from + (k.past - 1)) / 2

    -- A round at a string goes by the order of the two.
    round-placed :
        (k : Between) (other : Bytes)
        → k.from < k.past
        → get_elem? strings (pivot_of k) ≡ some other
        → place_round fold strings string k
          ≡ placed k (pivot_of k) (lex (map fold string) (map fold other))
    unfolding place_round place_in
    round-placed k other lt at =
        let d : leb k.past k.from ≡ false = ground arith in
        rw d (
          ap (place_in fold strings k (pivot_of k) string) at
          ∙ place_at-placed k (pivot_of k) (length other) (length string) _
          ∙ ap (placed k (pivot_of k)) (compare_names-lex fold string other))

    RoundIs : Between → Round Between (ℕ × Bool) → Type 0
    RoundIs k r =
        ((t : Between) → r ≡ more t → IsBetween t × (t.past - t.from < k.past - k.from))
        × ((a : ℕ × Bool) → r ≡ stop a → IsPlace strings string a)

    placed-RoundIs :
        (k : Between) (other : Bytes)
        → IsSorted strings
        → IsBetween k
        → k.from < k.past
        → get_elem? strings (pivot_of k) ≡ some other
        → RoundIs k (placed k (pivot_of k) (lex (map fold string) (map fold other)))
    unfolding RoundIs
    placed-RoundIs k other v b lt at =
        elim (Ordering-cases (lex (map fold string) (map fold other))) [
          | inl d ↦ rw d (
            (λ t e.
                subst (λ u. IsBetween u × (u.past - u.from < k.past - k.from)) (more-inj e)
                  (
                    record {
                      ordered = omega arith;
                      inside = omega (arith, b.inside);
                      left = b.left;
                      right = from_on strings (pivot_of k) other string v at d;
                    },
                    omega arith,
                  )),
            (λ a e. absurd (stop-ne-more (sym e))),
          )
          | inr (inl d) ↦ rw d (
            (λ t e. absurd (stop-ne-more e)),
            (λ a e. subst (IsPlace strings string) (stop-inj e) (other, at, lex_eq _ _ d)),
          )
          | inr (inr d) ↦
              let next : suc (pivot_of k) ≡ pivot_of k + 1 = omega arith in
              rw d (
                (λ t e.
                    subst (λ u. IsBetween u × (u.past - u.from < k.past - k.from)) (more-inj e)
                      (
                        record {
                          ordered = omega arith;
                          inside = b.inside;
                          left =
                              subst (λ n. All (λ s. Precedes s string) (take n strings)) next
                                (up_to strings (pivot_of k) other string v at
                                  (lex_gt (map fold string) (map fold other) d));
                          right = b.right;
                        },
                        omega arith,
                      )),
                (λ a e. absurd (stop-ne-more (sym e))),
              )
        ]

    round-RoundIs :
        (k : Between)
        → IsSorted strings
        → IsBetween k
        → RoundIs k (place_round fold strings string k)
    unfolding place_round RoundIs
    round-RoundIs k v b = elim (Bool-cases (leb k.past k.from)) [
      | inl d ↦
          let met : k.past ≡ k.from = ground (arith, b.ordered) in
          rw d (
            (λ t e. absurd (stop-ne-more e)),
            (λ a e. subst (IsPlace strings string) (stop-inj e) (
              omega (arith, b.inside),
              b.left,
              subst (λ n. All (Precedes string) (drop n strings)) met b.right,
            )),
          )
      | inr d ↦
          let lt : k.from < k.past = ground arith in
          let (other, at) = get_elem?-some strings (pivot_of k) (omega (arith, b.inside)) in
          rw (round-placed k other lt at) (placed-RoundIs k other v b lt at)
    ]

    -- The search in a sorted list returns, with the index of the string, up to `fold`, or with the place
    -- between those that precede it and those that it precedes.
    pub search-IsPlace :
        IsSorted strings
        → (r : ℕ × Bool) × (search fold strings string ≡ some r) × IsPlace strings string r
    unfolding search RoundIs
    search-IsPlace v =
        let start : Between = record { from = 0; past = length strings } in
        let begins : IsBetween start = record {
          ordered = omega arith;
          inside = omega arith;
          left = tt;
          right = rw (drop-length strings) tt;
        } in
        loop_correct (place_round fold strings string) IsBetween (IsPlace strings string)
          (λ k. k.past - k.from) (λ k t b e. (round-RoundIs k v b).0 t e)
          (λ k a b e. (round-RoundIs k v b).1 a e) (suc (length strings)) start begins (omega arith)
