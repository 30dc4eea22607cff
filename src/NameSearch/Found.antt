-- ===== src/NameSearch/Found.antt =====
-- Which names the search finds.
use gweb_plusplus.Base.{
  List, sym, fun_ext, ◌∙◌, ℕ, zero, suc, ◌+◌, ◌-◌, ◌/◌, [], ◌∷◌, Option, none, some, some-inj,
  Bytes, length, get_elem?, stop, loop, loop_inv, arith, ◌≡◌, ◌⊎◌, inl, inr, refl, ap, leb,
  if◌then◌else◌, Bool-cases,
}
use Prim.Native.Nat.{Ordering}
use gweb_plusplus.NameSearch.{Between, search_at, search_name, search_round, find_name}
use gweb_plusplus.NameSearch.Compare.{
  fold_all, compare_names-fold, compare_names-respects, length-fold_all,
}
use gweb_plusplus.NameSearch.Rounds.{find_name_total}

search_at-eq :
    (k : Between) (pivot r : ℕ) (name : Bytes) (len : ℕ) (o : Ordering)
    → search_at k pivot name len o ≡ stop r
    → (o ≡ Ordering.eq) × (len ≡ length name) × (r ≡ pivot)
unfolding search_at
search_at-eq k pivot r name len Ordering.lt e = cc
search_at-eq k pivot r name len Ordering.gt e = cc
search_at-eq k pivot r name len Ordering.eq e = ground arith

module _ (fold : ℕ → ℕ) (names : List Bytes) (unknown : ℕ) where
  search_name-respects :
      (s t : Bytes) (k : Between) (pivot : ℕ) (o : Option Bytes)
      → fold_all fold s ≡ fold_all fold t
      → search_name fold names unknown k pivot s o ≡ search_name fold names unknown k pivot t o
  unfolding search_name
  search_name-respects s t k pivot none e = refl
  search_name-respects s t k pivot (some name) e =
      rw (length-fold_all fold s t e)
        (ap (search_at k pivot name (length t)) (compare_names-respects fold s t name (length t) e))

  search_round-respects :
      (s t : Bytes) (k : Between)
      → fold_all fold s ≡ fold_all fold t
      → search_round fold names unknown s k ≡ search_round fold names unknown t k
  unfolding search_round
  search_round-respects s t k e =
      ap (λ r. if leb k.past k.from then stop unknown else r)
        (search_name-respects s t k ((k.from + (k.past - 1)) / 2) _ e)

  find_name-respects :
      (s t : Bytes)
      → fold_all fold s ≡ fold_all fold t
      → find_name fold names unknown s ≡ find_name fold names unknown t
  unfolding find_name
  find_name-respects s t e =
      ap (λ f. loop f (suc (length names)) (record { from = 0; past = length names }))
        (fun_ext λ k. search_round-respects s t k e)

  -- The names `ns` are found, each at its index from `i`: true of a table that is sorted, by evaluation.
  abbrev pub Finds : ℕ → List Bytes → Type 0
  Finds i [] = Unit
  Finds i (name ∷ ns) = (find_name fold names unknown name ≡ some i) × Finds (suc i) ns

  found-at :
      (ns : List Bytes) (i j : ℕ) (name : Bytes)
      → Finds i ns
      → get_elem? ns j ≡ some name
      → find_name fold names unknown name ≡ some (i + j)
  found-at [] i j name f e = cc
  found-at (n ∷ ns) i zero name f e =
      let d : n ≡ name = cc in
      ap (find_name fold names unknown) (sym d) ∙ f.0 ∙ ap some (omega arith)
  found-at (n ∷ ns) i (suc j) name f e = found-at ns (suc i) j name f.1 e ∙ ap some (omega arith)

  pub find_name_known :
      (i : ℕ) (name string : Bytes)
      → Finds 0 names
      → get_elem? names i ≡ some name
      → fold_all fold string ≡ fold_all fold name
      → find_name fold names unknown string ≡ some i
  find_name_known i name string f at e =
      find_name-respects string name e ∙ found-at names 0 i name f at ∙ ap some (omega arith)

  -- The string is the name at the index `i`, up to `fold`.
  abbrev pub IsNameAt : Bytes → ℕ → Type 0
  IsNameAt string i =
      (name : Bytes) × (get_elem? names i ≡ some name) × (fold_all fold string ≡ fold_all fold name)

  search_name-IsNameAt :
      (k : Between) (pivot r : ℕ) (string : Bytes) (o : Option Bytes)
      → get_elem? names pivot ≡ o
      → search_name fold names unknown k pivot string o ≡ stop r
      → (r ≡ unknown) ⊎ IsNameAt string r
  unfolding search_name
  search_name-IsNameAt k pivot r string none at e = inl cc
  search_name-IsNameAt k pivot r string (some name) at e =
      let (eq, len, here) = search_at-eq k pivot r name (length string) _ e in
      inr (name, ap (get_elem? names) here ∙ at, compare_names-fold fold string name eq len)

  search_round-IsNameAt :
      (string : Bytes) (k : Between) (r : ℕ)
      → search_round fold names unknown string k ≡ stop r
      → (r ≡ unknown) ⊎ IsNameAt string r
  unfolding search_round
  search_round-IsNameAt string k r e = elim (Bool-cases (leb k.past k.from)) [
    | inl d ↦ inl (let f : stop unknown ≡ stop r = rw d at e in cc)
    | inr d ↦ search_name-IsNameAt k ((k.from + (k.past - 1)) / 2) r string _ refl (rw d at e)
  ]

  pub find_name-IsNameAt :
      (string : Bytes) (i : ℕ)
      → find_name fold names unknown string ≡ some i
      → (i ≡ unknown) ⊎ IsNameAt string i
  unfolding find_name
  find_name-IsNameAt string i e =
      loop_inv (search_round fold names unknown string) (λ k. Unit {0})
        (λ r. (r ≡ unknown) ⊎ IsNameAt string r) (λ k t h d. tt)
        (λ k r h d. search_round-IsNameAt string k r d) (suc (length names))
        (record { from = 0; past = length names }) tt e

  -- What a search for the string must return: the index of a name that it is up to `fold`, or
  -- `unknown` where there is none.
  abbrev pub IsLookup : Bytes → Option ℕ → Type 0
  IsLookup string o =
      (i : ℕ) × (o ≡ some i)
      × (IsNameAt string i ⊎ ((i ≡ unknown) × ((j : ℕ) → ¬ IsNameAt string j)))

  -- `unknown` is no index.
  pub find_name-IsLookup :
      (string : Bytes)
      → Finds 0 names
      → get_elem? names unknown ≡ none
      → IsLookup string (find_name fold names unknown string)
  find_name-IsLookup string f past =
      let (i, e) = find_name_total fold names unknown string in
      (
        i,
        e,
        elim (find_name-IsNameAt string i e) [
          | inr at ↦ inl at
          | inl d ↦ inr (
            d,
            λ j (name, at, same_as).
                let h : find_name fold names unknown string ≡ some j =
                  find_name_known j name string f at same_as in
                let g : i ≡ j = some-inj (sym e ∙ h) in
                let u : get_elem? names j ≡ none = ap (get_elem? names) (sym g ∙ d) ∙ past in cc,
          )
        ],
      )
