-- ===== src/FdMap/Refines.antt =====
-- net/fdmap.cpp: the map as a set of descriptors.
use gweb_plusplus.Base.{
  ℕ, ◌-◌, ◌<◌, Bool, true, false, not, Option, none, some, leb, arith, ◌≡◌, ◌↔◌, refl, Option-cases,
  inl, inr,
}
use gweb_plusplus.FdMap.{FdMap, update, no_descriptors, create, add_at, add, remove_at, remove}
use gweb_plusplus.FdMap.Invariant.{IsValid, added-IsValid, used-lt-size, remove_at-IsValid}

-- The specification: a set of descriptors, as its characteristic function.
abbrev pub FdSet : Type 0
FdSet = ℕ → Bool

abbrev pub is_placed : Option ℕ → Bool
is_placed none = false
is_placed (some i) = true

-- The map stands for a set: its arrays are inverse to each other, and its first `used` entries are
-- the members of the set.
pub record Refines (m : FdMap) (set : FdSet) : Type 0 where
  pub valid : IsValid m
  pub members : (fd : ℕ) → set fd ≡ is_placed (m.descriptors fd)

-- A call that stays within the arrays, returns `r`, and leaves a map of the same size for `set`.
abbrev pub Leaves : FdMap → FdSet → Bool → Option (FdMap × Bool) → Type 0
Leaves m set r none = ⊥
Leaves m set r (some (m', done)) = Refines m' set × (m'.size ≡ m.size) × (done ≡ r)

-- The members of the set are the descriptors that a selector finds in the index, each at one place.
pub index_members :
    (m : FdMap) (set : FdSet) (fd : ℕ)
    → Refines m set
    → (set fd ≡ true) ↔ ((i : ℕ) × (i < m.used) × (m.index i ≡ fd))
index_members m set fd v = (
  (λ h. elim (Option-cases (m.descriptors fd)) [
    | inl e ↦ cc (v.members fd, h)
    | inr (i, e) ↦ (let (lt, at, small) = v.valid.placed fd i e in (i, lt, at))
  ]),
  (λ (i, lt, at). ground (arith, v.members fd, v.valid.held i)),
)

pub create-Leaves :
    (limit : ℕ) (garbage : ℕ → ℕ)
    → Leaves
        (record no_descriptors { size = limit })
        (λ fd. false)
        true
        (some (create limit true true garbage no_descriptors))
unfolding create
create-Leaves limit garbage = (
  record {
    valid = record { placed = λ fd i e. cc; held = λ i lt. absurd (omega arith) };
    members = λ fd. refl;
  },
  refl,
  refl,
)

-- For a descriptor below the limit, `add` stays within the arrays, puts the descriptor into the set, and
-- returns whether it was not there.
pub add-Leaves :
    (m : FdMap) (set : FdSet) (fd : ℕ)
    → Refines m set
    → fd < m.size
    → Leaves m (update set fd true) (not (set fd)) (add m fd)
unfolding add add_at
add-Leaves m set fd v lt = elim (Option-cases (m.descriptors fd)) [
  | inl e ↦
      let below : leb m.size fd ≡ false = ground arith in
      let u = used-lt-size m fd v.valid lt e in
      let free : leb m.size m.used ≡ false = ground arith in
      rw below (
        rw e (
          rw free (
            record {
              valid = added-IsValid m fd v.valid lt e;
              members = λ k. ground (arith, v.members k);
            },
            refl,
            ground (arith, v.members fd),
          )))
  | inr (i, e) ↦
      let below : leb m.size fd ≡ false = ground arith in
      rw below (
        rw e (
          record { valid = v.valid; members = λ k. ground (arith, v.members k) },
          refl,
          ground (arith, v.members fd),
        ))
]

-- For a descriptor below the limit, `remove` takes the descriptor out of the set, and returns whether
-- it was there.
pub remove-Leaves :
    (m : FdMap) (set : FdSet) (fd : ℕ)
    → Refines m set
    → fd < m.size
    → Leaves m (update set fd false) (set fd) (remove m fd)
unfolding remove remove_at
remove-Leaves m set fd v lt = elim (Option-cases (m.descriptors fd)) [
  | inl e ↦
      let below : leb m.size fd ≡ false = ground arith in
      rw below (
        rw e (
          record { valid = v.valid; members = λ k. ground (arith, v.members k) },
          refl,
          ground (arith, v.members fd),
        ))
  | inr (i, e) ↦
      let below : leb m.size fd ≡ false = ground arith in
      let (lt', at, small) = v.valid.placed fd i e in
      let last = v.valid.held (m.used - 1) (omega arith) in
      rw below (
        rw e (
          record {
            valid = remove_at-IsValid m fd i v.valid e;
            members = λ k. ground (arith, v.members k, v.valid.placed k i);
          },
          ground arith,
          ground (arith, v.members fd),
        ))
]
