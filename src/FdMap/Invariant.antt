-- ===== src/FdMap/Invariant.antt =====
-- net/fdmap.cpp: the two arrays are inverse to each other.
use gweb_plusplus.Base.{
  ℕ, zero, suc, ◌+◌, ◌-◌, ◌≤◌, ◌<◌, none, some, ◌==◌, if◌then◌else◌, arith, ◌≡◌,
}
use gweb_plusplus.FdMap.{FdMap, update, remove_at}

-- A descriptor with a place stands at that place, among the `used` ones; and each of those holds a
-- descriptor that has that place.
pub record IsValid (m : FdMap) : Type 0 where
  pub placed :
      (fd i : ℕ) → m.descriptors fd ≡ some i → (i < m.used) × (m.index i ≡ fd) × (fd < m.size)
  pub held : (i : ℕ) → i < m.used → m.descriptors (m.index i) ≡ some i

-- `n` different numbers below `m` are at most `m`.
abbrev Differ : (ℕ → ℕ) → ℕ → Type 0
Differ f n = (i j : ℕ) → i < n → j < n → f i ≡ f j → i ≡ j

pigeonhole : (n m : ℕ) (f : ℕ → ℕ) → ((i : ℕ) → i < n → f i < m) → Differ f n → n ≤ m
pigeonhole zero m f lt d = omega arith
pigeonhole (suc n) zero f lt d = absurd (omega (arith, lt 0 (omega arith)))
pigeonhole (suc n) (suc m) f lt d = omega (
  arith,
  pigeonhole n m (λ i. if f i == m then f n else f i) (λ i h. ground (arith, lt i, lt n, d i n))
      (λ i j h k e. ground (arith, d i j, d i n, d j n)),
)

-- A descriptor that is not in the map leaves a place free.
pub used-lt-size :
    (m : FdMap) (fd : ℕ) → IsValid m → fd < m.size → m.descriptors fd ≡ none → m.used < m.size
used-lt-size m fd v lt e =
    pigeonhole (suc m.used) m.size (λ i. if i == m.used then fd else m.index i)
      (λ i h. ground (arith, v.held i, v.placed (m.index i) i))
      (λ i j h k d. ground (arith, v.held i, v.held j))

-- What `add` writes for a descriptor that is not in the map.
abbrev pub added : FdMap → ℕ → FdMap
added m fd = record m {
  descriptors = update m.descriptors fd (some m.used);
  index = update m.index m.used fd;
  used = m.used + 1;
}

pub added-IsValid :
    (m : FdMap) (fd : ℕ) → IsValid m → fd < m.size → m.descriptors fd ≡ none → IsValid (added m fd)
added-IsValid m fd v lt e = record {
  placed = λ k i h. ground (arith, v.placed k i, v.held m.used);
  held = λ i h. ground (arith, v.held i, v.placed fd i);
}

pub remove_at-IsValid :
    (m : FdMap) (fd i : ℕ)
    → IsValid m
    → m.descriptors fd ≡ some i
    → IsValid (remove_at m fd (some i)).0
unfolding remove_at
remove_at-IsValid m fd i v e =
    let (lt, at, small) = v.placed fd i e in
    let last = v.held (m.used - 1) (omega arith) in
    record {
      placed = λ k j h. ground (arith, v.placed k j, v.placed (m.index (m.used - 1)) (m.used - 1));
      held = λ j h. ground (arith, v.held j, v.placed fd j);
    }
