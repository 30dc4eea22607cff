-- ===== src/FdMap.antt =====
-- net/fdmap.h and net/fdmap.cpp: the set of descriptors that a selector watches. `_M_descriptors` is a
-- function from a descriptor to its place in `_M_index`, and `_M_index` one from a place to a descriptor; the
-- functions are total, and `size` is the number of entries that `create` has allocated. `none` is an
-- access past the arrays.
pub mod Invariant
pub mod Refines
pub mod Runs
mod Examples
use gweb_plusplus.Base.{
  ℕ, suc, ◌+◌, ◌-◌, Bool, true, false, Option, none, some, ltb, leb, ◌==◌, if◌then◌else◌,
}

-- `none` in `descriptors` is -1.
pub record FdMap : Type 0 where
  pub descriptors : ℕ → Option ℕ
  pub index : ℕ → ℕ
  pub size : ℕ
  pub used : ℕ

-- A function changed at one place.
abbrev pub update {ℓ} : {A : Type ℓ} → (ℕ → A) → ℕ → A → ℕ → A
update f k v i = if i == k then v else f i

-- Behind `getrlimit`, with the limit that it returns; whether the two calls of `malloc` succeed
-- is given. The bytes of `_M_index` are not set.
pub create : ℕ → Bool → Bool → (ℕ → ℕ) → FdMap → FdMap × Bool
create limit first second garbage m =
    if first
    then (if second
        then (record m { descriptors = λ i. none; index = garbage; size = limit }, true)
        else (m, false))
    else (m, false)

-- The constructor, which leaves the arrays unallocated.
abbrev pub no_descriptors : FdMap
no_descriptors = record { descriptors = λ i. none; index = λ i. 0; size = 0; used = 0 }

pub add_at : FdMap → ℕ → Option ℕ → Option (FdMap × Bool)
add_at m fd none =
    if leb m.size m.used
    then none
    else some (
      record m {
        descriptors = update m.descriptors fd (some m.used);
        index = update m.index m.used fd;
        used = m.used + 1;
      },
      true,
    )
add_at m fd (some i) = some (m, false)

pub add : FdMap → ℕ → Option (FdMap × Bool)
unfolding add_at
add m fd = if leb m.size fd then none else add_at m fd (m.descriptors fd)

-- The last entry of the index takes the place `i`.
pub move_last : FdMap → ℕ → FdMap
move_last m i =
    let last = m.index m.used in
    if ltb i m.used
    then record m {
      index = update m.index i last;
      descriptors = update m.descriptors last (some i);
    }
    else m

pub remove_at : FdMap → ℕ → Option ℕ → FdMap × Bool
unfolding move_last
remove_at m fd none = (m, false)
remove_at m fd (some i) =
    (move_last (record m { descriptors = update m.descriptors fd none; used = m.used - 1 }) i, true)

-- The places in `_M_index` are below `_M_used`, which `add` has written.
pub remove : FdMap → ℕ → Option (FdMap × Bool)
unfolding remove_at
remove m fd = if leb m.size fd then none else some (remove_at m fd (m.descriptors fd))
