-- ===== src/NameSearch.antt =====
-- net/scheme.cpp, http/http_method.cpp and http/http_headers.cpp: the binary search that all three make for a
-- name in a sorted table. They differ in the table, in the value for an unknown name, and in whether
-- the comparison is `strncmp` or `strncasecmp`: `fold` is what it does to a byte first. A C string is
-- the list of its bytes before the NUL.
pub mod Rounds
pub mod Compare
pub mod Found
use gweb_plusplus.Base.{
  ℕ, zero, suc, ◌+◌, ◌-◌, ◌/◌, List, [], ◌∷◌, Option, none, some, ltb, leb, ◌==◌, if◌then◌else◌,
  within, Bytes, length, get_elem?, Round, more, stop, loop,
}
use Prim.Native.Nat.{compare, Ordering}

-- `tolower`, in the C locale.
abbrev pub lower : ℕ → ℕ
lower c = if within b'A' b'Z' c then c + 32 else c

-- For `strncmp`.
abbrev pub same : ℕ → ℕ
same c = c

abbrev pub unless_eq : Ordering → Ordering → Ordering
unless_eq Ordering.eq o = o
unless_eq Ordering.lt o = Ordering.lt
unless_eq Ordering.gt o = Ordering.gt

-- The sign of the comparison. A byte that is not NUL is greater than the end.
unfoldable pub compare_names : (ℕ → ℕ) → Bytes → Bytes → ℕ → Ordering
compare_names fold a b zero = Ordering.eq
compare_names fold [] [] (suc n) = Ordering.eq
compare_names fold [] (y ∷ b) (suc n) = Ordering.lt
compare_names fold (x ∷ a) [] (suc n) = Ordering.gt
compare_names fold (x ∷ a) (y ∷ b) (suc n) =
    unless_eq (compare (fold x) (fold y)) (compare_names fold a b n)

-- `i`, and `j + 1`, which is not negative.
pub record Between : Type 0 where
  pub from : ℕ
  pub past : ℕ

abbrev pub below : {R : Type 0} → Between → ℕ → Round Between R
below k pivot = more (record k { past = pivot })

abbrev pub above : {R : Type 0} → Between → ℕ → Round Between R
above k pivot = more (record k { from = pivot + 1 })

-- What a comparison with the name at `pivot` leads to; `string` has length `len`.
pub search_at : Between → ℕ → Bytes → ℕ → Ordering → Round Between ℕ
search_at k pivot name len Ordering.lt = below k pivot
search_at k pivot name len Ordering.gt = above k pivot
search_at k pivot name len Ordering.eq =
    if ltb len (length name)
    then below k pivot
    else if len == length name
    then stop pivot
    else above k pivot

module _ (fold : ℕ → ℕ) (names : List Bytes) (unknown : ℕ) where
  -- There is a name at each pivot: `none` does not happen.
  pub search_name : Between → ℕ → Bytes → Option Bytes → Round Between ℕ
  unfolding search_at compare_names
  search_name k pivot string none = stop unknown
  search_name k pivot string (some name) =
      search_at k pivot name (length string) (compare_names fold string name (length string))

  pub search_round : Bytes → Between → Round Between ℕ
  unfolding search_name
  search_round string k =
      let pivot = (k.from + (k.past - 1)) / 2 in
      if leb k.past k.from then stop unknown else search_name k pivot string (get_elem? names pivot)

  -- On the `len` bytes of a name. A round leaves fewer names, so the fuel does not run out.
  unfoldable pub find_name : Bytes → Option ℕ
  unfolding search_round loop
  find_name string =
      loop (search_round string) (suc (length names)) (record { from = 0; past = length names })
