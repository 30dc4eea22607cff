-- ===== src/SortedList.antt =====
-- util/string_list.cpp, util/pathlist.cpp and mime/mime_types.cpp: the sorted list of strings that all three
-- keep, with the binary search for a string or for its place. The strings stand in one buffer, and an entry
-- has the offset and the length of its own, with what the list keeps for it. The lists differ in
-- that, in whether the comparison is `memcmp` or `strncasecmp` (`fold` is what it does to a byte first; no
-- string holds a NUL), and in how much the array grows by.
pub mod Order
pub mod Place
pub mod Insert
mod Examples
use gweb_plusplus.Base.{
  ℕ, zero, suc, ◌+◌, ◌-◌, ◌/◌, Bool, true, false, List, [], ◌∷◌, ◌++◌, map, Option, none, some, ltb,
  leb, ◌==◌, if◌then◌else◌, min, Bytes, length, take, drop, get_elem?, Round, more, stop, loop,
}
use Prim.Native.Nat.{Ordering}
use gweb_plusplus.NameSearch.{compare_names, Between, below, above}
use gweb_plusplus.Buffer.{Buffer, append}
use gweb_plusplus.Buffer.Appends.{contents}

-- What a comparison with the string at `pivot` leads to; the string that is looked for has length `len`.
pub place_at : Between → ℕ → ℕ → ℕ → Ordering → Round Between (ℕ × Bool)
place_at k pivot other len Ordering.lt = below k pivot
place_at k pivot other len Ordering.gt = above k pivot
place_at k pivot other len Ordering.eq =
    if ltb len other
    then below k pivot
    else if len == other
    then stop (pivot, true)
    else above k pivot

module _ (fold : ℕ → ℕ) (strings : List Bytes) where
  -- There is a string at each pivot: `none` does not happen.
  pub place_in : Between → ℕ → Bytes → Option Bytes → Round Between (ℕ × Bool)
  unfolding place_at compare_names
  place_in k pivot string none = stop (pivot, false)
  place_in k pivot string (some other) =
      place_at k pivot (length other) (length string)
        (compare_names fold string other (min (length string) (length other)))

  pub place_round : Bytes → Between → Round Between (ℕ × Bool)
  unfolding place_in
  place_round string k =
      let pivot = (k.from + (k.past - 1)) / 2 in
      if leb k.past k.from
      then stop (k.from, false)
      else place_in k pivot string (get_elem? strings pivot)

  -- `pos`, and the result. A round leaves fewer strings, so the fuel does not run out.
  unfoldable pub search : Bytes → Option (ℕ × Bool)
  unfolding place_round loop
  search string =
      loop (place_round string) (suc (length strings)) (record { from = 0; past = length strings })

pub record Entry (P : Type 0) : Type 0 where
  pub offset : ℕ
  pub len : ℕ
  pub payload : P

pub record SortedList (P : Type 0) : Type 0 where
  pub buf : Buffer
  pub entries : List (Entry P)
  pub size : ℕ

abbrev pub is_found : Option (ℕ × Bool) → Bool
is_found none = false
is_found (some r) = r.1

module _ {P : Type 0} where
  abbrev pub string_of : Buffer → Entry P → Bytes
  string_of b e = take e.len (drop e.offset (contents b))

  abbrev pub strings_of : SortedList P → List Bytes
  strings_of l = map (string_of l.buf) l.entries

  module _ (fold : ℕ → ℕ) where
    unfoldable pub exists : SortedList P → Bytes → Bool
    unfolding search
    exists l string = is_found (search fold (strings_of l) string)

    -- The allocations of the buffer and of the array, and how much the array grows by.
    module _ (realloc grows : ℕ → Bool) (alloc : ℕ) where
      -- The entry goes to `pos`, behind a larger array where there is no room.
      unfoldable pub insert : SortedList P → ℕ → Entry P → SortedList P × Bool
      insert l pos e =
          let entries = take pos l.entries ++ (e ∷ drop pos l.entries) in
          if length l.entries == l.size
          then if grows (l.size + alloc)
            then (record l { entries = entries; size = l.size + alloc }, true)
            else (l, false)
          else (record l { entries = entries }, true)

      unfoldable pub insert_string :
          SortedList P → ℕ → Bytes → P → Buffer × Bool → SortedList P × Bool
      unfolding insert
      insert_string l pos string p (b, false) = (record l { buf = b }, false)
      insert_string l pos string p (b, true) =
          insert (record l { buf = b }) pos
            (record { offset = l.buf.used; len = length string; payload = p })

      unfoldable pub add_at : SortedList P → Bytes → P → Option (ℕ × Bool) → SortedList P × Bool
      unfolding insert_string
      add_at l string p none = (l, false)
      add_at l string p (some (pos, true)) = (l, true)
      add_at l string p (some (pos, false)) =
          insert_string l pos string p (append realloc l.buf string)

      unfoldable pub add : SortedList P → Bytes → P → SortedList P × Bool
      unfolding add_at search
      add l string p = add_at l string p (search fold (strings_of l) string)
