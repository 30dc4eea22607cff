-- ===== src/PathList.antt =====
-- util/string_list.{h,cpp} and util/pathlist.{h,cpp}: the sorted lists of the extensions and of the paths that a
-- rule has, and whether a path lies below one of the list. `PATH_MAX` comes from the system.
pub mod Below
mod Examples
use gweb_plusplus.Base.{
  ℕ, zero, suc, ◌+◌, ◌-◌, Bool, true, false, not, ◌||◌, ◌&&◌, List, [], ◌∷◌, Option, none, some,
  ltb, ◌==◌, if◌then◌else◌, Bytes, length, take, drop, get_elem?, Round, more, stop, loop,
}
use gweb_plusplus.NameSearch.{same}
use gweb_plusplus.Buffer.{new_buffer}
use gweb_plusplus.SortedList.{SortedList, exists, add}

unfoldable pub new_string_list : SortedList Unit
unfolding new_buffer
new_string_list = record { buf = new_buffer 2048; entries = []; size = 0 }

pub string_exists : SortedList Unit → Bytes → Bool
unfolding exists
string_exists l string = exists same l string

module _ (realloc grows : ℕ → Bool) where
  add_string : SortedList Unit → Bytes → SortedList Unit × Bool
  unfolding add
  add_string l string = add same realloc grows 64 l string tt

-- `path[len - 1]` is a slash, and not the only byte.
abbrev pub ends_in_slash : Bytes → Bool
ends_in_slash path =
    ltb 1 (length path)
    && elim (get_elem? path (length path - 1)) [ some c ↦ c == b'/' | none ↦ false ]

abbrev pub without_slash : Bytes → Bytes
without_slash path = if ends_in_slash path then take (length path - 1) path else path

module _ (path_max : ℕ) (realloc grows : ℕ → Bool) where
  unfoldable pub add_path : SortedList Unit → Bytes → SortedList Unit × Bool
  unfolding add
  add_path l [] = (l, false)
  add_path l (c ∷ path) =
      if not (c == b'/') || ltb path_max (length (c ∷ path))
      then (l, false)
      else add same realloc grows 8 l (without_slash (c ∷ path)) tt

-- `for (; l < len; l++)`, up to a slash; the bytes are those from `l` on.
abbrev pub next_slash : ℕ → Bytes → ℕ
next_slash l [] = l
next_slash l (c ∷ bytes) = if c == b'/' then l else next_slash (suc l) bytes

module _ (found : Bytes → Bool) (path : Bytes) where
  pub path_round : ℕ → Round ℕ Bool
  path_round l =
      if found (take l path)
      then stop true
      else if l == length path
      then stop false
      else more (next_slash (suc l) (drop (suc l) path))

-- `none` for a path of no bytes, whose loop would leave it. The length grows with each round.
unfoldable pub path_exists : SortedList Unit → Bytes → Option Bool
unfolding path_round loop exists
path_exists l [] = none
path_exists l (c ∷ rest) =
    let path = without_slash (c ∷ rest) in
    loop (path_round (exists same l) path) (length (c ∷ rest)) 1
