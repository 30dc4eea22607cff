-- ===== src/MimeTypes.antt =====
-- mime/mime_types.{h,cpp}: the types of files by their extensions, and the reader of a line of the file that
-- they come from. The file is not modelled: `fgets` gives a line of 1023 bytes at most.
pub mod Lines
pub mod Lookup
pub mod Adds
pub mod Types
mod Examples
use gweb_plusplus.Base.{
  ℕ, zero, suc, ◌+◌, Bool, true, false, ◌||◌, List, [], ◌∷◌, ◌++◌, Option, none, some, ltb, ◌==◌,
  if◌then◌else◌, is_white_space, Bytes, length, take, drop, get_elem?,
}
use gweb_plusplus.NameSearch.{lower}
use gweb_plusplus.Buffer.{Buffer, append, new_buffer}
use gweb_plusplus.Buffer.Appends.{contents}
use gweb_plusplus.SortedList.{SortedList, Entry, strings_of, search, add}

-- The offset and the length of the type, for an extension.
abbrev pub TypeList : Type 0
TypeList = SortedList (ℕ × ℕ)

unfoldable pub new_type_list : TypeList
unfolding new_buffer
new_type_list = record { buf = new_buffer 16384; entries = []; size = 0 }

abbrev type_in : TypeList → Option (Entry (ℕ × ℕ)) → Option Bytes
type_in l none = none
type_in l (some e) = some (take e.payload.1 (drop e.payload.0 (contents l.buf)))

abbrev type_at : TypeList → Option (ℕ × Bool) → Option Bytes
type_at l (some (pos, true)) = type_in l (get_elem? l.entries pos)
type_at l _ = none

-- `none` stands for `application/octet-stream`.
unfoldable pub get_mime_type : TypeList → Bytes → Option Bytes
unfolding search
get_mime_type l extension = type_at l (search lower (strings_of l) extension)

-- `state`, with the bytes from `extension` on.
pub data LineState : Type 0 where
  start in_type in_space : LineState
  in_extension : Bytes → LineState

pub record Line : Type 0 where
  pub list : TypeList
  pub type : Bytes
  pub offset : ℕ
  pub count : ℕ
  pub state : LineState

-- How the loop goes on behind a byte: with the next, with what is behind it, or out of `load`.
pub data Next : Type 0 where
  onward leaves fails : Line → Next

abbrev pub ends_line : ℕ → Bool
ends_line c = c == 0 || c == b'\n' || c == b'\r'

module _ (realloc grows : ℕ → Bool) where
  pub put_extension : Line → Bytes → Line × Bool
  unfolding add
  put_extension s extension =
      let r = add lower realloc grows 256 s.list extension (s.offset, length s.type) in
      (record s { list = r.0; count = s.count + 1; state = in_space }, r.1)

  -- The type is written in front of its first extension. Where that fails the line is left.
  pub with_type : Line → Bytes → Buffer × Bool → Line × Bool
  unfolding put_extension
  with_type s extension (b, false) =
      (record s { list = record s.list { buf = b }; state = in_space }, false)
  with_type s extension (b, true) =
      put_extension (record s { list = record s.list { buf = b }; offset = s.list.buf.used })
        extension

  unfoldable pub store_extension : Line → Bytes → Line × Bool
  unfolding with_type append
  store_extension s extension =
      if s.count == 0
      then with_type s extension (append realloc s.list.buf s.type)
      else put_extension s extension

  abbrev pub after_store : Line × Bool → Next
  after_store (s, true) = onward s
  after_store (s, false) = fails s

  -- A byte that does not end the line, in each state.
  pub on_byte : Line → LineState → ℕ → Next
  unfolding store_extension
  on_byte s start c =
      if c == b'#'
      then leaves s
      else if ltb b' ' c
      then onward (record s { type = c ∷ []; state = in_type })
      else if is_white_space c
      then onward s
      else leaves s
  on_byte s in_type c =
      if c == b'#'
      then leaves s
      else if ltb b' ' c
      then onward (record s { type = s.type ++ (c ∷ []) })
      else if is_white_space c
      then onward (record s { state = in_space })
      else leaves s
  on_byte s in_space c =
      if c == b'#'
      then leaves s
      else if ltb b' ' c
      then onward (record s { state = in_extension (c ∷ []) })
      else if is_white_space c
      then onward s
      else leaves s
  on_byte s (in_extension e) c =
      if c == b'#'
      then leaves (record s { state = in_space })
      else if ltb b' ' c
      then onward (record s { state = in_extension (e ++ (c ∷ [])) })
      else if is_white_space c
      then after_store (store_extension s e)
      else leaves (record s { state = in_space })

  -- Behind the loop: an extension at the end of the line.
  pub finish : Line → LineState → Line × Bool
  unfolding store_extension
  finish s (in_extension e) = store_extension s e
  finish s start = (s, true)
  finish s in_type = (s, true)
  finish s in_space = (s, true)

  unfoldable pub read_bytes : Line → Bytes → Line × Bool
  unfolding on_byte finish
  read_bytes s [] = finish s s.state
  read_bytes s (c ∷ bytes) = if ends_line c then finish s s.state else elim (on_byte s s.state c) [
    | onward t ↦ read_bytes t bytes
    | leaves t ↦ finish t t.state
    | fails t ↦ (t, false)
  ]

  -- A line of the file, with the list and whether `load` goes on.
  unfoldable pub read_line : TypeList → Bytes → TypeList × Bool
  unfolding read_bytes
  read_line l bytes =
      let r =
        read_bytes (record { list = l; type = []; offset = 0; count = 0; state = start }) bytes in
      (r.0.list, r.1)
