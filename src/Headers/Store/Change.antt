-- ===== src/Headers/Store/Change.antt =====
-- http/http_headers.cpp: the operations that change the list of headers, and those that read a value.
use gweb_plusplus.Base.{
  ℕ, zero, suc, ◌+◌, ◌*◌, ◌/◌, ◌%◌, Bool, true, false, List, [], ◌∷◌, ◌++◌, Option, none, some, ltb,
  ◌==◌, if◌then◌else◌, Bytes, length, take, drop, get_elem?,
}
use gweb_plusplus.Headers.Table.{unknown_header, get_header}
use gweb_plusplus.Headers.Store.{
  Header, Store, slice, Key, known, other, key_header, key_data, key_namelen, search_key,
  clean_value,
}

abbrev pub insert_at : List Header → ℕ → Header → List Header
insert_at l pos e = take pos l ++ (e ∷ drop pos l)

abbrev pub change_at : List Header → ℕ → (Header → Header) → List Header
change_at [] pos f = []
change_at (e ∷ es) zero f = f e ∷ es
change_at (e ∷ es) (suc pos) f = e ∷ change_at es pos f

abbrev pub remove_at : List Header → ℕ → List Header
remove_at [] pos = []
remove_at (e ∷ es) zero = es
remove_at (e ∷ es) (suc pos) = e ∷ remove_at es pos

abbrev pub rounded : ℕ → ℕ
rounded n = (n / 1024 + (if n % 1024 == 0 then 0 else 1)) * 1024

module _ (realloc : ℕ → Bool) where
  unfoldable pub allocate : Store → Store × Bool
  allocate s =
      let size = s.size + 10 in
      if length s.headers == s.size
      then (if ltb 65535 size
          then (s, false)
          else if realloc size
          then (record s { size = size }, true)
          else (s, false))
      else (s, true)

  unfoldable pub allocate_data : Store → ℕ → Store × Bool
  allocate_data s len =
      let size = length s.data' + len in
      if ltb s.data_size size
      then (if ltb 65535 (rounded size)
          then (s, false)
          else if realloc (rounded size)
          then (record s { data_size = rounded size }, true)
          else (s, false))
      else (s, true)

  -- `&&` of the two allocations.
  unfoldable pub allocate_both : Store × Bool → ℕ → Store × Bool
  unfolding allocate_data
  allocate_both (s, true) len = allocate_data s len
  allocate_both (s, false) len = (s, false)

  -- A new entry at `pos`, with the value behind its name.
  unfoldable pub new_entry : Key → ℕ → Bytes → Store × Bool → Store × Bool
  new_entry k pos value (s, false) = (s, false)
  new_entry k pos value (s, true) =
      let start = length s.data' + length (key_data k) in
      let e : Header = record {
        header = key_header k;
        name = elim k [ known h ↦ 0 | other name ↦ length s.data' ];
        namelen = key_namelen k;
        value = start;
        valuelen = length value;
      } in
      (
        record s {
          headers = insert_at s.headers pos e;
          data' = s.data' ++ (key_data k ++ (value ++ (0 ∷ [])));
        },
        true,
      )

  -- The value of the entry at `pos` is replaced.
  unfoldable pub replace_entry : ℕ → Bytes → Store × Bool → Store × Bool
  replace_entry pos value (s, false) = (s, false)
  replace_entry pos value (s, true) = (
    record s {
      headers =
          change_at s.headers pos λ e. record e { value = length s.data'; valuelen = length value };
      data' = s.data' ++ (value ++ (0 ∷ []));
    },
    true,
  )

  -- The value is added to that of the entry, behind a comma; the old value is copied.
  unfoldable pub extend_entry : ℕ → Bytes → Bytes → Store × Bool → Store × Bool
  extend_entry pos old value (s, false) = (s, false)
  extend_entry pos old value (s, true) = (
    record s {
      headers =
          change_at s.headers pos
            λ e. record e { value = length s.data'; valuelen = e.valuelen + 2 + length value };
      data' = s.data' ++ (old ++ (b',' ∷ b' ' ∷ (value ++ (0 ∷ []))));
    },
    true,
  )

  unfoldable pub add_found : Store → ℕ → Bytes → Bool → Option Header → Store × Bool
  unfolding clean_value replace_entry extend_entry allocate_data slice
  add_found s pos value replace none = (s, false)
  add_found s pos value replace (some e) =
      if replace
      then replace_entry pos (clean_value value) (allocate_data s (length value + 1))
      else extend_entry pos (slice s.data' e.value e.valuelen) (clean_value value)
          (allocate_data s (e.valuelen + length value + 3))

  -- Behind the search. There is an entry where it has found one.
  unfoldable pub add_at : Store → Key → Bytes → Bool → ℕ × Bool → Store × Bool
  unfolding new_entry clean_value add_found allocate allocate_both
  add_at s k value replace (pos, true) = add_found s pos value replace (get_elem? s.headers pos)
  add_at s k value replace (pos, false) =
      new_entry k pos (clean_value value)
        (allocate_both (allocate s) (length (key_data k) + length value + 1))

  -- `add_known_header` and `add_unknown_header`, with the protected `add_header` written in.
  unfoldable pub add_key : Store → Key → Bytes → Bool → Store × Bool
  unfolding add_at search_key
  add_key s k value replace = add_at s k value replace (search_key s k)

unfoldable pub remove_key : Store → Key → Store × Bool
unfolding search_key
remove_key s k =
    let r = search_key s k in
    if r.1 then (record s { headers = remove_at s.headers r.0 }, true) else (s, false)

-- The value that `get_value_known_header` and `get_value_unknown_header` point to.
unfoldable pub value_at : Store → Option Header → Option Bytes
unfolding slice
value_at s none = none
value_at s (some e) = some (slice s.data' e.value e.valuelen)

unfoldable pub get_key : Store → Key → Option Bytes
unfolding value_at search_key
get_key s k = let r = search_key s k in if r.1 then value_at s (get_elem? s.headers r.0) else none

-- The key for a name. The search for a known header always returns.
unfoldable pub key_for : Bytes → Option ℕ → Key
key_for name none = other name
key_for name (some h) = if h == unknown_header then other name else known h

unfoldable pub key_of : Bytes → Key
unfolding key_for
key_of name = key_for name (get_header name)

unfoldable pub add_header : (ℕ → Bool) → Store → Bytes → Bytes → Bool → Store × Bool
unfolding add_key key_of
add_header realloc s name value replace = add_key realloc s (key_of name) value replace

unfoldable pub remove_header : Store → Bytes → Store × Bool
unfolding remove_key key_of
remove_header s name = remove_key s (key_of name)

unfoldable pub get_value : Store → Bytes → Option Bytes
unfolding get_key key_of
get_value s name = get_key s (key_of name)
