-- ===== src/Headers/Store.antt =====
-- http/http_headers.h and http/http_headers.cpp: the list of headers, and what adds to it, removes from it and
-- reads it. `_M_data` is the list of its bytes in use. Its size is never above 64512, so that no
-- `unsigned short` wraps around. Whether `realloc` succeeds for a size is a parameter.
pub mod Change
pub mod View
pub mod Walk
pub mod Fields
pub mod Room
pub mod Entries
pub mod Adds
pub mod Refines
pub mod Calls
pub mod Reads
pub mod Laws
mod Examples
use gweb_plusplus.Base.{
  ℕ, zero, suc, ◌+◌, ◌-◌, ◌*◌, ◌/◌, ◌%◌, Bool, true, false, not, ◌&&◌, ◌||◌, List, [], ◌∷◌, ◌++◌,
  Option, none, some, ltb, leb, ◌==◌, if◌then◌else◌, Bytes, length, take, drop, get_elem?,
}
use Prim.Native.Nat.{Ordering}
use gweb_plusplus.NameSearch.{lower, compare_names}
use gweb_plusplus.Headers.Table.{KnownHeader, known_headers, unknown_header, get_header}

-- `http_header`: the name and the value are offsets into the data. A known header has no name there: the
-- source leaves the offset unset, and it is 0 here.
pub record Header : Type 0 where
  pub header : ℕ
  pub name : ℕ
  pub namelen : ℕ
  pub value : ℕ
  pub valuelen : ℕ

pub record Store : Type 0 where
  pub headers : List Header
  pub size : ℕ
  pub data' : Bytes
  pub data_size : ℕ

abbrev pub no_headers : Store
no_headers = record { headers = []; size = 0; data' = []; data_size = 0 }

-- `_M_known_http_headers[header]`, for an index of the table.
abbrev pub known_at : ℕ → (KnownHeader → ℕ) → ℕ
known_at header f = elim (get_elem? known_headers header) [ none ↦ 0 | some k ↦ f k ]

pub type_of : ℕ → ℕ
type_of header = known_at header (λ k. k.type)

pub namelen_of : ℕ → ℕ
namelen_of header = known_at header (λ k. length k.name)

pub is_multiple : ℕ → Bool
is_multiple header = elim (get_elem? known_headers header) [
  | none ↦ false
  | some k ↦ k.force_multiple_header_fields
]

-- The two tests of `search` for a known header: the entry is the header, and no later entry is.
pub is_found : ℕ → ℕ → Bool
is_found header entry = header == entry && not (is_multiple header)

pub is_past : ℕ → ℕ → Bool
is_past header entry = entry == unknown_header || ltb (type_of header) (type_of entry)

-- `pos`, and whether the header is there.
pub search_known : ℕ → List Header → ℕ → ℕ × Bool
unfolding is_found is_past
search_known header [] pos = (pos, false)
search_known header (e ∷ es) pos =
    let rest = search_known header es (pos + 1) in
    if is_found header e.header
    then (pos, true)
    else if is_past header e.header
    then (pos, false)
    else rest

-- `len` bytes of the data at an offset.
pub slice : Bytes → ℕ → ℕ → Bytes
slice d at len = take len (drop at d)

abbrev pub is_eq : Ordering → Bool
is_eq Ordering.eq = true
is_eq _ = false

pub is_named : Bytes → Bytes → Header → Bool
unfolding slice
is_named d name e =
    e.header == unknown_header
    && length name == e.namelen
    && is_eq (compare_names lower name (slice d e.name e.namelen) (length name))

pub search_unknown : Bytes → Bytes → List Header → ℕ → ℕ × Bool
unfolding is_named
search_unknown d name [] pos = (pos, false)
search_unknown d name (e ∷ es) pos =
    let rest = search_unknown d name es (pos + 1) in if is_named d name e then (pos, true) else rest

-- The key of a call: a known header, or the name of another.
pub data Key : Type 0 where
  known : ℕ → Key
  other : Bytes → Key

pub search_key : Store → Key → ℕ × Bool
unfolding search_known search_unknown
search_key s (known h) = search_known h s.headers 0
search_key s (other name) = search_unknown s.data' name s.headers 0

abbrev pub key_header : Key → ℕ
key_header (known h) = h
key_header (other name) = unknown_header

-- A name that is copied in front of the value, with a NUL.
abbrev pub key_data : Key → Bytes
key_data (known h) = []
key_data (other name) = name ++ (0 ∷ [])

abbrev pub key_namelen : Key → ℕ
key_namelen (known h) = namelen_of h
key_namelen (other name) = length name

-- The states of `clean_value`.
pub data CleanState : Type 0 where
  at_start in_word after_word : CleanState

abbrev pub next_state : CleanState → Bool → CleanState
next_state at_start true = in_word
next_state at_start false = at_start
next_state in_word true = in_word
next_state in_word false = after_word
next_state after_word true = in_word
next_state after_word false = after_word

-- What a byte writes, in front of the rest. `graphic` is `c > ' '`.
abbrev pub emit : CleanState → Bool → ℕ → Bytes → Bytes
emit st true c rest = c ∷ rest
emit in_word false c rest = b' ' ∷ rest
emit _ false c rest = rest

pub clean_from : CleanState → Bytes → Bytes
clean_from st [] = []
clean_from st (c ∷ cs) =
    let graphic = ltb b' ' c in emit st graphic c (clean_from (next_state st graphic) cs)

pub clean_value : Bytes → Bytes
unfolding clean_from
clean_value value = clean_from at_start value
