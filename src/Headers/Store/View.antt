-- ===== src/Headers/Store/View.antt =====
-- http/http_headers.cpp: the headers as a list of fields, with names and values in place of offsets, and the
-- operations on it that the store is to implement.
use gweb_plusplus.Base.{
  ℕ, ◌+◌, ◌≤◌, Bool, true, false, ◌&&◌, List, [], ◌∷◌, ◌++◌, Option, none, some, ◌==◌,
  if◌then◌else◌, Bytes, length, map, All, ◌≡◌, take-append, drop-append, length-drop, length-append,
  drop, refl, ap, arith, Bool-cases, inl, inr,
}
use gweb_plusplus.NameSearch.{lower, compare_names}
use gweb_plusplus.Headers.Table.{unknown_header}
use gweb_plusplus.Headers.Store.{Header, Store, slice, is_found, is_past, is_eq, Key, known, other}

pub record Field : Type 0 where
  pub header : ℕ
  pub name : Bytes
  pub value : Bytes

-- A known header has no name of its own.
abbrev pub resolve : Bytes → Header → Field
resolve d e = record {
  header = e.header;
  name = if e.header == unknown_header then slice d e.name e.namelen else [];
  value = slice d e.value e.valuelen;
}

abbrev pub view : Store → List Field
view s = map (resolve s.data') s.headers

abbrev pub same_name : Bytes → Bytes → Bool
same_name name m = length name == length m && is_eq (compare_names lower name m (length name))

-- The field is the one that the key stands for.
abbrev pub is_for : Key → Field → Bool
is_for (known h) f = is_found h f.header
is_for (other name) f = f.header == unknown_header && same_name name f.name

-- A field of the key would stand before this one.
abbrev pub is_after : Key → Field → Bool
is_after (known h) f = is_past h f.header
is_after (other name) f = false

abbrev pub field : Key → Bytes → Field
field (known h) value = record { header = h; name = []; value = value }
field (other name) value = record { header = unknown_header; name = name; value = value }

-- A value joins an old one behind a comma.
abbrev pub joined : Bool → Bytes → Bytes → Bytes
joined true old value = value
joined false old value = old ++ (b',' ∷ b' ' ∷ value)

unfoldable pub put : Key → Bytes → Bool → List Field → List Field
put k value replace [] = field k value ∷ []
put k value replace (f ∷ fs) =
    let rest = put k value replace fs in
    if is_for k f
    then record f { value = joined replace f.value value } ∷ fs
    else if is_after k f
    then field k value ∷ f ∷ fs
    else f ∷ rest

unfoldable pub get : Key → List Field → Option Bytes
get k [] = none
get k (f ∷ fs) =
    let rest = get k fs in if is_for k f then some f.value else if is_after k f then none else rest

unfoldable pub delete : Key → List Field → List Field
delete k [] = []
delete k (f ∷ fs) =
    let rest = delete k fs in if is_for k f then fs else if is_after k f then f ∷ fs else f ∷ rest

-- Whether there is such a field.
abbrev pub is_some : Option Bytes → Bool
is_some none = false
is_some (some value) = true

-- An entry's offsets lie within the data.
pub record IsInside (d : Bytes) (e : Header) : Type 0 where
  pub value_le : e.value + e.valuelen ≤ length d
  pub name_le : e.header ≡ unknown_header → e.name + e.namelen ≤ length d

pub slice-append :
    (d x : Bytes) (at len : ℕ) → at + len ≤ length d → slice (d ++ x) at len ≡ slice d at len
unfolding slice
slice-append d x at len le =
    rw (drop-append at d x (omega arith))
      (take-append len (drop at d) x (omega (arith, length-drop at d)))

pub resolve-append : (d x : Bytes) (e : Header) → IsInside d e → resolve (d ++ x) e ≡ resolve d e
resolve-append d x e v = elim (Bool-cases (e.header == unknown_header)) [
  | inl u ↦ rw u (
      rw (slice-append d x e.value e.valuelen v.value_le)
        (rw (slice-append d x e.name e.namelen (v.name_le (ground arith))) refl))
  | inr u ↦ rw u (rw (slice-append d x e.value e.valuelen v.value_le) refl)
]

pub map-resolve-append :
    (d x : Bytes) (es : List Header)
    → All (IsInside d) es
    → map (resolve (d ++ x)) es ≡ map (resolve d) es
map-resolve-append d x [] h = refl
map-resolve-append d x (e ∷ es) h =
    rw (resolve-append d x e h.0) (ap (◌∷◌ (resolve d e)) (map-resolve-append d x es h.1))

pub IsInside-append : (d x : Bytes) (e : Header) → IsInside d e → IsInside (d ++ x) e
IsInside-append d x e v = record {
  value_le = omega (arith, length-append d x, v.value_le);
  name_le = λ u. omega (arith, length-append d x, v.name_le u);
}
