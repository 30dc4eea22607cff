-- ===== src/Scheme/Search.antt =====
-- net/scheme.cpp: which names the search for a scheme finds.
use gweb_plusplus.Base.{ℕ, Bytes, get_elem?, some, ◌≡◌, ◌⊎◌, refl}
use gweb_plusplus.NameSearch.{lower, compare_names, find_name}
use gweb_plusplus.NameSearch.Compare.{fold_all}
use gweb_plusplus.NameSearch.Rounds.{find_name_total}
use gweb_plusplus.NameSearch.Found.{
  Finds, IsLookup, IsNameAt, find_name_known, find_name-IsLookup, find_name-IsNameAt,
}
use gweb_plusplus.Scheme.{schemes, unknown, get_scheme}

schemes-Finds : Finds lower schemes unknown 0 schemes
unfolding find_name compare_names
schemes-Finds = (
  refl,
  (refl, (refl, (refl, (refl, (refl, (refl, (refl, (refl, (refl, (refl, (refl, tt))))))))))),
)

-- `get_scheme` returns, on any name.
pub get_scheme_total : (string : Bytes) → (i : ℕ) × (get_scheme string ≡ some i)
unfolding get_scheme
get_scheme_total string = find_name_total lower schemes unknown string

-- `get_scheme` finds each of the twelve names, in any case, and returns its index.
pub get_scheme_known :
    (i : ℕ) (name string : Bytes)
    → get_elem? schemes i ≡ some name
    → fold_all lower string ≡ fold_all lower name
    → get_scheme string ≡ some i
unfolding get_scheme
get_scheme_known i name string at e =
    find_name_known lower schemes unknown i name string schemes-Finds at e

-- What a result of the search says.
abbrev pub IsSchemeOf : Bytes → ℕ → Type 0
IsSchemeOf string i = (i ≡ unknown) ⊎ IsNameAt lower schemes unknown string i

-- What `get_scheme` returns is `UNKNOWN`, or the index of a name that differs from the string in
-- case alone.
pub get_scheme-IsSchemeOf :
    (string : Bytes) (i : ℕ) → get_scheme string ≡ some i → IsSchemeOf string i
unfolding get_scheme
get_scheme-IsSchemeOf string i e = find_name-IsNameAt lower schemes unknown string i e

-- `get_scheme` returns, for any string, the index of the scheme of that name, in any case, or
-- `UNKNOWN` where no scheme has it.
pub get_scheme-IsLookup :
    (string : Bytes) → IsLookup lower schemes unknown string (get_scheme string)
unfolding get_scheme
get_scheme-IsLookup string = find_name-IsLookup lower schemes unknown string schemes-Finds refl
