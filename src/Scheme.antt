-- ===== src/Scheme.antt =====
-- net/scheme.h and net/scheme.cpp: the schemes of URLs, and the search for one by its name.
pub mod Search
mod Examples
use gweb_plusplus.Base.{ℕ, List, [], ◌∷◌, Option, Bytes}
use gweb_plusplus.NameSearch.{lower, find_name}

-- `_M_schemes`; a scheme is its index.
abbrev pub schemes : List Bytes
schemes =
    (b'F' ∷ b'I' ∷ b'L' ∷ b'E' ∷ [])
    ∷ (b'F' ∷ b'T' ∷ b'P' ∷ [])
    ∷ (b'H' ∷ b'T' ∷ b'T' ∷ b'P' ∷ [])
    ∷ (b'H' ∷ b'T' ∷ b'T' ∷ b'P' ∷ b'S' ∷ [])
    ∷ (b'I' ∷ b'C' ∷ b'A' ∷ b'P' ∷ [])
    ∷ (b'I' ∷ b'M' ∷ b'A' ∷ b'P' ∷ [])
    ∷ (b'L' ∷ b'D' ∷ b'A' ∷ b'P' ∷ [])
    ∷ (b'M' ∷ b'A' ∷ b'I' ∷ b'L' ∷ b'T' ∷ b'O' ∷ [])
    ∷ (b'N' ∷ b'E' ∷ b'W' ∷ b'S' ∷ [])
    ∷ (b'N' ∷ b'F' ∷ b'S' ∷ [])
    ∷ (b'P' ∷ b'O' ∷ b'P' ∷ [])
    ∷ (b'T' ∷ b'E' ∷ b'L' ∷ b'N' ∷ b'E' ∷ b'T' ∷ [])
    ∷ []

abbrev pub unknown : ℕ
unknown = 255

unfoldable pub get_scheme : Bytes → Option ℕ
unfolding find_name
get_scheme string = find_name lower schemes unknown string
