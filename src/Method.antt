-- ===== src/Method.antt =====
-- http/http_method.h and http/http_method.cpp: the methods of requests, and the search for one by its
-- name, which must be in capitals.
pub mod Search
mod Examples
use gweb_plusplus.Base.{ℕ, List, [], ◌∷◌, Option, none, Bytes, ltb, if◌then◌else◌, get_elem?}
use gweb_plusplus.NameSearch.{same, find_name}

-- `_M_methods`; a method is its index.
abbrev pub methods : List Bytes
methods =
    (b'C' ∷ b'O' ∷ b'N' ∷ b'N' ∷ b'E' ∷ b'C' ∷ b'T' ∷ [])
    ∷ (b'C' ∷ b'O' ∷ b'P' ∷ b'Y' ∷ [])
    ∷ (b'D' ∷ b'E' ∷ b'L' ∷ b'E' ∷ b'T' ∷ b'E' ∷ [])
    ∷ (b'G' ∷ b'E' ∷ b'T' ∷ [])
    ∷ (b'H' ∷ b'E' ∷ b'A' ∷ b'D' ∷ [])
    ∷ (b'L' ∷ b'O' ∷ b'C' ∷ b'K' ∷ [])
    ∷ (b'M' ∷ b'K' ∷ b'C' ∷ b'O' ∷ b'L' ∷ [])
    ∷ (b'M' ∷ b'O' ∷ b'V' ∷ b'E' ∷ [])
    ∷ (b'O' ∷ b'P' ∷ b'T' ∷ b'I' ∷ b'O' ∷ b'N' ∷ b'S' ∷ [])
    ∷ (b'P' ∷ b'O' ∷ b'S' ∷ b'T' ∷ [])
    ∷ (b'P' ∷ b'R' ∷ b'O' ∷ b'P' ∷ b'F' ∷ b'I' ∷ b'N' ∷ b'D' ∷ [])
    ∷ (b'P' ∷ b'R' ∷ b'O' ∷ b'P' ∷ b'P' ∷ b'A' ∷ b'T' ∷ b'C' ∷ b'H' ∷ [])
    ∷ (b'P' ∷ b'U' ∷ b'T' ∷ [])
    ∷ (b'T' ∷ b'R' ∷ b'A' ∷ b'C' ∷ b'E' ∷ [])
    ∷ (b'U' ∷ b'N' ∷ b'L' ∷ b'O' ∷ b'C' ∷ b'K' ∷ [])
    ∷ []

abbrev pub unknown_method : ℕ
unknown_method = 63

-- The name of a method; 14 is `UNLOCK`.
pub method_name : ℕ → Option Bytes
method_name method = if ltb 14 method then none else get_elem? methods method

unfoldable pub get_method : Bytes → Option ℕ
unfolding find_name
get_method string = find_name same methods unknown_method string
