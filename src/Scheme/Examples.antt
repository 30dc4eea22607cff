-- ===== src/Scheme/Examples.antt =====
-- The search for a scheme on concrete names, and its theorems at one of them.
use gweb_plusplus.Base.{[], ◌∷◌, some, ◌≡◌, refl, Bytes}
use gweb_plusplus.Scheme.{get_scheme, unknown}
use gweb_plusplus.NameSearch.{compare_names}

abbrev https : Bytes
https = b'h' ∷ b't' ∷ b'T' ∷ b'p' ∷ b'S' ∷ []

-- `HT` is the start of a name, and no name.
start_run : get_scheme (b'H' ∷ b'T' ∷ []) ≡ some unknown
unfolding get_scheme compare_names
start_run = refl
