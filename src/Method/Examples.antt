-- ===== src/Method/Examples.antt =====
-- The search for a method at concrete names, and its theorems at one of them.
use gweb_plusplus.Base.{[], ◌∷◌, some, ◌≡◌, refl, Bytes}
use gweb_plusplus.NameSearch.{compare_names}
use gweb_plusplus.Method.{get_method, unknown_method}

abbrev get : Bytes
get = b'G' ∷ b'E' ∷ b'T' ∷ []

-- The case matters.
lower_case_run : get_method (b'g' ∷ b'e' ∷ b't' ∷ []) ≡ some unknown_method
unfolding get_method compare_names
lower_case_run = refl
