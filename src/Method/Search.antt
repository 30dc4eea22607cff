-- ===== src/Method/Search.antt =====
-- http/http_method.cpp: which methods the search finds.
use gweb_plusplus.Base.{Bytes, ℕ, some, ◌≡◌, refl, inl, inr, Bool-cases, ltb}
use gweb_plusplus.NameSearch.{same, compare_names, find_name}
use gweb_plusplus.NameSearch.Found.{Finds, IsLookup, find_name-IsLookup, find_name_known}
use gweb_plusplus.Method.{methods, unknown_method, get_method, method_name}

methods-Finds : Finds same methods unknown_method 0 methods
unfolding find_name compare_names
methods-Finds = (
  refl,
  (
    refl,
    (
      refl,
      (
        refl,
        (refl, (refl, (refl, (refl, (refl, (refl, (refl, (refl, (refl, (refl, (refl, tt))))))))))),
      ),
    ),
  ),
)

-- `http_method::get_method` returns, for any string, the index of the method of just that name, or
-- `UNKNOWN` where there is none.
pub get_method-IsLookup :
    (string : Bytes) → IsLookup same methods unknown_method string (get_method string)
unfolding get_method
get_method-IsLookup string =
    find_name-IsLookup same methods unknown_method string methods-Finds refl

-- The name that `get_method` returns for a method is read back to the method.
pub get_method-method_name :
    (method : ℕ) (name : Bytes) → method_name method ≡ some name → get_method name ≡ some method
unfolding get_method method_name
get_method-method_name method name e = elim (Bool-cases (ltb 14 method)) [
  | inl d ↦ cc (rw d at e)
  | inr d ↦
      find_name_known same methods unknown_method method name name methods-Finds (rw d at e) refl
]
