-- ===== src/PathList/Examples.antt =====
-- Lists of paths on concrete paths, and the theorem at one of them.
use gweb_plusplus.PathList.{add_string, string_exists}
use gweb_plusplus.Base.{Bool, true, false, [], ◌∷◌, some, ◌≡◌, refl}
use gweb_plusplus.NameSearch.{same, compare_names}
use gweb_plusplus.Buffer.{append, allocate}
use gweb_plusplus.SortedList.{SortedList, search, exists, strings_of, add}
use gweb_plusplus.PathList.{new_string_list, add_path, without_slash, path_exists}
use gweb_plusplus.PathList.Below.{IsBelow, path_exists-IsBelow}

-- `/a`
abbrev one_path : SortedList Unit
one_path = record {
  buf = record { data' = b'/' ∷ b'a' ∷ []; size = 4; used = 2; increment = 4 };
  entries = record { offset = 0; len = 2; payload = tt } ∷ [];
  size = 8;
}

-- `/a/b/` is below it, and `/ab` is not.
below_run : path_exists one_path (b'/' ∷ b'a' ∷ b'/' ∷ b'b' ∷ b'/' ∷ []) ≡ some true
unfolding path_exists search compare_names
below_run = refl

beside_run : path_exists one_path (b'/' ∷ b'a' ∷ b'b' ∷ []) ≡ some false
unfolding path_exists search compare_names
beside_run = refl

path_exists-IsBelow_example :
    (b : Bool) × (path_exists one_path (b'/' ∷ b'a' ∷ b'/' ∷ b'b' ∷ []) ≡ some b)
    × IsBelow (exists same one_path) (without_slash (b'/' ∷ b'a' ∷ b'/' ∷ b'b' ∷ [])) b
path_exists-IsBelow_example = path_exists-IsBelow one_path b'/' (b'a' ∷ b'/' ∷ b'b' ∷ [])

-- The slash at the end is left out.
add_path_run :
    strings_of (add_path 4096 (λ n. true) (λ n. true) new_string_list (b'/' ∷ b'a' ∷ b'/' ∷ [])).0
    ≡ (b'/' ∷ b'a' ∷ []) ∷ []
unfolding add_path new_string_list add search append allocate
add_path_run = refl

-- A string is found behind its addition, in the case it has.
string_run :
    (string_exists
        (add_string (λ n. true) (λ n. true) new_string_list (b'j' ∷ b's' ∷ [])).0
        (b'j' ∷ b's' ∷ [])
      ≡ true)
    × (string_exists
          (add_string (λ n. true) (λ n. true) new_string_list (b'j' ∷ b's' ∷ [])).0
          (b'J' ∷ b's' ∷ [])
        ≡ false)
unfolding string_exists add_string new_string_list exists add search append allocate compare_names
string_run = (refl, refl)
