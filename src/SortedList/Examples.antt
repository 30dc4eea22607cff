-- ===== src/SortedList/Examples.antt =====
-- Sorted lists of strings, and their theorems, on concrete strings.
use gweb_plusplus.Base.{ℕ, Bool, true, false, [], ◌∷◌, some, Bytes, arith, ◌≡◌, refl}
use gweb_plusplus.NameSearch.{lower, same, compare_names}
use gweb_plusplus.Buffer.{append, allocate}
use gweb_plusplus.SortedList.{SortedList, search, strings_of, add}
use gweb_plusplus.SortedList.Place.{IsPlace, search-IsPlace}
use gweb_plusplus.SortedList.Insert.Stored.{IsKept}
use gweb_plusplus.SortedList.Insert.Adds.{Adds, add-Adds}

abbrev enough_memory : ℕ → Bool
enough_memory n = true

abbrev gif_bytes : Bytes
gif_bytes = b'g' ∷ b'i' ∷ b'f' ∷ []

abbrev js_bytes : Bytes
js_bytes = b'j' ∷ b's' ∷ []

abbrev html_bytes : Bytes
html_bytes = b'H' ∷ b't' ∷ b'm' ∷ []

-- The search goes to the longer of two strings, and finds no place before `html`.
search_run : search lower (gif_bytes ∷ js_bytes ∷ []) html_bytes ≡ some (1, false)
unfolding search compare_names
search_run = refl

search_found_run : search same (gif_bytes ∷ js_bytes ∷ []) js_bytes ≡ some (1, true)
unfolding search compare_names
search_found_run = refl

search-IsPlace_example :
    (r : ℕ × Bool) × (search lower (gif_bytes ∷ js_bytes ∷ []) html_bytes ≡ some r)
    × IsPlace lower (gif_bytes ∷ js_bytes ∷ []) html_bytes r
search-IsPlace_example =
    search-IsPlace lower (gif_bytes ∷ js_bytes ∷ []) html_bytes ((refl, tt), (tt, tt))

-- `js` came before `gif`.
abbrev two_entries : SortedList Unit
two_entries = record {
  buf = record { data' = b'j' ∷ b's' ∷ b'g' ∷ b'i' ∷ b'f' ∷ []; size = 8; used = 5; increment = 8 };
  entries =
      record { offset = 2; len = 3; payload = tt }
      ∷ record { offset = 0; len = 2; payload = tt }
      ∷ [];
  size = 2;
}

two_entries-IsKept : IsKept lower two_entries
two_entries-IsKept = record {
  sound = record { written = omega arith; fits = omega arith; grows = omega arith };
  within = (omega arith, (omega arith, tt));
  sorted = ((refl, tt), (tt, tt));
}

add_run :
    strings_of (add lower enough_memory enough_memory 64 two_entries html_bytes tt).0
    ≡ gif_bytes ∷ html_bytes ∷ js_bytes ∷ []
unfolding add search compare_names append allocate
add_run = refl

add-Adds_example :
    Adds lower two_entries html_bytes
      (add lower enough_memory enough_memory 64 two_entries html_bytes tt)
add-Adds_example =
    add-Adds lower enough_memory enough_memory 64 two_entries html_bytes tt two_entries-IsKept
      (omega arith)
