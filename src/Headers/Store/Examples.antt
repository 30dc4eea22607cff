-- ===== src/Headers/Store/Examples.antt =====
-- http/http_headers.cpp: headers that are added, read and removed.
use gweb_plusplus.Base.{ℕ, Bool, true, false, [], ◌∷◌, some, ltb, Bytes, arith, ◌≡◌, refl}
use gweb_plusplus.NameSearch.{compare_names}
use gweb_plusplus.Headers.Table.{unknown_header, get_header}
use gweb_plusplus.Headers.Store.{Header, Store, no_headers, known, other, clean_value, is_multiple}
use gweb_plusplus.Headers.Store.Change.{add_key, remove_key, get_key, remove_header, get_value}
use gweb_plusplus.Headers.Store.View.{view, put, get}
use gweb_plusplus.Headers.Store.Room.{Gives, IsSound}
use gweb_plusplus.Headers.Store.Calls.{add_key-Gives}
use gweb_plusplus.Headers.Store.Reads.{get_key-get, IsRemoved, remove_key-delete}
use gweb_plusplus.Headers.Store.Laws.{added_to, get_key-add_key}

abbrev always : ℕ → Bool
always n = true

abbrev up_to_one_kb : ℕ → Bool
up_to_one_kb n = ltb n 1025

-- `Host: a` and `X: bc`.
abbrev host : Header
host = record { header = 23; name = 0; namelen = 4; value = 0; valuelen = 1 }

abbrev x : Header
x = record { header = unknown_header; name = 2; namelen = 1; value = 4; valuelen = 2 }

abbrev two : Store
two = record {
  headers = host ∷ x ∷ [];
  size = 10;
  data' = b'a' ∷ 0 ∷ b'X' ∷ 0 ∷ b'b' ∷ b'c' ∷ 0 ∷ [];
  data_size = 1024;
}

two-IsSound : IsSound two
two-IsSound = record {
  inside = (
    record { value_le = omega arith; name_le = λ e. omega arith },
    (record { value_le = omega arith; name_le = λ e. omega arith }, tt),
  );
  slots = omega arith;
  fits = omega arith;
  small = omega arith;
}

abbrev new_value : Bytes
new_value = b' ' ∷ b'd' ∷ b' ' ∷ b' ' ∷ b'e' ∷ []

add_key-Gives_example :
    Gives two
      (put (other (b'x' ∷ [])) (clean_value new_value) false (view two))
      (add_key up_to_one_kb two (other (b'x' ∷ [])) new_value false)
add_key-Gives_example =
    add_key-Gives up_to_one_kb two (other (b'x' ∷ [])) new_value false two-IsSound tt

get_key-get_example : get_key two (other (b'x' ∷ [])) ≡ get (other (b'x' ∷ [])) (view two)
get_key-get_example = get_key-get two (other (b'x' ∷ [])) two-IsSound

remove_key-delete_example : IsRemoved two (known 23) (remove_key two (known 23))
remove_key-delete_example = remove_key-delete two (known 23) two-IsSound

-- `x: d e` behind a comma.
abbrev three : Store
three = (add_key always two (other (b'x' ∷ [])) new_value false).0

get_key-add_key_example :
    get_key three (other (b'x' ∷ []))
    ≡ some (added_to false (clean_value new_value) (get_key two (other (b'x' ∷ []))))
unfolding add_key compare_names
get_key-add_key_example =
    get_key-add_key always two three (other (b'x' ∷ [])) new_value false two-IsSound tt tt refl

-- A value is cleaned and joins the old one.
three_x : get_value three (b'X' ∷ []) ≡ some (b'b' ∷ b'c' ∷ b',' ∷ b' ' ∷ b'd' ∷ b' ' ∷ b'e' ∷ [])
unfolding get_value add_key compare_names get_header
three_x = refl

-- A header under a name of the table, in any case.
three_host : get_value three (b'h' ∷ b'O' ∷ b's' ∷ b't' ∷ []) ≡ some (b'a' ∷ [])
unfolding get_value add_key compare_names get_header is_multiple
three_host = refl

-- No entry to remove.
nothing_to_remove : (remove_header no_headers (b'X' ∷ [])).1 ≡ false
unfolding remove_header compare_names get_header
nothing_to_remove = refl
