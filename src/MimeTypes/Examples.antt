-- ===== src/MimeTypes/Examples.antt =====
-- A line of the file of types, and the theorem at it.
use gweb_plusplus.Base.{ℕ, Bool, true, List, [], ◌∷◌, ◌++◌, none, some, Bytes, arith, ◌≡◌, refl}
use gweb_plusplus.NameSearch.{compare_names}
use gweb_plusplus.Buffer.{new_buffer, set_buffer_increment, append, allocate}
use gweb_plusplus.SortedList.{search, add}
use gweb_plusplus.MimeTypes.{TypeList, new_type_list, get_mime_type, read_line, store_extension}
use gweb_plusplus.MimeTypes.Lines.{extensions_text}
use gweb_plusplus.MimeTypes.Adds.{IsLoaded}
use gweb_plusplus.MimeTypes.Types.{given, read_line-given}

abbrev enough_memory : ℕ → Bool
enough_memory n = true

-- `t/h`, for `htm` and `HT`.
abbrev one_type : Bytes
one_type = b't' ∷ b'/' ∷ b'h' ∷ []

abbrev two_extensions : List Bytes
two_extensions = (b'h' ∷ b't' ∷ b'm' ∷ []) ∷ (b'H' ∷ b'T' ∷ []) ∷ []

abbrev loaded : TypeList
loaded =
    (read_line enough_memory enough_memory new_type_list
      (one_type ++ extensions_text two_extensions [])).0

-- Both have the type, in upper case or in lower; an extension of another has not.
found_run : get_mime_type loaded (b'H' ∷ b'T' ∷ b'M' ∷ []) ≡ some one_type
unfolding get_mime_type read_line new_type_list store_extension add search compare_names append
    allocate
found_run = refl

other_run : get_mime_type loaded (b'h' ∷ []) ≡ none
unfolding get_mime_type read_line new_type_list store_extension add search compare_names append
    allocate
other_run = refl

empty-IsLoaded : IsLoaded new_type_list
unfolding new_type_list new_buffer set_buffer_increment
empty-IsLoaded = (
  record {
    sound = record { written = omega arith; fits = omega arith; grows = omega arith };
    within = tt;
    sorted = tt;
  },
  tt,
)

read_line-given_example :
    (l' : TypeList) × (read_line enough_memory enough_memory new_type_list
        (one_type ++ extensions_text two_extensions [])
      ≡ (l', true))
    × IsLoaded l'
    × ((x : Bytes)
        → get_mime_type l' x ≡ given (get_mime_type new_type_list x) two_extensions one_type x)
unfolding new_type_list new_buffer set_buffer_increment
read_line-given_example =
    read_line-given enough_memory enough_memory new_type_list b't' (b'/' ∷ b'h' ∷ [])
      (b'h' ∷ b't' ∷ b'm' ∷ []) ((b'H' ∷ b'T' ∷ []) ∷ []) [] (λ n. refl) (λ n. refl) empty-IsLoaded
      ((omega arith, λ e. cc), ((omega arith, λ e. cc), ((omega arith, λ e. cc), tt)))
      (
        (
          (λ e. cc),
          ((omega arith, λ e. cc), ((omega arith, λ e. cc), ((omega arith, λ e. cc), tt))),
        ),
        (((λ e. cc), ((omega arith, λ e. cc), ((omega arith, λ e. cc), tt))), tt),
      )
      (omega arith)
