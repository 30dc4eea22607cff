-- ===== src/Headers/Parse/Lines.antt =====
-- http/http_headers.cpp: blocks of lines as `name: value`, and the headers that they add one by one.
use gweb_plusplus.Base.{
  ℕ, Bool, true, false, not, ◌&&◌, List, [], ◌∷◌, ◌++◌, ltb, ◌==◌, if◌then◌else◌, Bytes, All, ◌≡◌,
}
use gweb_plusplus.Headers.Table.{unknown_header}
use gweb_plusplus.Headers.Store.{Store}
use gweb_plusplus.Headers.Store.Change.{add_header}
use gweb_plusplus.Headers.Parse.{
  ParseResult, error_no_memory, error_wrong_headers, end_of_header, header_of, is_there,
  might_have_commas, is_printable,
}

pub record Line : Type 0 where
  pub name : Bytes
  pub value : Bytes

abbrev pub is_name_byte : ℕ → Bool
is_name_byte c = is_printable c && not (c == b':')

abbrev pub is_graphic : ℕ → Bool
is_graphic c = ltb b' ' c

-- A text that is not empty, of bytes that pass a test.
abbrev pub IsWord : (ℕ → Bool) → Bytes → Type 0
IsWord test [] = ⊥
IsWord test (c ∷ cs) = (test c ≡ true) × All (λ d. test d ≡ true) cs

abbrev pub IsLine : Line → Type 0
IsLine l = IsWord is_name_byte l.name × IsWord is_graphic l.value

abbrev pub print_line : Line → Bytes → Bytes
print_line l rest = l.name ++ (b':' ∷ b' ' ∷ (l.value ++ (13 ∷ 10 ∷ rest)))

-- The lines, and an empty one.
unfoldable pub print : List Line → Bytes
print [] = 13 ∷ 10 ∷ []
print (l ∷ ls) = print_line l (print ls)

-- The header may stand in one field only, and is there.
abbrev pub is_refused : Bool → Store → ℕ → Bool
is_refused ignore_errors s header =
    not ignore_errors && not (might_have_commas header) && is_there header s.headers

abbrev pub and_then : (Store → Store × ParseResult) → Store × Bool → Store × ParseResult
and_then next (s, true) = next s
and_then next (s, false) = (s, error_no_memory)

module _ (realloc : ℕ → Bool) (ignore_errors : Bool) (body : ℕ) where
  -- The calls of `add_header` for the lines, and their outcome: unless errors are ignored, a header that
  -- may stand in one field only must not be there already.
  unfoldable pub add_lines : List Line → Store → Store × ParseResult
  unfolding is_there
  add_lines [] s = (s, end_of_header body)
  add_lines (l ∷ ls) s =
      if not (header_of l.name == unknown_header) && is_refused ignore_errors s (header_of l.name)
      then (s, error_wrong_headers)
      else and_then (λ t. add_lines ls t) (add_header realloc s l.name l.value false)
