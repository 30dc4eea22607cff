-- ===== src/Headers/Parse/Examples.antt =====
-- http/http_headers.cpp: `parse` on concrete blocks.
use gweb_plusplus.Base.{ℕ, Bool, true, false, [], ◌∷◌, ◌++◌, Bytes, arith, ◌≡◌, refl}
use gweb_plusplus.Base.{List}
use gweb_plusplus.Headers.Parse.{reset}
use gweb_plusplus.Headers.Store.Change.{add_header}
use gweb_plusplus.Base.{length}
use gweb_plusplus.Headers.Parse.{is_printable}
use gweb_plusplus.NameSearch.{compare_names}
use gweb_plusplus.Headers.Table.{get_header, unknown_header}
use gweb_plusplus.Headers.Store.{no_headers}
use gweb_plusplus.Headers.Store.Change.{add_key}
use gweb_plusplus.Headers.Store.View.{view}
use gweb_plusplus.Headers.Parse.{
  Parser, error_wrong_headers, end_of_header, start, parse, might_have_commas,
}
use gweb_plusplus.Headers.Parse.Places.{IsReading}
use gweb_plusplus.Headers.Parse.Extent.{Ends, parse-Ends}
use gweb_plusplus.Headers.Parse.Lines.{Line, print, add_lines}
use gweb_plusplus.Headers.Parse.Blocks.{outcome}
use gweb_plusplus.Headers.Parse.Printed.{parse-print}
use gweb_plusplus.Headers.Parse.Split.{resume, parse-append}

abbrev always : ℕ → Bool
always n = true

abbrev new_parser : Parser
new_parser = record {
  store = no_headers;
  ignore_errors = false;
  offset = 0;
  token = 0;
  end' = 0;
  name = 0;
  namelen = 0;
  state = start;
  header = unknown_header;
  crlfs = 1;
}

new_parser-IsReading : IsReading new_parser
new_parser-IsReading = (
  record {
    at = refl;
    sound = record { inside = tt; slots = omega arith; fits = omega arith; small = omega arith };
    token_le = omega arith;
    end_le = omega arith;
    name_fits = λ e. omega arith;
    value_fits = refl;
  },
  omega arith,
)

-- `X: a`, a folded line with `b`, and the start of `age:1`.
abbrev first_part : Bytes
first_part = b'X' ∷ b':' ∷ b' ' ∷ b'a' ∷ 13 ∷ 10 ∷ 9 ∷ b'b' ∷ b' ' ∷ 13 ∷ 10 ∷ b'a' ∷ b'g' ∷ []

abbrev second_part : Bytes
second_part = b'e' ∷ b':' ∷ b'1' ∷ 13 ∷ 10 ∷ 13 ∷ 10 ∷ b'!' ∷ []

abbrev second_age : Bytes
second_age = b'A' ∷ b'g' ∷ b'e' ∷ b':' ∷ b'2' ∷ 10 ∷ b'A' ∷ b'G' ∷ b'E' ∷ b':' ∷ b'3' ∷ 10 ∷ 10 ∷ []

parse-Ends_example : Ends first_part (parse always first_part new_parser)
parse-Ends_example = parse-Ends always first_part new_parser new_parser-IsReading (omega arith)

parse-append_example :
    parse always (first_part ++ second_part) new_parser
    ≡ resume always (first_part ++ second_part) (parse always first_part new_parser)
parse-append_example =
    parse-append always first_part second_part new_parser new_parser-IsReading (omega arith)

-- The body starts at byte 20.
result_run : (parse always (first_part ++ second_part) new_parser).1 ≡ end_of_header 20
unfolding parse add_key get_header compare_names might_have_commas
result_run = refl

-- The known header stands in front, and the folded value is cleaned.
fields_run :
    view (parse always (first_part ++ second_part) new_parser).0.store
    ≡ record { header = 5; name = []; value = b'1' ∷ [] }
      ∷ record { header = unknown_header; name = b'X' ∷ []; value = b'a' ∷ b' ' ∷ b'b' ∷ [] }
      ∷ []
unfolding parse add_key get_header compare_names might_have_commas
fields_run = refl

-- A header of one field comes twice.
repeated_run : (parse always second_age new_parser).1 ≡ error_wrong_headers
unfolding parse add_key get_header compare_names might_have_commas
repeated_run = refl

abbrev lines : List Line
lines =
    record { name = b'H' ∷ b'o' ∷ b's' ∷ b't' ∷ []; value = b'h' ∷ [] }
    ∷ record { name = b'Z' ∷ []; value = b'1' ∷ [] }
    ∷ record { name = b'z' ∷ []; value = b'2' ∷ [] }
    ∷ []

parse-print_example :
    outcome (parse always (print lines) (reset new_parser))
    ≡ add_lines always false (length (print lines)) lines (reset new_parser).store
unfolding print is_printable
parse-print_example =
    parse-print always new_parser lines
      (
        ((refl, (refl, (refl, (refl, tt)))), (refl, tt)),
        (((refl, tt), (refl, tt)), (((refl, tt), (refl, tt)), tt)),
      )
      (omega arith)

-- `Z` has both values.
lines_run :
    view (add_lines always false 27 lines no_headers).0
    ≡ record { header = 23; name = []; value = b'h' ∷ [] }
      ∷ record { header = unknown_header; name = b'Z' ∷ []; value = b'1' ∷ b',' ∷ b' ' ∷ b'2' ∷ [] }
      ∷ []
unfolding add_lines add_header add_key get_header compare_names might_have_commas
lines_run = refl
