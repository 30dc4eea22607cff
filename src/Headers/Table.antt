-- ===== src/Headers/Table.antt =====
-- http/http_headers.h and http/http_headers.cpp: the table of known headers, and the search for one by its
-- name. The headers are the indices of the table.
use gweb_plusplus.Base.{ℕ, Bool, true, false, List, [], ◌∷◌, Option, Bytes}
use gweb_plusplus.NameSearch.{lower, find_name}

-- `GENERAL_HEADER_FIELD` to `ENTITY_HEADER_FIELD`.
abbrev pub general : ℕ
general = 0

abbrev pub request : ℕ
request = 1

abbrev pub response : ℕ
response = 2

abbrev pub entity : ℕ
entity = 3

-- `known_http_header`; the length is that of the name.
pub record KnownHeader : Type 0 where
  pub name : Bytes
  pub type : ℕ
  pub might_have_commas : Bool
  pub single_token : Bool
  pub force_multiple_header_fields : Bool

abbrev known : Bytes → ℕ → Bool → Bool → Bool → KnownHeader
known name type commas single multiple = record {
  name = name;
  type = type;
  might_have_commas = commas;
  single_token = single;
  force_multiple_header_fields = multiple;
}

-- `_M_known_http_headers`
abbrev pub known_headers : List KnownHeader
known_headers =
    known (b'A' ∷ b'c' ∷ b'c' ∷ b'e' ∷ b'p' ∷ b't' ∷ []) request true false false
    ∷ known
        (b'A' ∷ b'c' ∷ b'c' ∷ b'e' ∷ b'p' ∷ b't' ∷ b'-' ∷ b'C' ∷ b'h' ∷ b'a' ∷ b'r' ∷ b's' ∷ b'e'
          ∷ b't' ∷ [])
        request true false false
    ∷ known
        (b'A' ∷ b'c' ∷ b'c' ∷ b'e' ∷ b'p' ∷ b't' ∷ b'-' ∷ b'E' ∷ b'n' ∷ b'c' ∷ b'o' ∷ b'd' ∷ b'i'
          ∷ b'n' ∷ b'g' ∷ [])
        request true false false
    ∷ known
        (b'A' ∷ b'c' ∷ b'c' ∷ b'e' ∷ b'p' ∷ b't' ∷ b'-' ∷ b'L' ∷ b'a' ∷ b'n' ∷ b'g' ∷ b'u' ∷ b'a'
          ∷ b'g' ∷ b'e' ∷ [])
        request true false false
    ∷ known
        (b'A' ∷ b'c' ∷ b'c' ∷ b'e' ∷ b'p' ∷ b't' ∷ b'-' ∷ b'R' ∷ b'a' ∷ b'n' ∷ b'g' ∷ b'e' ∷ b's'
          ∷ [])
        response true false false
    ∷ known (b'A' ∷ b'g' ∷ b'e' ∷ []) response false true false
    ∷ known (b'A' ∷ b'l' ∷ b'l' ∷ b'o' ∷ b'w' ∷ []) entity true false false
    ∷ known
        (b'A' ∷ b'u' ∷ b't' ∷ b'h' ∷ b'o' ∷ b'r' ∷ b'i' ∷ b'z' ∷ b'a' ∷ b't' ∷ b'i' ∷ b'o' ∷ b'n'
          ∷ [])
        request false false false
    ∷ known
        (b'C' ∷ b'a' ∷ b'c' ∷ b'h' ∷ b'e' ∷ b'-' ∷ b'C' ∷ b'o' ∷ b'n' ∷ b't' ∷ b'r' ∷ b'o' ∷ b'l'
          ∷ [])
        general true false false
    ∷ known (b'C' ∷ b'o' ∷ b'n' ∷ b'n' ∷ b'e' ∷ b'c' ∷ b't' ∷ b'i' ∷ b'o' ∷ b'n' ∷ []) general true
        false false
    ∷ known
        (b'C' ∷ b'o' ∷ b'n' ∷ b't' ∷ b'e' ∷ b'n' ∷ b't' ∷ b'-' ∷ b'E' ∷ b'n' ∷ b'c' ∷ b'o' ∷ b'd'
          ∷ b'i' ∷ b'n' ∷ b'g' ∷ [])
        entity true false false
    ∷ known
        (b'C' ∷ b'o' ∷ b'n' ∷ b't' ∷ b'e' ∷ b'n' ∷ b't' ∷ b'-' ∷ b'L' ∷ b'a' ∷ b'n' ∷ b'g' ∷ b'u'
          ∷ b'a' ∷ b'g' ∷ b'e' ∷ [])
        entity true false false
    ∷ known
        (b'C' ∷ b'o' ∷ b'n' ∷ b't' ∷ b'e' ∷ b'n' ∷ b't' ∷ b'-' ∷ b'L' ∷ b'e' ∷ b'n' ∷ b'g' ∷ b't'
          ∷ b'h' ∷ [])
        entity false true false
    ∷ known
        (b'C' ∷ b'o' ∷ b'n' ∷ b't' ∷ b'e' ∷ b'n' ∷ b't' ∷ b'-' ∷ b'L' ∷ b'o' ∷ b'c' ∷ b'a' ∷ b't'
          ∷ b'i' ∷ b'o' ∷ b'n' ∷ [])
        entity false true false
    ∷ known (b'C' ∷ b'o' ∷ b'n' ∷ b't' ∷ b'e' ∷ b'n' ∷ b't' ∷ b'-' ∷ b'M' ∷ b'D' ∷ b'5' ∷ []) entity
        false true false
    ∷ known
        (b'C' ∷ b'o' ∷ b'n' ∷ b't' ∷ b'e' ∷ b'n' ∷ b't' ∷ b'-' ∷ b'R' ∷ b'a' ∷ b'n' ∷ b'g' ∷ b'e'
          ∷ [])
        entity false false false
    ∷ known (b'C' ∷ b'o' ∷ b'n' ∷ b't' ∷ b'e' ∷ b'n' ∷ b't' ∷ b'-' ∷ b'T' ∷ b'y' ∷ b'p' ∷ b'e' ∷ [])
        entity false false false
    ∷ known (b'C' ∷ b'o' ∷ b'o' ∷ b'k' ∷ b'i' ∷ b'e' ∷ []) request true false true
    ∷ known (b'D' ∷ b'a' ∷ b't' ∷ b'e' ∷ []) general true false false
    ∷ known (b'E' ∷ b'T' ∷ b'a' ∷ b'g' ∷ []) response false true false
    ∷ known (b'E' ∷ b'x' ∷ b'p' ∷ b'e' ∷ b'c' ∷ b't' ∷ []) request true false false
    ∷ known (b'E' ∷ b'x' ∷ b'p' ∷ b'i' ∷ b'r' ∷ b'e' ∷ b's' ∷ []) entity true false false
    ∷ known (b'F' ∷ b'r' ∷ b'o' ∷ b'm' ∷ []) request false true false
    ∷ known (b'H' ∷ b'o' ∷ b's' ∷ b't' ∷ []) request false true false
    ∷ known (b'I' ∷ b'f' ∷ b'-' ∷ b'M' ∷ b'a' ∷ b't' ∷ b'c' ∷ b'h' ∷ []) request true false false
    ∷ known
        (b'I' ∷ b'f' ∷ b'-' ∷ b'M' ∷ b'o' ∷ b'd' ∷ b'i' ∷ b'f' ∷ b'i' ∷ b'e' ∷ b'd' ∷ b'-' ∷ b'S'
          ∷ b'i' ∷ b'n' ∷ b'c' ∷ b'e' ∷ [])
        request true false false
    ∷ known
        (b'I' ∷ b'f' ∷ b'-' ∷ b'N' ∷ b'o' ∷ b'n' ∷ b'e' ∷ b'-' ∷ b'M' ∷ b'a' ∷ b't' ∷ b'c' ∷ b'h'
          ∷ [])
        request true false false
    ∷ known (b'I' ∷ b'f' ∷ b'-' ∷ b'R' ∷ b'a' ∷ b'n' ∷ b'g' ∷ b'e' ∷ []) request true false false
    ∷ known
        (b'I' ∷ b'f' ∷ b'-' ∷ b'U' ∷ b'n' ∷ b'm' ∷ b'o' ∷ b'd' ∷ b'i' ∷ b'f' ∷ b'i' ∷ b'e' ∷ b'd'
          ∷ b'-' ∷ b'S' ∷ b'i' ∷ b'n' ∷ b'c' ∷ b'e' ∷ [])
        request true false false
    ∷ known (b'K' ∷ b'e' ∷ b'e' ∷ b'p' ∷ b'-' ∷ b'A' ∷ b'l' ∷ b'i' ∷ b'v' ∷ b'e' ∷ []) general true
        false false
    ∷ known
        (b'L' ∷ b'a' ∷ b's' ∷ b't' ∷ b'-' ∷ b'M' ∷ b'o' ∷ b'd' ∷ b'i' ∷ b'f' ∷ b'i' ∷ b'e' ∷ b'd'
          ∷ [])
        entity true false false
    ∷ known (b'L' ∷ b'o' ∷ b'c' ∷ b'a' ∷ b't' ∷ b'i' ∷ b'o' ∷ b'n' ∷ []) response false true false
    ∷ known (b'M' ∷ b'a' ∷ b'x' ∷ b'-' ∷ b'F' ∷ b'o' ∷ b'r' ∷ b'w' ∷ b'a' ∷ b'r' ∷ b'd' ∷ b's' ∷ [])
        request false true false
    ∷ known (b'P' ∷ b'r' ∷ b'a' ∷ b'g' ∷ b'm' ∷ b'a' ∷ []) general true false false
    ∷ known
        (b'P' ∷ b'r' ∷ b'o' ∷ b'x' ∷ b'y' ∷ b'-' ∷ b'A' ∷ b'u' ∷ b't' ∷ b'h' ∷ b'e' ∷ b'n' ∷ b't'
          ∷ b'i' ∷ b'c' ∷ b'a' ∷ b't' ∷ b'e' ∷ [])
        response true false false
    ∷ known
        (b'P' ∷ b'r' ∷ b'o' ∷ b'x' ∷ b'y' ∷ b'-' ∷ b'A' ∷ b'u' ∷ b't' ∷ b'h' ∷ b'o' ∷ b'r' ∷ b'i'
          ∷ b'z' ∷ b'a' ∷ b't' ∷ b'i' ∷ b'o' ∷ b'n' ∷ [])
        request false false false
    ∷ known
        (b'P' ∷ b'r' ∷ b'o' ∷ b'x' ∷ b'y' ∷ b'-' ∷ b'C' ∷ b'o' ∷ b'n' ∷ b'n' ∷ b'e' ∷ b'c' ∷ b't'
          ∷ b'i' ∷ b'o' ∷ b'n' ∷ [])
        general true false false
    ∷ known (b'R' ∷ b'a' ∷ b'n' ∷ b'g' ∷ b'e' ∷ []) request true false false
    ∷ known (b'R' ∷ b'e' ∷ b'f' ∷ b'e' ∷ b'r' ∷ b'e' ∷ b'r' ∷ []) request false true false
    ∷ known (b'R' ∷ b'e' ∷ b't' ∷ b'r' ∷ b'y' ∷ b'-' ∷ b'A' ∷ b'f' ∷ b't' ∷ b'e' ∷ b'r' ∷ [])
        response true false false
    ∷ known (b'S' ∷ b'e' ∷ b'r' ∷ b'v' ∷ b'e' ∷ b'r' ∷ []) response true false false
    ∷ known (b'S' ∷ b'e' ∷ b't' ∷ b'-' ∷ b'C' ∷ b'o' ∷ b'o' ∷ b'k' ∷ b'i' ∷ b'e' ∷ []) response true
        false true
    ∷ known (b'S' ∷ b't' ∷ b'a' ∷ b't' ∷ b'u' ∷ b's' ∷ []) response true false false
    ∷ known (b'T' ∷ b'E' ∷ []) request true false false
    ∷ known (b'T' ∷ b'r' ∷ b'a' ∷ b'i' ∷ b'l' ∷ b'e' ∷ b'r' ∷ []) general true false false
    ∷ known
        (b'T' ∷ b'r' ∷ b'a' ∷ b'n' ∷ b's' ∷ b'f' ∷ b'e' ∷ b'r' ∷ b'-' ∷ b'E' ∷ b'n' ∷ b'c' ∷ b'o'
          ∷ b'd' ∷ b'i' ∷ b'n' ∷ b'g' ∷ [])
        general true false false
    ∷ known (b'U' ∷ b'p' ∷ b'g' ∷ b'r' ∷ b'a' ∷ b'd' ∷ b'e' ∷ []) general true false false
    ∷ known (b'U' ∷ b's' ∷ b'e' ∷ b'r' ∷ b'-' ∷ b'A' ∷ b'g' ∷ b'e' ∷ b'n' ∷ b't' ∷ []) request true
        false false
    ∷ known (b'V' ∷ b'a' ∷ b'r' ∷ b'y' ∷ []) response true false false
    ∷ known (b'V' ∷ b'i' ∷ b'a' ∷ []) general true false false
    ∷ known (b'W' ∷ b'a' ∷ b'r' ∷ b'n' ∷ b'i' ∷ b'n' ∷ b'g' ∷ []) general true false false
    ∷ known
        (b'W' ∷ b'W' ∷ b'W' ∷ b'-' ∷ b'A' ∷ b'u' ∷ b't' ∷ b'h' ∷ b'e' ∷ b'n' ∷ b't' ∷ b'i' ∷ b'c'
          ∷ b'a' ∷ b't' ∷ b'e' ∷ [])
        response true false false
    ∷ []

abbrev pub unknown_header : ℕ
unknown_header = 255

abbrev pub names_of : List KnownHeader → List Bytes
names_of [] = []
names_of (k ∷ ks) = k.name ∷ names_of ks

abbrev pub header_names : List Bytes
header_names = names_of known_headers

unfoldable pub get_header : Bytes → Option ℕ
unfolding find_name
get_header name = find_name lower header_names unknown_header name
