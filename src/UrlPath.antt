-- ===== src/UrlPath.antt =====
-- net/url_parser.h and net/url_parser.cpp: `url_parser::parse_path`, which normalises the path of a
-- URL in place and finds its extension, query and fragment. A C string is the list of its bytes
-- before the NUL. The bytes from `_M_path` to `out` are a list whose head is the byte before `out`, and a
-- pointer into them is its distance from `_M_path`. The bytes read and those written are lists
-- of their own here; `UrlPath.InPlace` is about the one buffer that they share.
pub mod Machine
pub mod Rounds
pub mod InPlace
pub mod Segments
pub mod Invariant
pub mod Steps
pub mod Normal
mod Examples
use gweb_plusplus.Base.{
  ℕ, zero, suc, ◌+◌, ◌-◌, ◌*◌, ◌%◌, Bool, true, false, ◌||◌, List, [], ◌∷◌, ◌++◌, Option, none,
  some, ltb, leb, ◌==◌, if◌then◌else◌, within, is_digit, Bytes, length, Round, more, stop, loop,
}

-- The states 0 to 5, by the source's comments: "/", "/.", "/..", "/<path>".
pub data State : Type 0 where
  slash dot dot_dot segment query fragment : State

-- The members of `url_parser` that `parse_path` sets, and its variables `state` and `out`.
pub record UrlState : Type 0 where
  pub state : State
  pub out : Bytes
  pub path_len : ℕ
  pub extension : Option ℕ
  pub extension_len : ℕ
  pub query_at : Option ℕ
  pub query_len : ℕ
  pub fragment_at : Option ℕ
  pub fragment_len : ℕ

-- As `reset` leaves them, with `out = _M_path`.
abbrev pub fresh : UrlState
fresh = record {
  state = slash;
  out = [];
  path_len = 0;
  extension = none;
  extension_len = 0;
  query_at = none;
  query_len = 0;
  fragment_at = none;
  fragment_len = 0;
}

-- `underrun` is a step of `out` back past `_M_path`.
pub data Outcome : Type 0 where
  parse_error forbidden underrun : Outcome
  success : UrlState → Outcome

-- The lengths are of type `unsigned short`.
abbrev pub ushort : ℕ → ℕ
ushort n = n % 65536

-- `PATH_MAX_LEN`, `QUERY_MAX_LEN` and `FRAGMENT_MAX_LEN`.
abbrev pub max_len : ℕ
max_len = 4096

-- The variables of the loop: the members, and the bytes from `in`.
pub record Cursor : Type 0 where
  pub path : UrlState
  pub rest : Bytes

abbrev pub Step : Type 0
Step = Round Cursor Outcome

abbrev pub refuse : Step
refuse = stop parse_error

-- Writes a byte.
abbrev pub put : ℕ → UrlState → UrlState
put c p = record p { out = c ∷ p.out }

abbrev pub go : State → UrlState → Bytes → Step
go st p rest = more (record { path = record p { state = st }; rest = rest })

-- The end of the path at `out`, and its test.
abbrev pub end_path : UrlState → (UrlState → Step) → Step
end_path p k =
    let n = ushort (length p.out) in if ltb max_len n then refuse else k (record p { path_len = n })

-- At `?`: the query starts at `out`.
abbrev pub start_query : UrlState → Bytes → Step
start_query p rest =
    end_path p λ q. go query (put b'?' (record q { query_at = some (length q.out) })) rest

-- At `#`: the fragment starts at `out`.
abbrev pub start_fragment : UrlState → Bytes → Step
start_fragment p rest =
    end_path p λ q. go fragment (put b'#' (record q { fragment_at = some (length q.out) })) rest

-- The value of a digit of `%XY`.
unfoldable pub hex_digit : ℕ → Option ℕ
hex_digit c =
    if within b'0' b'9' c
    then some (c - b'0')
    else if within b'A' b'F' c
    then some (c - b'A' + 10)
    else if within b'a' b'f' c
    then some (c - b'a' + 10)
    else none

-- `in[1]` and `in[2]`; a NUL is no digit.
unfoldable pub two_digits : Option ℕ → Option ℕ → Option ℕ
two_digits none y = none
two_digits (some x) none = none
two_digits (some x) (some y) = some (x * 16 + y)

unfoldable pub escape : Bytes → Option (ℕ × Bytes)
unfolding two_digits
escape [] = none
escape (x ∷ []) = none
escape (x ∷ y ∷ rest) = elim (two_digits (hex_digit x) (hex_digit y)) [
  | none ↦ none
  | some c ↦ some (c, rest)
]

-- What a `%` does, with `held` written in front of any byte but `.` and `/`, which are read
-- again.
pub on_escape : UrlState → UrlState → Option (ℕ × Bytes) → Step
on_escape p held none = refuse
on_escape p held (some (c, rest)) =
    if c == b'.' || c == b'/'
    then more (record { path = p; rest = c ∷ rest })
    else go segment (put c held) rest

-- `while (*--out != '/');`
pub drop_segment : Bytes → Option Bytes
drop_segment [] = none
drop_segment (c ∷ out) = if c == b'/' then some out else drop_segment out

-- `while (*(out - 1) != '/') out--;`
pub keep_slash : Bytes → Option Bytes
keep_slash [] = none
keep_slash (c ∷ out) = if c == b'/' then some (c ∷ out) else keep_slash out

-- Where a way back from `out` leads.
pub data Climb : Type 0 where
  at_root lost : Climb
  up : Bytes → Climb

pub landed : Option Bytes → Climb
landed none = lost
landed (some out) = up out

pub climb : (Bytes → Option Bytes) → Bytes → Climb
unfolding landed
climb back [] = at_root
climb back (c ∷ out) = landed (back (c ∷ out))

-- State 2 at the end of a segment: `..` at the root is forbidden.
pub go_up : Climb → UrlState → (UrlState → Step) → Step
go_up at_root p k = stop forbidden
go_up lost p k = stop underrun
go_up (up out) p k = k (record p { out = out })

abbrev pub slash_of : UrlState → UrlState
slash_of p = put b'/' p

abbrev pub dot_of : UrlState → UrlState
dot_of p = put b'.' (put b'/' p)

abbrev pub dot_dot_of : UrlState → UrlState
dot_dot_of p = put b'.' (put b'.' (put b'/' p))
