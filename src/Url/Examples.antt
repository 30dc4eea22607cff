-- ===== src/Url/Examples.antt =====
-- `url_parser::parse` on concrete URLs, and its theorems at one of them.
use gweb_plusplus.Base.{arith, ℕ, [], ◌∷◌, ◌++◌, Option, none, some, ◌≡◌, refl, Bytes}
use gweb_plusplus.Scheme.{get_scheme}
use gweb_plusplus.NameSearch.{compare_names}
use gweb_plusplus.UrlPath.{fresh, segment}
use gweb_plusplus.UrlPath.Machine.{parse_path, parsed}
use gweb_plusplus.Url.{reverse_onto, State, Result, in_path, root_path, parse}
use gweb_plusplus.Url.Bounds.{IsParsed, parse-IsParsed}

-- `buffer::append` of a buffer that is the list of its bytes.
abbrev append_bytes : Bytes → Bytes → Option Bytes
append_bytes b s = some (b ++ s)

-- `Http://ab:81`
abbrev with_port : Bytes
with_port = b'H' ∷ b't' ∷ b't' ∷ b'p' ∷ b':' ∷ b'/' ∷ b'/' ∷ b'a' ∷ b'b' ∷ b':' ∷ b'8' ∷ b'1' ∷ []

-- The scheme, the host and the port of a result.
record Origin : Type 0 where
  url_scheme : ℕ
  host_at : ℕ
  host_len : ℕ
  url_port : ℕ

origin : Option (Result Bytes) → Option Origin
origin (some (root_path h len buf)) = some (record {
  url_scheme = h.url_scheme;
  host_at = h.host_at;
  host_len = h.host_len;
  url_port = h.url_port;
})
origin _ = none

with_port_run :
    origin (parse append_bytes with_port [])
    ≡ some (record { url_scheme = 2; host_at = 7; host_len = 2; url_port = 81 })
unfolding parse origin get_scheme compare_names reverse_onto
with_port_run = refl

-- `Http://ab/x`
abbrev with_path : Bytes
with_path = b'H' ∷ b't' ∷ b't' ∷ b'p' ∷ b':' ∷ b'/' ∷ b'/' ∷ b'a' ∷ b'b' ∷ b'/' ∷ b'x' ∷ []

abbrev with_path_result : Result Bytes
with_path_result =
    in_path
      (record {
        state = State.host;
        out = b'b' ∷ b'a' ∷ b'/' ∷ b'/' ∷ b':' ∷ b'p' ∷ b't' ∷ b't' ∷ b'H' ∷ [];
        n = 0;
        port = 0;
        url_scheme = 2;
        host_at = 7;
        host_len = 2;
        url_port = 80;
      })
      (parsed (record fresh { state = segment; out = b'x' ∷ b'/' ∷ []; path_len = 2 }) 11
        (b'/' ∷ b'x' ∷ []))

parse-IsParsed_example : IsParsed append_bytes with_path [] with_path_result
unfolding parse get_scheme compare_names parse_path reverse_onto
parse-IsParsed_example =
    parse-IsParsed append_bytes with_path [] with_path_result (omega arith) refl
