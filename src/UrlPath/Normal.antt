-- ===== src/UrlPath/Normal.antt =====
-- net/url_parser.cpp: the paths that `parse_path` returns.
use gweb_plusplus.Base.{
  ℕ, Option, none, suc, ◌+◌, ◌*◌, ◌<◌, ◌≤◌, Bytes, ◌≡◌, some, refl, subst, arith, length, more,
  stop, loop_inv,
}
use gweb_plusplus.UrlPath.{
  fresh, ushort, Outcome, parse_error, forbidden, underrun, success, Cursor,
}
use gweb_plusplus.UrlPath.Machine.{
  round, normalise, ParseResult, error_no_memory, failed, parsed, finish_parse, parse_appended,
  parse_path,
}
use gweb_plusplus.UrlPath.Segments.{root}
use gweb_plusplus.UrlPath.InPlace.{held-le, start, extent, round-extent}
use gweb_plusplus.UrlPath.Invariant.{IsResult, Inv}
use gweb_plusplus.UrlPath.Steps.{round_in-Post}

-- What a result says, of a path of any length but the largest.
abbrev pub IsGood : Outcome → Type 0
IsGood (success p) = IsResult p
IsGood underrun = ⊥
IsGood _ = Unit

-- On a path of fewer than 65534 bytes, `parse_path` never steps back past the start of the path, and
-- where it succeeds the path that it leaves is normal: segments, each behind a `/`, none of them
-- empty, `.` or `..` and none holding a `/`, with a `/` at the end or none, or the
-- one `/`; and `_M_pathlen` is its length, at most 4096.
pub normalise-IsGood :
    (path : Bytes) (o : Outcome) → length path < 65534 → normalise fresh path ≡ some o → IsGood o
unfolding normalise
normalise-IsGood path o lt e =
    loop_inv round Holds IsGood keep post (2 * length path + 2) (start path)
      (root, omega (arith, held-le path)) e
  where
    Holds : Cursor → Type 0
    Holds k = Inv k.path.state k.path × (extent k ≤ suc (length path))

    keep : (k t : Cursor) → Holds k → round k ≡ more t → Holds t
    keep k t (v, le) d = (
      rw d at (round_in-Post k.path k.rest v (omega arith)),
      round-extent (suc (length path)) k t le d,
    )

    post : (k : Cursor) (r : Outcome) → Holds k → round k ≡ stop r → IsGood r
    post k (success q) (v, le) d = rw d at (round_in-Post k.path k.rest v (omega arith))
    post k underrun (v, le) d = rw d at (round_in-Post k.path k.rest v (omega arith))
    post k _ h d = tt

-- The same of the call.
abbrev pub IsGoodParse : {B : Type 0} → ParseResult B → Type 0
IsGoodParse error_no_memory = Unit
IsGoodParse (failed o) = IsGood o
IsGoodParse (parsed p len buf) = IsResult p

finish_parse-IsGoodParse :
    {B : Type 0} (len : ℕ) (buf : B) (o : Option Outcome) (r : ParseResult B)
    → ((q : Outcome) → o ≡ some q → IsGood q)
    → finish_parse len buf o ≡ some r
    → IsGoodParse r
unfolding finish_parse
finish_parse-IsGoodParse len buf none r h e = cc
finish_parse-IsGoodParse len buf (some (success p)) r h e =
    let d : parsed p (ushort (len + length p.out)) buf ≡ r = cc in
    subst (λ x. IsGoodParse x) d (h (success p) refl)
finish_parse-IsGoodParse len buf (some parse_error) r h e =
    let d : failed parse_error ≡ r = cc in subst (λ x. IsGoodParse x) d tt
finish_parse-IsGoodParse len buf (some forbidden) r h e =
    let d : failed forbidden ≡ r = cc in subst (λ x. IsGoodParse x) d tt
finish_parse-IsGoodParse len buf (some underrun) r h e = absurd (h underrun refl)

pub parse_appended-IsGoodParse :
    {B : Type 0} (path : Bytes) (len : ℕ) (o : Option B) (r : ParseResult B)
    → length path < 65534
    → parse_appended path len o ≡ some r
    → IsGoodParse r
unfolding parse_appended
parse_appended-IsGoodParse path len none r lt e =
    let d : error_no_memory ≡ r = cc in subst (λ x. IsGoodParse x) d tt
parse_appended-IsGoodParse path len (some buf) r lt e =
    finish_parse-IsGoodParse len buf (normalise fresh path) r (λ q f. normalise-IsGood path q lt f)
      e

pub parse_path-IsGoodParse :
    {B : Type 0} (append : B → Bytes → Option B) (path : Bytes) (len : ℕ) (buf : B)
    (r : ParseResult B)
    → length path < 65534
    → parse_path append path len buf ≡ some r
    → IsGoodParse r
unfolding parse_path
parse_path-IsGoodParse append path len buf r lt e = parse_appended-IsGoodParse path len _ r lt e
