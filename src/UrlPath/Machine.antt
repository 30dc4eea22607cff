-- ===== src/UrlPath/Machine.antt =====
-- The loop of `parse_path`: what each state does with a byte, and at the end of the path.
use gweb_plusplus.Base.{
  ℕ, suc, ◌+◌, ◌-◌, ◌*◌, [], ◌∷◌, Option, none, some, ltb, leb, ◌==◌, if◌then◌else◌, Bytes, length,
  stop, loop,
}
use gweb_plusplus.UrlPath.{
  slash, dot, dot_dot, segment, query, fragment, success, State, UrlState, fresh, Outcome, ushort,
  max_len, Cursor, Step, refuse, put, go, end_path, start_query, start_fragment, escape, on_escape,
  drop_segment, keep_slash, climb, go_up, slash_of, dot_of, dot_dot_of,
}

step_slash : UrlState → ℕ → Bytes → Step
step_slash p c rest =
    if c == b'/'
    then go slash p rest
    else if c == b'.'
    then go dot p rest
    else if c == b'?'
    then start_query (slash_of p) rest
    else if c == b'#'
    then start_fragment (slash_of p) rest
    else if c == b'%'
    then on_escape p (slash_of p) (escape rest)
    else if leb b' ' c
    then go segment (put c (slash_of p)) rest
    else refuse

step_dot : UrlState → ℕ → Bytes → Step
step_dot p c rest =
    if c == b'/'
    then go slash p (c ∷ rest)
    else if c == b'.'
    then go dot_dot p rest
    else if c == b'?'
    then start_query (slash_of p) rest
    else if c == b'#'
    then start_fragment (slash_of p) rest
    else if c == b'%'
    then on_escape p (dot_of p) (escape rest)
    else if leb b' ' c
    then go segment (put c (dot_of p)) rest
    else refuse

step_dot_dot : UrlState → ℕ → Bytes → Step
step_dot_dot p c rest =
    if c == b'/'
    then go_up (climb drop_segment p.out) p (λ q. go slash q (c ∷ rest))
    else if c == b'?'
    then go_up (climb keep_slash p.out) p (λ q. start_query q rest)
    else if c == b'#'
    then go_up (climb keep_slash p.out) p (λ q. start_fragment q rest)
    else if c == b'%'
    then on_escape p (dot_dot_of p) (escape rest)
    else if leb b' ' c
    then go segment (put c (dot_dot_of p)) rest
    else refuse

-- A byte of a segment makes the extension longer, if there is one.
abbrev pub longer : UrlState → ℕ
longer p = elim p.extension [ none ↦ p.extension_len | some _ ↦ ushort (p.extension_len + 1) ]

step_segment : UrlState → ℕ → Bytes → Step
step_segment p c rest =
    if c == b'/'
    then go slash (record p { extension = none }) (c ∷ rest)
    else if c == b'%'
    then on_escape p p (escape rest)
    else if c == b'?'
    then start_query p rest
    else if c == b'#'
    then start_fragment p rest
    else if c == b'.'
    then go segment
        (record p { out = c ∷ p.out; extension = some (suc (length p.out)); extension_len = 0 })
        rest
    else if leb b' ' c
    then go segment (put c (record p { extension_len = longer p })) rest
    else refuse

-- `out - _M_query`
abbrev pub since : Bytes → Option ℕ → ℕ
since out none = 0
since out (some at) = ushort (length out - at)

step_query : UrlState → ℕ → Bytes → Step
step_query p c rest =
    let n = since p.out p.query_at in
    if c == b'#'
    then (if ltb max_len n
        then refuse
        else go fragment (put c (record p { query_len = n; fragment_at = some (length p.out) }))
            rest)
    else if ltb b' ' c
    then go query (put c p) rest
    else refuse

step_fragment : UrlState → ℕ → Bytes → Step
step_fragment p c rest = if ltb b' ' c then go fragment (put c p) rest else refuse

unfoldable pub step_in : State → UrlState → ℕ → Bytes → Step
unfolding step_slash step_dot step_dot_dot step_segment step_query step_fragment
step_in slash p c rest = step_slash p c rest
step_in dot p c rest = step_dot p c rest
step_in dot_dot p c rest = step_dot_dot p c rest
step_in segment p c rest = step_segment p c rest
step_in query p c rest = step_query p c rest
step_in fragment p c rest = step_fragment p c rest

abbrev pub finished : UrlState → Step
finished p = stop (success p)

-- What stands behind the loop.
unfoldable pub finish : State → UrlState → Step
finish slash p = end_path (slash_of p) finished
finish dot p = end_path (slash_of p) finished
finish dot_dot p = go_up (climb keep_slash p.out) p (λ q. end_path q finished)
finish segment p = end_path p finished
finish query p =
    let n = since p.out p.query_at in
    if ltb max_len n then refuse else finished (record p { query_len = n })
finish fragment p =
    let n = since p.out p.fragment_at in
    if ltb max_len n then refuse else finished (record p { fragment_len = n })

unfoldable pub round_in : UrlState → Bytes → Step
unfolding step_in finish
round_in p [] = finish p.state p
round_in p (c ∷ rest) = step_in p.state p c rest

abbrev pub round : Cursor → Step
round k = round_in k.path k.rest

-- `none` is fuel that ran out, which does not happen: a round takes a byte, or it leaves the byte `/`
-- to state 0, which takes it.
unfoldable pub normalise : UrlState → Bytes → Option Outcome
unfolding round_in loop
normalise p rest = loop round (2 * length rest + 2) (record { path = p; rest = rest })

-- `parse_result`, with the members, `len` and `buf` where the call succeeds.
pub data ParseResult (B : Type 0) : Type 0 where
  error_no_memory : ParseResult B
  failed : Outcome → ParseResult B
  parsed : UrlState → ℕ → B → ParseResult B

-- `len += out - _M_path`
unfoldable pub finish_parse : {B : Type 0} → ℕ → B → Option Outcome → Option (ParseResult B)
finish_parse len buf none = none
finish_parse len buf (some (success p)) = some (parsed p (ushort (len + length p.out)) buf)
finish_parse len buf (some o) = some (failed o)

-- Behind the call of `append`.
unfoldable pub parse_appended : {B : Type 0} → Bytes → ℕ → Option B → Option (ParseResult B)
unfolding normalise finish_parse
parse_appended path len none = some error_no_memory
parse_appended path len (some buf) = finish_parse len buf (normalise fresh path)

-- On the bytes behind the first, which the caller has found to be a `/`, and which is not looked
-- at. `append` is `buffer::append`.
unfoldable pub parse_path :
    {B : Type 0} → (B → Bytes → Option B) → Bytes → ℕ → B → Option (ParseResult B)
unfolding parse_appended
parse_path append path len buf = parse_appended path len (append buf (b'/' ∷ path))
