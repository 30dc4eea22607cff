-- ===== src/Headers/Parse.antt =====
-- http/http_headers.cpp: `parse`, which reads a block of headers. The caller gives it all bytes that have
-- come so far; the parser keeps its place between calls. No offset is above 8193, so that no
-- `unsigned short` wraps around.
pub mod Places
pub mod Steps
pub mod Rounds
pub mod Extent
pub mod Split
pub mod Lines
pub mod Pieces
pub mod Colon
pub mod Blocks
pub mod Printed
mod Examples
use gweb_plusplus.Base.{
  ℕ, zero, suc, ◌+◌, ◌-◌, Bool, true, false, not, ◌&&◌, ◌||◌, List, [], ◌∷◌, Option, none, some,
  ltb, ◌==◌, if◌then◌else◌, Bytes, drop, get_elem?, Round, more, stop,
}
use gweb_plusplus.Headers.Table.{known_headers, unknown_header, get_header}
use gweb_plusplus.Headers.Store.{Header, Store, no_headers, slice, is_past, Key, known, other}
use gweb_plusplus.Headers.Store.Change.{add_key}

-- The states 0 to 7.
pub data State : Type 0 where
  start in_name after_name after_colon in_value after_cr after_lf in_fold : State

-- `parse_result`, with the offset of the body.
pub data ParseResult : Type 0 where
  error_no_memory error_wrong_headers error_headers_too_large not_end_of_header : ParseResult
  end_of_header : ℕ → ParseResult

pub record Parser : Type 0 where
  pub store : Store
  pub ignore_errors : Bool
  pub offset : ℕ
  pub token : ℕ
  pub end' : ℕ
  pub name : ℕ
  pub namelen : ℕ
  pub state : State
  pub header : ℕ
  pub crlfs : ℕ

-- The allocated sizes stay as they are; so does whether errors are ignored.
abbrev pub reset : Parser → Parser
reset p = record {
  store = record p.store { headers = []; data' = [] };
  ignore_errors = p.ignore_errors;
  offset = 0;
  token = 0;
  end' = 0;
  name = 0;
  namelen = 0;
  state = start;
  header = unknown_header;
  crlfs = 1;
}

abbrev pub Turn : Type 0
Turn = Round Parser (Parser × ParseResult)

abbrev pub wrong : Parser → Turn
wrong p = stop (p, error_wrong_headers)

-- The header may stand in several fields, and the header's value is one word.
pub might_have_commas : ℕ → Bool
might_have_commas header = elim (get_elem? known_headers header) [
  | none ↦ false
  | some k ↦ k.might_have_commas
]

pub single_token : ℕ → Bool
single_token header = elim (get_elem? known_headers header) [
  | none ↦ false
  | some k ↦ k.single_token
]

-- The search of `parse` for a header that is there already.
pub is_there : ℕ → List Header → Bool
is_there header [] = false
is_there header (e ∷ es) =
    let rest = is_there header es in
    if header == e.header then true else if is_past header e.header then false else rest

pub is_repeated : Parser → ℕ → Bool
unfolding is_there
is_repeated p header =
    not p.ignore_errors && not (might_have_commas header) && is_there header p.store.headers

-- The search always returns.
abbrev pub header_of : Bytes → ℕ
header_of name = elim (get_header name) [ none ↦ unknown_header | some h ↦ h ]

-- The `:` behind a name, once `_M_namelen` is set.
pub with_header : Parser → ℕ → Turn
unfolding is_repeated
with_header p h =
    if h == unknown_header
    then more (record p { header = h; name = p.token; token = 0; state = after_colon })
    else if is_repeated p h
    then wrong (record p { header = h })
    else more (record p { header = h; token = 0; state = after_colon })

pub on_colon : Bytes → Parser → Turn
unfolding with_header
on_colon buf p = with_header p (header_of (slice buf p.token p.namelen))

pub is_blank : ℕ → Bool
is_blank c = c == b' ' || c == 9

-- A byte of a name.
pub is_printable : ℕ → Bool
is_printable c = ltb b' ' c && ltb c 127

abbrev pub start_name : Parser → Turn
start_name p = more (record p { token = p.offset; crlfs = 0; state = in_name })

abbrev pub end_line : Parser → Turn
end_line p = more (record p { crlfs = 1; state = after_lf })

abbrev pub end_block : Parser → Turn
end_block p = stop (p, end_of_header (p.offset + 1))

pub step_start : Parser → ℕ → Turn
unfolding is_printable
step_start p c =
    if c == b':'
    then wrong p
    else if is_printable c
    then start_name p
    else if c == 13
    then more (record p { state = after_cr })
    else if c == 10
    then end_block p
    else wrong p

pub step_name : Bytes → Parser → ℕ → Turn
unfolding on_colon is_blank
step_name buf p c =
    if c == b':'
    then on_colon buf (record p { namelen = p.offset - p.token })
    else if is_blank c
    then more (record p { namelen = p.offset - p.token; state = after_name })
    else if ltb c b' ' || ltb 126 c
    then wrong p
    else more p

pub step_after_name : Bytes → Parser → ℕ → Turn
unfolding on_colon is_blank
step_after_name buf p c =
    if c == b':' then on_colon buf p else if is_blank c then more p else wrong p

pub step_colon : Parser → ℕ → Turn
unfolding is_blank
step_colon p c =
    if c == 13
    then more (record p { state = after_cr })
    else if c == 10
    then end_line p
    else if ltb b' ' c
    then more (record p { token = p.offset; end' = 0; state = in_value })
    else if is_blank c
    then more p
    else wrong p

-- The end of the value so far, where it is not set.
abbrev pub mark_end : Parser → Parser
mark_end p = record p { end' = if p.end' == 0 then p.offset else p.end' }

-- Another word of the value of a header that has one word.
pub is_second_word : Parser → Bool
is_second_word p = not (p.header == unknown_header) && single_token p.header

pub next_word : Parser → Turn
unfolding is_second_word
next_word p =
    if p.end' == 0
    then more p
    else if is_second_word p
    then (if p.ignore_errors then more p else wrong p)
    else more (record p { end' = 0 })

pub step_value : Parser → ℕ → Turn
unfolding next_word is_blank
step_value p c =
    if c == 13
    then more (record (mark_end p) { state = after_cr })
    else if c == 10
    then end_line (mark_end p)
    else if is_blank c
    then more (mark_end p)
    else if ltb b' ' c
    then next_word p
    else wrong p

pub step_cr : Parser → ℕ → Turn
step_cr p c = if c == 10 then (if p.crlfs == 1 then end_block p else end_line p) else wrong p

pub key_in : Bytes → Parser → Key
key_in buf p =
    if p.header == unknown_header then other (slice buf p.name p.namelen) else known p.header

pub step_fold : Parser → ℕ → Turn
unfolding is_second_word is_blank
step_fold p c =
    if c == 13
    then more (record p { state = after_cr })
    else if c == 10
    then end_line p
    else if ltb b' ' c
    then (if p.token == 0
        then more (record p { token = p.offset; end' = 0; state = in_value })
        else if is_second_word p
        then (if p.ignore_errors then more p else wrong p)
        else more (record p { end' = 0; state = in_value }))
    else if is_blank c
    then more p
    else wrong p

-- Behind the call that adds the field before.
abbrev pub after_add : Parser → (Parser → Turn) → Store × Bool → Turn
after_add p next (s, true) = next (record p { store = s })
after_add p next (s, false) = stop (record p { store = s }, error_no_memory)

-- The byte is behind the offset; 8192 is `MAX_HEADERS_SIZE`.
pub advance : Turn → Turn
advance (more p) =
    let q = record p { offset = p.offset + 1 } in
    if ltb 8192 (p.offset + 1) then stop (q, error_headers_too_large) else more q
advance (stop r) = stop r

module _ (realloc : ℕ → Bool) where
  -- The field before is added, if it has a value.
  pub add_field : Bytes → Parser → Store × Bool
  unfolding add_key key_in
  add_field buf p =
      if p.token == 0
      then (p.store, true)
      else add_key realloc p.store (key_in buf p) (slice buf p.token (p.end' - p.token)) false

  pub step_lf : Bytes → Parser → ℕ → Turn
  unfolding add_field is_printable is_blank
  step_lf buf p c =
      if c == 13
      then after_add p (λ q. more (record q { state = after_cr })) (add_field buf p)
      else if c == 10
      then after_add p end_block (add_field buf p)
      else if c == b':'
      then wrong p
      else if is_printable c
      then after_add p start_name (add_field buf p)
      else if is_blank c
      then more (record p { crlfs = 0; state = in_fold })
      else wrong p

  -- A round of the `switch`.
  pub step : State → Bytes → Parser → ℕ → Turn
  unfolding step_start step_name step_after_name step_colon step_value step_cr step_lf step_fold
  step start buf p c = step_start p c
  step in_name buf p c = step_name buf p c
  step after_name buf p c = step_after_name buf p c
  step after_colon buf p c = step_colon p c
  step in_value buf p c = step_value p c
  step after_cr buf p c = step_cr p c
  step after_lf buf p c = step_lf buf p c
  step in_fold buf p c = step_fold p c

  -- The loop, over the bytes from the offset on.
  unfoldable pub run : Bytes → Bytes → Parser → Parser × ParseResult
  unfolding step advance
  run buf [] p = (p, not_end_of_header)
  run buf (c ∷ cs) p = elim (advance (step p.state buf p c)) [ more q ↦ run buf cs q | stop r ↦ r ]

  unfoldable pub parse : Bytes → Parser → Parser × ParseResult
  unfolding run
  parse buf p = run buf (drop p.offset buf) p
