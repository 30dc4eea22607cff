-- ===== src/Url.antt =====
-- net/url_parser.cpp: `url_parser::parse`, which takes the scheme, the host and the port off a URL, in
-- place, and hands its path to `parse_path`. As in `UrlPath`, the bytes written are a list whose head
-- is the byte before `out`, and a pointer is its distance from `string`. `buffer::append` is a
-- parameter.
pub mod Bounds
pub mod Total
mod Examples
use gweb_plusplus.Base.{
  ℕ, ◌+◌, ◌-◌, ◌*◌, Bool, true, false, not, ◌&&◌, ◌||◌, [], ◌∷◌, ◌++◌, Option, none, some, ltb,
  ◌==◌, if◌then◌else◌, is_digit, is_alpha, Bytes, length,
}
use gweb_plusplus.Scheme.{get_scheme, unknown}
use gweb_plusplus.UrlPath.{ushort, hex_digit}
use gweb_plusplus.UrlPath.Machine.{ParseResult, parse_path}

-- The states 0 to 10, by the source's comments.
pub data State : Type 0 where
  initial scheme colon first_slash second_slash first_x first_y host host_x host_y port : State

-- The members of `url_parser` that `parse` sets, and its variables. 255 is `scheme::UNKNOWN`.
pub record UrlHead : Type 0 where
  pub state : State
  pub out : Bytes
  pub n : ℕ
  pub port : ℕ
  pub url_scheme : ℕ
  pub host_at : ℕ
  pub host_len : ℕ
  pub url_port : ℕ

-- As `reset` leaves them.
abbrev pub fresh_head : UrlHead
fresh_head = record {
  state = initial;
  out = [];
  n = 0;
  port = 0;
  url_scheme = unknown;
  host_at = 0;
  host_len = 0;
  url_port = 0;
}

-- What a byte does: it is taken, or refused, or the path starts at it, with `len`.
pub data Act : Type 0 where
  take_byte : UrlHead → Act
  refuse : Act
  start_path : UrlHead → ℕ → Act

abbrev goto : UrlHead → State → Act
goto h st = take_byte (record h { state = st })

-- `*out++ = c`
abbrev emit : ℕ → UrlHead → UrlHead
emit c h = record h { out = c ∷ h.out }

abbrev pub is_alnum : ℕ → Bool
is_alnum c = is_alpha c || is_digit c

-- `*(out - 1)`
abbrev prev : UrlHead → ℕ
prev h = elim h.out [ [] ↦ 0 | c ∷ _ ↦ c ]

-- The end of the host at `out`.
pub end_host : UrlHead → Option UrlHead
end_host h =
    let n = ushort (length h.out - h.host_at) in
    if not (is_alnum (prev h))
    then none
    else if ltb 255 n
    then none
    else some (record h { host_len = n })

pub with_default_port : UrlHead → UrlHead
with_default_port h =
    if h.url_scheme == 1
    then record h { url_port = 21 }
    else if h.url_scheme == 2
    then record h { url_port = 80 }
    else if h.url_scheme == 3
    then record h { url_port = 443 }
    else if h.url_scheme == 11
    then record h { url_port = 23 }
    else h

-- The bytes of `string` up to `ptr`, which are those written.
pub reverse_onto : Bytes → Bytes → Bytes
reverse_onto [] s = s
reverse_onto (c ∷ cs) s = reverse_onto cs (c ∷ s)

-- State 1 at the `:`. The search always returns.
on_scheme : UrlHead → ℕ → Option ℕ → Act
on_scheme h c none = refuse
on_scheme h c (some s) =
    if s == unknown then refuse else take_byte (emit c (record h { url_scheme = s; state = colon }))

-- States 5 and 8, and the values of states 6 and 9.
on_x : UrlHead → State → Option ℕ → Act
on_x h st none = refuse
on_x h st (some x) = take_byte (record h { n = x * 16; state = st })

on_first_y : UrlHead → Option ℕ → Act
on_first_y h none = refuse
on_first_y h (some y) =
    let n = h.n + y in
    if is_alnum n
    then take_byte (emit n (record h { n = n; host_at = length h.out; state = host }))
    else refuse

-- `(c > ' ') && (c != 127) && (c != 255)`
abbrev pub is_host_byte : ℕ → Bool
is_host_byte c = ltb b' ' c && not (c == 127) && not (c == 255)

on_host_y : UrlHead → Option ℕ → Act
on_host_y h none = refuse
on_host_y h (some y) =
    let n = h.n + y in
    if n == b':' || n == b'/' || n == b'%'
    then refuse
    else if is_host_byte n
    then take_byte (emit n (record h { n = n; state = host }))
    else refuse

-- State 7 at a `/` and at a `:`.
on_host_slash : Option UrlHead → Act
on_host_slash none = refuse
on_host_slash (some h) = let h' = with_default_port h in start_path h' (ushort (length h'.out))

on_host_colon : Option UrlHead → Act
on_host_colon none = refuse
on_host_colon (some h) = take_byte (emit b':' (record h { port = 0; state = port }))

step_port : UrlHead → ℕ → Act
step_port h c =
    let n = h.port * 10 + (c - b'0') in
    if is_digit c
    then (if ltb 65535 n then refuse else take_byte (emit c (record h { port = n })))
    else if c == b'/'
    then (if h.port == 0
        then refuse
        else start_path (record h { url_port = h.port }) (ushort (length h.out)))
    else refuse

pub step : State → UrlHead → ℕ → Act
unfolding on_scheme on_x on_first_y on_host_y on_host_slash on_host_colon step_port end_host
    with_default_port
step initial h c =
    if is_alpha c
    then take_byte (emit c (record h { state = scheme }))
    else if c == b'/'
    then start_path h 0
    else refuse
step scheme h c =
    if is_alnum c || c == b'+' || c == b'-' || c == b'.'
    then take_byte (emit c h)
    else if c == b':'
    then on_scheme h c (get_scheme (reverse_onto h.out []))
    else refuse
step colon h c = if c == b'/' then take_byte (emit c (record h { state = first_slash })) else refuse
step first_slash h c =
    if c == b'/' then take_byte (emit c (record h { state = second_slash })) else refuse
step second_slash h c =
    if is_alnum c
    then take_byte (emit c (record h { host_at = length h.out; state = host }))
    else if c == b'%'
    then goto h first_x
    else refuse
step first_x h c = on_x h first_y (hex_digit c)
step first_y h c = on_first_y h (hex_digit c)
step host h c =
    if c == b'/'
    then on_host_slash (end_host h)
    else if c == b'%'
    then goto h host_x
    else if c == b':'
    then on_host_colon (end_host h)
    else if is_host_byte c
    then take_byte (emit c h)
    else refuse
step host_x h c = on_x h host_y (hex_digit c)
step host_y h c = on_host_y h (hex_digit c)
step port h c = step_port h c

-- The result: the path `/` of a URL that has none, with `len`, or what `parse_path` returns.
pub data Result (B : Type 0) : Type 0 where
  parse_error error_no_memory : Result B
  root_path : UrlHead → ℕ → B → Result B
  in_path : UrlHead → ParseResult B → Result B

-- Where the URL ends in its host or its port.
finish_host : Option UrlHead → Option UrlHead
finish_host none = none
finish_host (some h) = some (with_default_port h)

pub finish : State → UrlHead → Option UrlHead
unfolding finish_host end_host with_default_port
finish host h = finish_host (end_host h)
finish port h = if h.port == 0 then none else some (record h { url_port = h.port })
finish _ h = none

-- Behind the call of `append`, which adds the `/`.
pub root_in : {B : Type 0} → UrlHead → Option B → Result B
root_in h none = error_no_memory
root_in h (some buf) = root_path h (ushort (length h.out)) buf

pub hand_over : {B : Type 0} → UrlHead → Option (ParseResult B) → Option (Result B)
hand_over h none = none
hand_over h (some r) = some (in_path h r)

module _ {B : Type 0} (append : B → Bytes → Option B) where
  pub with_root : B → Option UrlHead → Result B
  unfolding root_in
  with_root buf none = parse_error
  with_root buf (some h) = root_in h (append buf (b'/' ∷ []))

  -- With the loop on what follows.
  pub after_act : Act → Bytes → B → (UrlHead → Option (Result B)) → Option (Result B)
  unfolding hand_over
  after_act (take_byte h) rest buf loop = loop h
  after_act refuse rest buf loop = some parse_error
  after_act (start_path h len) rest buf loop = hand_over h (parse_path append rest len buf)

  pub parse_from : Bytes → B → UrlHead → Option (Result B)
  unfolding step finish with_root after_act
  parse_from [] buf h = some (with_root buf (finish h.state h))
  parse_from (c ∷ rest) buf h = after_act (step h.state h c) rest buf (parse_from rest buf)

  -- `none` is fuel of `parse_path` that ran out, which does not happen.
  pub parse : Bytes → B → Option (Result B)
  unfolding parse_from
  parse url buf = parse_from url buf fresh_head
