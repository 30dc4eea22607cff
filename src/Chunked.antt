-- ===== src/Chunked.antt =====
-- http/chunked_parser.h and http/chunked_parser.cpp: the parser of a body in the chunked transfer
-- coding, called for each piece of the body as it comes from the network. `add_chunked_data` is the
-- virtual method that the connection classes implement: a parameter, over a state of their own.
pub mod Run
pub mod Rounds
pub mod Split
pub mod Coding
pub mod Pieces
pub mod RoundTrip
pub mod Overflow
mod Examples
use gweb_plusplus.Base.{
  ℕ, zero, suc, ◌+◌, ◌-◌, ◌*◌, ◌%◌, Bool, true, false, not, ◌&&◌, ◌||◌, [], ◌∷◌, Option, none, some,
  ltb, leb, ◌==◌, if◌then◌else◌, within, size_mod, Bytes, length, take, drop, Round, more, stop,
  loop,
}

-- `_M_state`, 0 to 10, by the source's comments.
pub data State : Type 0 where
  chunk_size reading_chunk_size after_chunk_size cr_after_chunk_size chunk_data : State
  after_chunk_data cr_after_chunk_data : State
  trailer entity_header cr_after_entity_header cr_after_trailer : State

pub record Parser : Type 0 where
  pub state : State
  pub size : ℕ

-- The constructor and `reset`.
abbrev pub reset : Parser
reset = record { state = chunk_size; size = 0 }

-- `parse_result`, with the object and the callback's state as the call leaves them; the end of the
-- response carries what is stored through `size`.
pub data Outcome (S : Type 0) : Type 0 where
  invalid_chunked_response : Parser → S → Outcome S
  callback_failed : Parser → S → Outcome S
  not_end_of_response : Parser → S → Outcome S
  end_of_response : ℕ → Parser → S → Outcome S

-- What one byte does outside the chunk data: a new parser, a refusal, or the end.
pub data Move : Type 0 where
  go : Parser → Move
  bad : Move
  finish : Move

abbrev pub goto : Parser → State → Move
goto p st = go (record p { state = st })

-- The three digit branches of states 0 and 1.
unfoldable pub hex_digit : ℕ → Option ℕ
hex_digit c =
    if within b'0' b'9' c
    then some (c - b'0')
    else if within b'A' b'F' c
    then some (c - b'A' + 10)
    else if within b'a' b'f' c
    then some (c - b'a' + 10)
    else none

-- `c < ' ' && c != '\t'`
abbrev pub is_control : ℕ → Bool
is_control c = ltb c b' ' && not (c == b'\t')

-- State 0. `size_t` is not exceeded by one digit.
first_digit : Parser → Option ℕ → Move
first_digit p (some d) = go (record { state = reading_chunk_size; size = d })
first_digit p none = bad

-- State 1. The product and the sum are in `size_t`, and wrap around.
next_digit : Parser → ℕ → Option ℕ → Move
next_digit p c (some d) = go (record p { size = (p.size * 16 + d) % size_mod })
next_digit p c none =
    if c == b' ' || c == b'\t' || c == b';'
    then goto p after_chunk_size
    else if c == 13
    then goto p cr_after_chunk_size
    else bad

-- The branches of the loop but that of state 4, which reads no single byte.
pub step_in : State → Parser → ℕ → Move
unfolding first_digit next_digit
step_in chunk_size p c = first_digit p (hex_digit c)
step_in reading_chunk_size p c = next_digit p c (hex_digit c)
step_in after_chunk_size p c =
    if c == 13 then goto p cr_after_chunk_size else if is_control c then bad else go p
step_in cr_after_chunk_size p c =
    if c == 10 then goto p (if ltb 0 p.size then chunk_data else trailer) else bad
step_in chunk_data p c = bad
step_in after_chunk_data p c = if not (c == 13) then bad else goto p cr_after_chunk_data
step_in cr_after_chunk_data p c = if not (c == 10) then bad else goto p chunk_size
step_in trailer p c =
    if c == 13
    then goto p cr_after_trailer
    else if leb b' ' c || c == b'\t'
    then goto p entity_header
    else bad
step_in entity_header p c =
    if c == 13 then goto p cr_after_entity_header else if is_control c then bad else go p
step_in cr_after_entity_header p c = if not (c == 10) then bad else goto p trailer
step_in cr_after_trailer p c = if not (c == 10) then bad else finish

pub is_data : State → Bool
is_data chunk_data = true
is_data _ = false

-- The variables of the loop: the object, the callback's state, `ptr - buf`, and the bytes from `ptr`
-- to `end`.
pub record Cursor (S : Type 0) : Type 0 where
  pub parser : Parser
  pub sink : S
  pub at : ℕ
  pub rest : Bytes

module _ {S : Type 0} (add : S → Bytes → S × Bool) where
  -- State 4, with `data` from `ptr` to `end`: hands over what it has of the chunk.
  pub data_round : Cursor S → Bytes → Round (Cursor S) (Outcome S)
  data_round k data' =
      let p = k.parser in
      let pending = length data' in
      if leb p.size pending
      then (let r = add k.sink (take p.size data') in
          if r.1
          then more (record {
            parser = record p { state = after_chunk_data };
            sink = r.0;
            at = k.at + p.size;
            rest = drop p.size data';
          })
          else stop (callback_failed p r.0))
      else (let r = add k.sink data' in
          if r.1
          then stop (not_end_of_response (record p { size = p.size - pending }) r.0)
          else stop (callback_failed p r.0))

  -- The other states, at the byte `c`; `ptr++` after it.
  pub byte_round : Cursor S → Move → Bytes → Round (Cursor S) (Outcome S)
  byte_round k (go q) cs = more (record k { parser = q; at = k.at + 1; rest = cs })
  byte_round k bad cs = stop (invalid_chunked_response k.parser k.sink)
  byte_round k finish cs = stop (end_of_response (k.at + 1) k.parser k.sink)

  pub round_in : Cursor S → Bytes → Round (Cursor S) (Outcome S)
  unfolding data_round byte_round step_in is_data
  round_in k [] = stop (not_end_of_response k.parser k.sink)
  round_in k (c ∷ cs) =
      if is_data k.parser.state
      then data_round k (c ∷ cs)
      else byte_round k (step_in k.parser.state k.parser c) cs

  abbrev pub round : Cursor S → Round (Cursor S) (Outcome S)
  round k = round_in k k.rest

  -- `none` is fuel that ran out, which does not happen: a round takes a byte, or it is a round of
  -- state 4, which none other follows.
  pub parse_chunk : Parser → S → Bytes → Option (Outcome S)
  unfolding round_in loop
  parse_chunk p s buf =
      loop round (2 * length buf + 2) (record { parser = p; sink = s; at = 0; rest = buf })
