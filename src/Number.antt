-- ===== src/Number.antt =====
-- util/number.h and util/number.cpp: the length of a number in decimal, and the three parsers of
-- decimal numbers. What the parsers leave in `n` where they return `PARSE_ERROR` is not modelled: no
-- caller reads it.
pub mod Exact
pub mod Wrap
pub mod Length
mod Examples
use gweb_plusplus.Base.{
  ℕ, zero, suc, ◌+◌, ◌-◌, ◌*◌, ◌%◌, ◌^◌, Bool, true, false, ◌||◌, [], ◌∷◌, Option, none, some, ltb,
  leb, ◌==◌, if◌then◌else◌, is_digit, Bytes, unsigned_mod, size_mod, ℤ, pos, negsuc, ltb_ℤ, off_t,
  pos_part,
}

-- The loop of `length`: `n` is a row of nines as long as `len`, but for the sign.
length_loop : ℕ → ℕ → ℕ → ℕ → Option ℕ
length_loop zero n x len = none
length_loop (suc fuel) n x len =
    let tmp = off_t (n * 10 + 9) in
    let longer = length_loop fuel (pos_part tmp) x (len + 1) in
    if ltb n x then (if ltb_ℤ tmp (pos n) then some len else longer) else some len

-- `number *= -1` leaves the least `off_t` as it is, below 9. The fuel is `none` if it runs out: the
-- loop makes at most 18 rounds before the overflow.
pub number_length : ℤ → Option ℕ
number_length (pos x) = length_loop 19 9 x 1
number_length (negsuc x) = if x + 1 == 2 ^ 63 then some 2 else length_loop 19 9 (x + 1) 2

-- `parse_result_t`, with the number that is stored.
pub data ParseResult (A : Type 0) : Type 0 where
  parse_error : ParseResult A
  parse_underflow : A → ParseResult A
  parse_overflow : A → ParseResult A
  parse_succeeded : A → ParseResult A

-- The loop of `parse_unsigned` and `parse_size_t`, which differ in their width.
pub digits_loop : ℕ → ℕ → Bytes → Option ℕ
digits_loop m n [] = some n
digits_loop m n (c ∷ cs) =
    let tmp = (n * 10 + (c - b'0')) % m in
    let rest = digits_loop m tmp cs in
    if is_digit c then (if ltb tmp n then none else rest) else none

-- The tests behind the loop.
check_limits : Option ℕ → ℕ → ℕ → ParseResult ℕ
check_limits none lo hi = parse_error
check_limits (some n) lo hi =
    if ltb n lo then parse_underflow n else if ltb hi n then parse_overflow n else parse_succeeded n

parse_width : ℕ → Bytes → ℕ → ℕ → ParseResult ℕ
unfolding digits_loop check_limits
parse_width m [] lo hi = parse_error
parse_width m (c ∷ cs) lo hi = check_limits (digits_loop m 0 (c ∷ cs)) lo hi

pub parse_unsigned : Bytes → ℕ → ℕ → ParseResult ℕ
unfolding parse_width
parse_unsigned s lo hi = parse_width unsigned_mod s lo hi

pub parse_size_t : Bytes → ℕ → ℕ → ParseResult ℕ
unfolding parse_width
parse_size_t s lo hi = parse_width size_mod s lo hi

-- The loop of `parse_off_t`. `n` starts from 0 and does not fall, so it is a number.
pub off_t_loop : ℕ → Bytes → Option ℕ
off_t_loop n [] = some n
off_t_loop n (c ∷ cs) =
    let tmp = off_t (n * 10 + (c - b'0')) in
    let rest = off_t_loop (pos_part tmp) cs in
    if is_digit c then (if ltb_ℤ tmp (pos n) then none else rest) else none

-- `n *= sign`
abbrev pub signed : Bool → ℕ → ℤ
signed false n = pos n
signed true zero = pos zero
signed true (suc n) = negsuc n

check_off_t : Bool → Option ℕ → ℤ → ℤ → ParseResult ℤ
check_off_t minus none lo hi = parse_error
check_off_t minus (some n) lo hi =
    let z = signed minus n in
    if ltb_ℤ z lo
    then parse_underflow z
    else if ltb_ℤ hi z
    then parse_overflow z
    else parse_succeeded z

-- A sign alone is no number.
after_sign : Bool → Bytes → ℤ → ℤ → ParseResult ℤ
unfolding check_off_t off_t_loop
after_sign minus [] lo hi = parse_error
after_sign minus (c ∷ cs) lo hi = check_off_t minus (off_t_loop 0 (c ∷ cs)) lo hi

pub parse_off_t : Bytes → ℤ → ℤ → ParseResult ℤ
unfolding after_sign
parse_off_t [] lo hi = parse_error
parse_off_t (c ∷ cs) lo hi =
    if c == b'-'
    then after_sign true cs lo hi
    else if c == b'+'
    then after_sign false cs lo hi
    else check_off_t false (off_t_loop 0 (c ∷ cs)) lo hi
