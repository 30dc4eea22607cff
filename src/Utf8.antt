-- ===== src/Utf8.antt =====
-- string/utf8.h and string/utf8.cpp: both `length`, which count the characters of a text in UTF-8. A byte
-- is below 256; a mask of a byte is a quotient here.
pub mod Characters
mod Examples
use gweb_plusplus.Base.{
  ℕ, zero, suc, ◌+◌, ◌/◌, Bool, true, false, List, [], ◌∷◌, Option, none, some, leb, ◌==◌,
  if◌then◌else◌, Bytes, length,
}

-- How many bytes follow the first one of a character.
pub following : ℕ → Option ℕ
following c =
    if c / 8 == 30
    then some 3
    else if c / 16 == 14
    then some 2
    else if c / 32 == 6
    then some 1
    else if leb 128 c
    then none
    else some 0

pub is_following : ℕ → Bool
is_following c = c / 64 == 2

-- `left` and `utf8len`. The state is 1 where `left` is not 0.
pub count_from : ℕ → ℕ → Bytes → Option ℕ
count_from zero n [] = some n
count_from (suc left) n [] = none
count_from zero n (c ∷ cs) = elim (following c) [
  | none ↦ none
  | some left ↦ count_from left (n + 1) cs
]
count_from (suc left) n (c ∷ cs) =
    let rest = count_from left n cs in if is_following c then rest else none

-- On the bytes up to an end.
pub utf8_length : Bytes → Option ℕ
unfolding count_from
utf8_length string = count_from 0 0 string

-- On the bytes before a NUL: the count of the bytes, and that of the characters.
pub utf8_length_nul : Bytes → Option (ℕ × ℕ)
unfolding utf8_length
utf8_length_nul string = elim (utf8_length string) [
  | none ↦ none
  | some n ↦ some (length string, n)
]
