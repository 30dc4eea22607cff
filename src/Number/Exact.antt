-- ===== src/Number/Exact.antt =====
-- The parsers of numbers on numerals that fit the width.
use native.Mathlib.Nat.{mod-eq_of_lt}
use gweb_plusplus.Base.{
  le→ltb, ℕ, ◌+◌, ◌-◌, ◌*◌, ◌<◌, ◌^◌, Bool, true, false, [], ◌∷◌, ◌++◌, ◌≡◌, ◌≢◌, refl, ap, ◌∙◌,
  some, arith, ltb, if◌then◌else◌, Bytes, All, IsDigit, decimal_value, continued, continued-cons,
  le-continued, unsigned_mod, size_mod, ℤ, ltb_ℤ,
}
use gweb_plusplus.Number.{
  ParseResult, parse_underflow, parse_overflow, parse_succeeded, digits_loop, parse_unsigned,
  parse_size_t, off_t_loop, signed, parse_off_t,
}

digits_loop-digit :
    (m n c : ℕ) (cs : Bytes)
    → IsDigit c
    → n * 10 + (c - b'0') < m
    → digits_loop m n (c ∷ cs) ≡ digits_loop m (n * 10 + (c - b'0')) cs
unfolding digits_loop
digits_loop-digit m n c cs d lt =
    rw (mod-eq_of_lt lt) (rw d (rw (le→ltb (n * 10 + (c - b'0')) n (omega arith))))

-- A numeral that fits the width is read as its value.
digits_loop-digits :
    (m n : ℕ) (ds : Bytes)
    → All IsDigit ds
    → continued n ds < m
    → digits_loop m n ds ≡ some (continued n ds)
unfolding digits_loop
digits_loop-digits m n [] h lt = ap some (omega arith)
digits_loop-digits m n (c ∷ cs) (d, h) lt =
    let e = continued-cons n c cs in
    digits_loop-digit m n c cs d (omega (arith, e, le-continued (n * 10 + (c - b'0')) cs))
    ∙ digits_loop-digits m (n * 10 + (c - b'0')) cs h (omega (arith, e))
    ∙ ap some e

-- What a parser must make of a number: the test against the limits.
abbrev pub judged : {A : Type 0} → (A → A → Bool) → A → A → A → ParseResult A
judged less lo hi n =
    if less n lo
    then parse_underflow n
    else if less hi n
    then parse_overflow n
    else parse_succeeded n

digits_loop_zero :
    (m : ℕ) (ds : Bytes)
    → All IsDigit ds
    → decimal_value ds < m
    → digits_loop m 0 ds ≡ some (decimal_value ds)
digits_loop_zero m ds h lt = digits_loop-digits m 0 ds h (omega arith) ∙ ap some (omega arith)

-- On a numeral whose value is below 2 ^ 32, `parse_unsigned` stores that value and returns how it
-- lies to the limits.
pub parse_unsigned_exact :
    (ds : Bytes) (lo hi : ℕ)
    → All IsDigit ds
    → ds ≢ []
    → decimal_value ds < unsigned_mod
    → parse_unsigned ds lo hi ≡ judged ltb lo hi (decimal_value ds)
unfolding parse_unsigned
parse_unsigned_exact [] lo hi h ne lt = absurd (ne refl)
parse_unsigned_exact (c ∷ cs) lo hi h ne lt = rw (digits_loop_zero unsigned_mod (c ∷ cs) h lt)

-- On a numeral whose value is below 2 ^ 64, `parse_size_t` stores that value and returns how it
-- lies to the limits.
pub parse_size_t_exact :
    (ds : Bytes) (lo hi : ℕ)
    → All IsDigit ds
    → ds ≢ []
    → decimal_value ds < size_mod
    → parse_size_t ds lo hi ≡ judged ltb lo hi (decimal_value ds)
unfolding parse_size_t
parse_size_t_exact [] lo hi h ne lt = absurd (ne refl)
parse_size_t_exact (c ∷ cs) lo hi h ne lt = rw (digits_loop_zero size_mod (c ∷ cs) h lt)

off_t_loop-digit :
    (n c : ℕ) (cs : Bytes)
    → IsDigit c
    → n * 10 + (c - b'0') < 2 ^ 63
    → off_t_loop n (c ∷ cs) ≡ off_t_loop (n * 10 + (c - b'0')) cs
unfolding off_t_loop
off_t_loop-digit n c cs d lt = ground arith

off_t_loop-digits :
    (n : ℕ) (ds : Bytes)
    → All IsDigit ds
    → continued n ds < 2 ^ 63
    → off_t_loop n ds ≡ some (continued n ds)
unfolding off_t_loop
off_t_loop-digits n [] h lt = ap some (omega arith)
off_t_loop-digits n (c ∷ cs) (d, h) lt =
    let e = continued-cons n c cs in
    off_t_loop-digit n c cs d (omega (arith, e, le-continued (n * 10 + (c - b'0')) cs))
    ∙ off_t_loop-digits (n * 10 + (c - b'0')) cs h (omega (arith, e))
    ∙ ap some e

off_t_loop_zero :
    (ds : Bytes)
    → All IsDigit ds
    → decimal_value ds < 2 ^ 63
    → off_t_loop 0 ds ≡ some (decimal_value ds)
off_t_loop_zero ds h lt = off_t_loop-digits 0 ds h (omega arith) ∙ ap some (omega arith)

-- A numeral with a sign or none.
pub data Sign : Type 0 where
  none plus minus : Sign

abbrev pub sign_text : Sign → Bytes
sign_text none = []
sign_text plus = b'+' ∷ []
sign_text minus = b'-' ∷ []

abbrev pub signed_value : Sign → ℕ → ℤ
signed_value minus n = signed true n
signed_value _ n = signed false n

-- On a numeral below 2 ^ 63 behind a `+`, a `-` or no sign, `parse_off_t` stores the signed value
-- and returns how it lies to the limits.
pub parse_off_t_exact :
    (g : Sign) (ds : Bytes) (lo hi : ℤ)
    → All IsDigit ds
    → ds ≢ []
    → decimal_value ds < 2 ^ 63
    → parse_off_t (sign_text g ++ ds) lo hi ≡ judged ltb_ℤ lo hi (signed_value g (decimal_value ds))
unfolding parse_off_t
parse_off_t_exact g [] lo hi h ne lt = absurd (ne refl)
parse_off_t_exact none (c ∷ cs) lo hi h ne lt = rw (off_t_loop_zero (c ∷ cs) h lt) (ground arith)
parse_off_t_exact plus (c ∷ cs) lo hi h ne lt = rw (off_t_loop_zero (c ∷ cs) h lt)
parse_off_t_exact minus (c ∷ cs) lo hi h ne lt = rw (off_t_loop_zero (c ∷ cs) h lt)
