-- ===== src/Number/Examples.antt =====
-- The theorems on numbers at concrete texts.
use gweb_plusplus.Base.{
  [], ◌∷◌, ◌++◌, ◌≡◌, refl, some, arith, Bytes, decimal_value, pos, negsuc, ltb_ℤ,
}
use gweb_plusplus.Number.{parse_succeeded, number_length, length_loop, parse_unsigned, parse_off_t}
use gweb_plusplus.Number.Exact.{judged, Sign, sign_text, signed_value, parse_off_t_exact}

-- 42
abbrev text : Bytes
text = b'4' ∷ b'2' ∷ []

-- 6000000000, above the largest `unsigned`, is taken for 1705032704.
wrapped :
    parse_unsigned
      (b'6' ∷ b'0' ∷ b'0' ∷ b'0' ∷ b'0' ∷ b'0' ∷ b'0' ∷ b'0' ∷ b'0' ∷ b'0' ∷ [])
      0
      4294967295
    ≡ parse_succeeded 1705032704
unfolding parse_unsigned
wrapped = refl

lengths : (number_length (pos 999) ≡ some 3) × (number_length (negsuc 999) ≡ some 5)
unfolding number_length length_loop
lengths = (refl, refl)

parse_off_t_exact_example :
    parse_off_t (sign_text Sign.minus ++ text) (pos 0) (pos 100)
    ≡ judged ltb_ℤ (pos 0) (pos 100) (signed_value Sign.minus (decimal_value text))
parse_off_t_exact_example =
    parse_off_t_exact Sign.minus text (pos 0) (pos 100) (refl, (refl, tt)) (λ e. cc) (omega arith)
