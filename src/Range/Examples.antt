-- ===== src/Range/Examples.antt =====
-- `range_parser::parse` on concrete headers, and its theorem at one of them.
use gweb_plusplus.Base.{arith, ℕ, Bool, true, false, [], ◌∷◌, ◌≡◌, refl, Bytes, pos}
use gweb_plusplus.Range.{add, RangeList, no_ranges, parse_ranges}
use gweb_plusplus.Range.Bounds.{IsValid, parse_ranges-IsValid}

abbrev enough_memory : ℕ → Bool
enough_memory n = true

-- `0-4, 6-, -300`
abbrev three_ranges : Bytes
three_ranges =
    b'0' ∷ b'-' ∷ b'4' ∷ b',' ∷ b' ' ∷ b'6' ∷ b'-' ∷ b',' ∷ b'-' ∷ b'3' ∷ b'0' ∷ b'0' ∷ []

-- The ranges of a file of 200 bytes.
three_ranges_result : RangeList
three_ranges_result = record {
  size = 4;
  ranges =
      record { from = pos 0; to = pos 4 }
      ∷ record { from = pos 6; to = pos 199 }
      ∷ record { from = pos 0; to = pos 199 }
      ∷ [];
}

three_ranges_run :
    parse_ranges enough_memory 200 three_ranges no_ranges ≡ (three_ranges_result, true)
unfolding parse_ranges add three_ranges_result
three_ranges_run = refl

-- `4-2` is refused.
backwards_run :
    parse_ranges enough_memory 200 (b'4' ∷ b'-' ∷ b'2' ∷ []) no_ranges ≡ (no_ranges, false)
unfolding parse_ranges add
backwards_run = refl

parse_ranges-IsValid_example : IsValid 200 (parse_ranges enough_memory 200 three_ranges no_ranges).0
parse_ranges-IsValid_example =
    parse_ranges-IsValid enough_memory 200 three_ranges no_ranges
      (record { within = tt; fits = omega arith })
