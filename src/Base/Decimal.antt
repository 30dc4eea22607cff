-- ===== src/Base/Decimal.antt =====
-- Numerals in base 10, the independent description of what the parsers read.
use Prim.Native.Nat.{ℕ, ◌+◌, ◌-◌, ◌*◌, ◌^◌, ◌≤◌}
use mathlib.Core.Path.{◌≡◌}
use mathlib.Core.Bool.{true}
use mathlib.Core.List.{[], ◌∷◌}
use native.Mathlib.Nat.{pow-suc, one-le-pow, le-mul_of_pos_right}
use native.Mathlib.Omega.{arith}
use gweb_plusplus.Base.Tests.{is_digit}
use gweb_plusplus.Base.Lists.{Bytes, length}

abbrev pub IsDigit : ℕ → Type 0
IsDigit c = is_digit c ≡ true

-- The value of a numeral: each digit by the weight of its place.
abbrev pub decimal_value : Bytes → ℕ
decimal_value [] = 0
decimal_value (c ∷ cs) = (c - b'0') * 10 ^ length cs + decimal_value cs

-- A numeral whose digits follow those of `n`.
abbrev pub continued : ℕ → Bytes → ℕ
continued n ds = n * 10 ^ length ds + decimal_value ds

pub continued-cons :
    (n c : ℕ) (cs : Bytes) → continued (n * 10 + (c - b'0')) cs ≡ continued n (c ∷ cs)
continued-cons n c cs = rw (pow-suc 10 (length cs)) (omega arith)

pub le-continued : (n : ℕ) (ds : Bytes) → n ≤ continued n ds
le-continued n ds =
    omega
      (arith, le-mul_of_pos_right {m = 10 ^ length ds} n (one-le-pow (length ds) 10 (omega arith)))
