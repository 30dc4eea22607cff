-- ===== src/Number/Wrap.antt =====
-- util/number.cpp: what the parsers of unsigned numbers accept, with their test `tmp < n`.
use native.Mathlib.Nat.{div-add-mod}
use gweb_plusplus.Base.{
  ℕ, ◌+◌, ◌-◌, ◌*◌, ◌%◌, ◌≤◌, [], ◌∷◌, ◌≡◌, ◌≢◌, ap, ◌∙◌, Option, none, some, arith, Bytes, All,
  IsDigit, decimal_value, continued, continued-cons, unsigned_mod, size_mod,
}
use gweb_plusplus.Number.{parse_succeeded, digits_loop, check_limits, parse_unsigned, parse_size_t}

-- What an accepted numeral's value is: the last `width` bits of the value that is written.
abbrev pub Accepted : ℕ → ℕ → Bytes → ℕ → Type 0
Accepted m n ds v = All IsDigit ds × (v ≡ continued n ds % m)

carry : (a p v : ℕ) → ((a % size_mod) * p + v) % size_mod ≡ (a * p + v) % size_mod
carry a p v = omega (arith, ap (λ t. t * p) (div-add-mod a size_mod))

carry_unsigned :
    (a p v : ℕ) → ((a % unsigned_mod) * p + v) % unsigned_mod ≡ (a * p + v) % unsigned_mod
carry_unsigned a p v = omega (arith, ap (λ t. t * p) (div-add-mod a unsigned_mod))

digits_loop-eq-some :
    (m k c : ℕ) (cs : Bytes) (v : ℕ)
    → digits_loop m k (c ∷ cs) ≡ some v
    → IsDigit c × (digits_loop m ((k * 10 + (c - b'0')) % m) cs ≡ some v)
unfolding digits_loop
digits_loop-eq-some m k c cs v e = ground arith

digits_loop-nil : (m k v : ℕ) → digits_loop m k [] ≡ some v → v ≡ k
unfolding digits_loop
digits_loop-nil m k v e = cc

-- The loop, for a modulus that the products carry through.
digits_loop-Accepted :
    (m n : ℕ) (ds : Bytes) (v : ℕ)
    → ((a p w : ℕ) → ((a % m) * p + w) % m ≡ (a * p + w) % m)
    → digits_loop m (n % m) ds ≡ some v
    → Accepted m n ds v
digits_loop-Accepted m n [] v law e =
    let n' : n * 1 + 0 ≡ n = omega arith in (tt, rw n' (digits_loop-nil m (n % m) v e))
digits_loop-Accepted m n (c ∷ cs) v law e =
    let (d, e') = digits_loop-eq-some m (n % m) c cs v e in
    let (ds, e'') = digits_loop-Accepted m (n * 10 + (c - b'0')) cs v law (rw law at e') in
    ((d, ds), e'' ∙ ap (λ k. k % m) (continued-cons n c cs))

check_limits-eq-succeeded :
    (o : Option ℕ) (lo hi v : ℕ)
    → check_limits o lo hi ≡ parse_succeeded v
    → (o ≡ some v) × (lo ≤ v) × (v ≤ hi)
unfolding check_limits
check_limits-eq-succeeded none lo hi v e = cc
check_limits-eq-succeeded (some n) lo hi v e = ground arith

-- A success of `parse_unsigned` shows that the text is a numeral, but only that the number stored is
-- its value modulo 2 ^ 32, and that this remainder lies within the limits.
pub parse_unsigned_wraps :
    (ds : Bytes) (lo hi v : ℕ)
    → parse_unsigned ds lo hi ≡ parse_succeeded v
    → All IsDigit ds × (ds ≢ []) × (v ≡ decimal_value ds % unsigned_mod) × (lo ≤ v) × (v ≤ hi)
unfolding parse_unsigned
parse_unsigned_wraps [] lo hi v e = cc
parse_unsigned_wraps (c ∷ cs) lo hi v e =
    let (o, l, h) = check_limits-eq-succeeded (digits_loop unsigned_mod 0 (c ∷ cs)) lo hi v e in
    let (ds, m) = digits_loop-Accepted unsigned_mod 0 (c ∷ cs) v carry_unsigned o in
    (ds, (λ ne. cc), m ∙ ap (λ k. k % unsigned_mod) (omega arith), l, h)

-- A success of `parse_size_t` shows that the text is a numeral, but only that the number stored is
-- its value modulo 2 ^ 64, and that this remainder lies within the limits.
pub parse_size_t_wraps :
    (ds : Bytes) (lo hi v : ℕ)
    → parse_size_t ds lo hi ≡ parse_succeeded v
    → All IsDigit ds × (ds ≢ []) × (v ≡ decimal_value ds % size_mod) × (lo ≤ v) × (v ≤ hi)
unfolding parse_size_t
parse_size_t_wraps [] lo hi v e = cc
parse_size_t_wraps (c ∷ cs) lo hi v e =
    let (o, l, h) = check_limits-eq-succeeded (digits_loop size_mod 0 (c ∷ cs)) lo hi v e in
    let (ds, m) = digits_loop-Accepted size_mod 0 (c ∷ cs) v carry o in
    (ds, (λ ne. cc), m ∙ ap (λ k. k % size_mod) (omega arith), l, h)
