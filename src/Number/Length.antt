-- ===== src/Number/Length.antt =====
-- util/number.cpp: `number::length` against the length of a numeral.
use native.Mathlib.Nat.{pow-suc, pow-le-pow_right}
use gweb_plusplus.Base.{
  ℕ, zero, suc, ◌+◌, ◌-◌, ◌*◌, ◌^◌, ◌<◌, ◌≤◌, ◌≡◌, refl, ap, ◌∙◌, ◌==◌, false, ◌⊎◌, inl, inr, some,
  arith, ltb, Bool-cases, ltb→lt, ltb→le, leb, leb→lt, leb→le, pos, negsuc, off_t,
}
use gweb_plusplus.Number.{length_loop, number_length}

-- `len` digits are needed to write `x`, and no fewer: one for 0.
abbrev pub IsLength : ℕ → ℕ → Type 0
IsLength x len = (x < 10 ^ len) × ((10 ^ len ≤ x * 10) ⊎ (len ≡ 1))

-- A round that goes on from a row of `k` nines.
length_round :
    (fuel p x len : ℕ)
    → 1 ≤ p
    → p * 10 ≤ 10 ^ 18
    → p ≤ x
    → length_loop (suc fuel) (p - 1) x len ≡ length_loop fuel (p * 10 - 1) x (len + 1)
unfolding length_loop
length_round fuel p x len pos' small le =
    let e : off_t ((p - 1) * 10 + 9) ≡ pos (p * 10 - 1) = ground arith in rw e (ground arith)

length_stop : (fuel p x len : ℕ) → 1 ≤ p → x < p → length_loop (suc fuel) (p - 1) x len ≡ some len
unfolding length_loop
length_stop fuel p x len pos' lt = ground arith

pow_bound : (k : ℕ) → k < 18 → 10 ^ k * 10 ≤ 10 ^ 18
pow_bound k h =
    omega (arith, pow-suc 10 k, pow-le-pow_right {n = 10} (omega arith) {i = suc k} {j = 18} h)

one_le_pow : (k : ℕ) → 1 ≤ 10 ^ k
one_le_pow k = pow-le-pow_right {n = 10} (omega arith) {i = 0} {j = k} (omega arith)

start_lt : (k x : ℕ) → 10 ^ k ≤ x → x < 10 ^ 18 → k < 18
start_lt k x h lt = elim (Bool-cases (ltb k 18)) [
  | inl small ↦ ltb→lt k 18 small
  | inr large ↦
      absurd (
        omega (arith, pow-le-pow_right {n = 10} (omega arith) {i = 18} {j = k} (ltb→le k 18 large)))
]

-- The loop from a row of `k` nines, `s` places being taken by the sign.
length_loop_lem :
    (fuel k x s : ℕ)
    → k + fuel ≡ 20
    → 1 ≤ k
    → (10 ^ k ≤ x * 10) ⊎ (k ≡ 1)
    → x < 10 ^ 18
    → (l : ℕ) × (length_loop fuel (10 ^ k - 1) x (k + s) ≡ some (l + s)) × IsLength x l
length_loop_lem zero k x s f pos' start lt = absurd (elim start [
  | inl h ↦ omega (arith, ap (λ t. 10 ^ t) (let e : k ≡ 20 = omega arith in e))
  | inr h ↦ omega arith
])
length_loop_lem (suc fuel) k x s f pos' start lt = elim (Bool-cases (leb (10 ^ k) x)) [
  | inl le ↦
      let p = leb→le (10 ^ k) x le in
      let small = pow_bound k (start_lt k x p lt) in
      let grow = pow-suc 10 k in
      let (l, e, spec) =
        length_loop_lem fuel (suc k) x s (omega arith) (omega arith) (inl (omega (arith, grow)))
          lt in
      (
        l,
        length_round fuel (10 ^ k) x (k + s) (one_le_pow k) small p
            ∙ rw (← grow) (rw (let c : k + s + 1 ≡ suc k + s = omega arith in c) e),
        spec,
      )
  | inr gt ↦ (
    k,
    length_stop fuel (10 ^ k) x (k + s) (one_le_pow k) (leb→lt (10 ^ k) x gt),
    (leb→lt (10 ^ k) x gt, start),
  )
]

-- For numbers of up to 18 digits `length` returns the number of digits, and one more for a minus
-- sign.
pub number_length-IsLength :
    (x : ℕ)
    → suc x < 10 ^ 18
    → ((l : ℕ) × (number_length (pos x) ≡ some l) × IsLength x l)
      × ((l : ℕ) × (number_length (negsuc x) ≡ some (l + 1)) × IsLength (suc x) l)
unfolding number_length
number_length-IsLength x lt =
    let (l, e, spec) = length_loop_lem 19 1 x 0 refl (omega arith) (inr refl) (omega arith) in
    let (m, d, spec') = length_loop_lem 19 1 (suc x) 1 refl (omega arith) (inr refl) lt in
    let no_min : (x + 1 == 2 ^ 63) ≡ false = ground arith in
    (
      (l, e ∙ ap some (omega arith), spec),
      (m, rw no_min (rw (let c : x + 1 ≡ suc x = omega arith in c) d), spec'),
    )

-- A number of 19 digits has length 18: the test for overflow ends the loop a round too early.
pub number_length_short : (x : ℕ) → 10 ^ 18 ≤ x → x < 2 ^ 63 → number_length (pos x) ≡ some 18
unfolding number_length length_loop
number_length_short x le lt = ground arith
