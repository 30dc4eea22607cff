-- ===== src/Base/Loops.antt =====
-- A `while` loop: each round goes on from a new state, or returns. It takes fuel, and a measure that
-- falls with each round shows that the fuel suffices.
use Prim.Native.Nat.{ℕ, zero, suc, ◌<◌}
use mathlib.Core.Path.{◌≡◌, sym, ◌∙◌, refl, subst, ap}
use mathlib.Core.Logic.{◌⊎◌, inl, inr}
use mathlib.Core.Option.{Option, none, some}
use native.Mathlib.Omega.{arith}

pub data Round (S R : Type 0) : Type 0 where
  more : S → Round S R
  stop : R → Round S R

module _ {S R : Type 0} where
  pub Round-cases : (r : Round S R) → ((t : S) × (r ≡ more t)) ⊎ ((a : R) × (r ≡ stop a))
  Round-cases (more t) = inl (t, refl)
  Round-cases (stop a) = inr (a, refl)

  pub stop-ne-more : {a : R} {t : S} → stop a ≡ more t → ⊥
  stop-ne-more e = cc

  pub more-inj : {t u : S} → ◌≡◌ {A = Round S R} (more t) (more u) → t ≡ u
  more-inj e = cc

  pub stop-inj : {a b : R} → ◌≡◌ {A = Round S R} (stop a) (stop b) → a ≡ b
  stop-inj e = cc

module _ {S R : Type 0} (round : S → Round S R) where
  -- `none` is fuel that ran out.
  unfoldable pub loop : ℕ → S → Option R
  loop zero s = none
  loop (suc fuel) s = elim (round s) [ more t ↦ loop fuel t | stop r ↦ some r ]

  pub loop-more : (n : ℕ) {s t : S} → round s ≡ more t → loop (suc n) s ≡ loop n t
  unfolding loop
  loop-more n e = rw (e, loop)

  pub loop-stop : (n : ℕ) {s : S} {r : R} → round s ≡ stop r → loop (suc n) s ≡ some r
  unfolding loop
  loop-stop n e = rw (e, loop)

-- What a measure gives.
module _ {S R : Type 0} (round : S → Round S R) (measure : S → ℕ)
    (falls : (s t : S) → round s ≡ more t → measure t < measure s) where
  pub loop_total : (n : ℕ) (s : S) → measure s < n → (r : R) × (loop round n s ≡ some r)
  loop_total zero s h = absurd (omega arith)
  loop_total (suc n) s h = elim (Round-cases (round s)) [
    | inl (t, e) ↦
        let (r, d) = loop_total n t (omega (arith, falls s t e)) in (r, loop-more round n e ∙ d)
    | inr (r, e) ↦ (r, loop-stop round n e)
  ]

  -- Beyond the measure the fuel makes no difference.
  pub loop_fuel :
      (m n : ℕ) (s : S) → measure s < m → measure s < n → loop round m s ≡ loop round n s
  loop_fuel zero n s h k = absurd (omega arith)
  loop_fuel (suc m) zero s h k = absurd (omega arith)
  loop_fuel (suc m) (suc n) s h k = elim (Round-cases (round s)) [
    | inl (t, e) ↦
        loop-more round m e
        ∙ loop_fuel m n t (omega (arith, falls s t e)) (omega (arith, falls s t e))
        ∙ sym (loop-more round n e)
    | inr (r, e) ↦ loop-stop round m e ∙ sym (loop-stop round n e)
  ]

  -- The loop with the fuel that the measure asks for, unrolled once.
  pub loop_unroll :
      (m n : ℕ) {s t : S}
      → measure s < m
      → measure t < n
      → round s ≡ more t
      → loop round m s ≡ loop round n t
  loop_unroll zero n h k e = absurd (omega arith)
  loop_unroll (suc m) n {s} {t} h k e =
      loop-more round m e ∙ loop_fuel m n t (omega (arith, falls s t e)) k

-- The invariant rule: what every round keeps, and every return establishes.
module _ {ℓ κ} {S R : Type 0} (round : S → Round S R) (P : S → Type ℓ) (Q : R → Type κ)
    (keep : (s t : S) → P s → round s ≡ more t → P t)
    (post : (s : S) (r : R) → P s → round s ≡ stop r → Q r) where
  pub loop_inv : (n : ℕ) (s : S) {r : R} → P s → loop round n s ≡ some r → Q r
  unfolding loop
  loop_inv zero s h e = cc
  loop_inv (suc n) s h e = elim (Round-cases (round s)) [
    | inl (t, d) ↦ loop_inv n t (keep s t h d) (sym (loop-more round n d) ∙ e)
    | inr (r, d) ↦ subst Q (cc (loop-stop round n d)) (post s r h d)
  ]

abbrev pub map_round : {S T A B : Type 0} → (S → T) → (A → B) → Round S A → Round T B
map_round g h (more t) = more (g t)
map_round g h (stop a) = stop (h a)

abbrev pub map_result : {A B : Type 0} → (A → B) → Option A → Option B
map_result h none = none
map_result h (some a) = some (h a)

-- Two loops whose rounds correspond have corresponding results.
module _ {S T A B : Type 0} (round : S → Round S A) (round' : T → Round T B) (g : S → T) (h : A → B)
    (simulates : (s : S) → round' (g s) ≡ map_round g h (round s)) where
  pub loop_simulation : (n : ℕ) (s : S) → loop round' n (g s) ≡ map_result h (loop round n s)
  unfolding loop
  loop_simulation zero s = refl
  loop_simulation (suc n) s = elim (Round-cases (round s)) [
    | inl (t, e) ↦
        loop-more round' n (simulates s ∙ ap (map_round g h) e)
        ∙ loop_simulation n t
        ∙ ap (map_result h) (sym (loop-more round n e))
    | inr (a, e) ↦
        loop-stop round' n (simulates s ∙ ap (map_round g h) e)
        ∙ ap (map_result h) (sym (loop-stop round n e))
  ]

-- States that a round cannot tell apart, by `norm`, have results that `h` does not tell apart.
module _ {S A B : Type 0} (round : S → Round S A) (norm : S → S) (h : A → B)
    (respects : (s t : S)
      → norm s ≡ norm t
      → map_round norm h (round s) ≡ map_round norm h (round t)) where
  on_rounds :
      (n : ℕ)
      → ((s t : S)
          → norm s ≡ norm t
          → map_result h (loop round n s) ≡ map_result h (loop round n t))
      → (a b : Round S A) → map_round norm h a ≡ map_round norm h b
      → map_result h (elim a [ more t ↦ loop round n t | stop r ↦ some r ])
        ≡ map_result h (elim b [ more t ↦ loop round n t | stop r ↦ some r ])
  on_rounds n ih (more u) (more v) d = ih u v (cc)
  on_rounds n ih (more u) (stop b) d = cc
  on_rounds n ih (stop a) (more v) d = cc
  on_rounds n ih (stop a) (stop b) d = cc

  pub loop_respects :
      (n : ℕ) (s t : S)
      → norm s ≡ norm t
      → map_result h (loop round n s) ≡ map_result h (loop round n t)
  unfolding loop
  loop_respects zero s t e = refl
  loop_respects (suc n) s t e = on_rounds n (loop_respects n) (round s) (round t) (respects s t e)

  -- Two states whose first rounds correspond.
  pub loop_meet :
      (n : ℕ) (s t : S)
      → map_round norm h (round s) ≡ map_round norm h (round t)
      → map_result h (loop round (suc n) s) ≡ map_result h (loop round (suc n) t)
  unfolding loop
  loop_meet n s t e = on_rounds n (loop_respects n) (round s) (round t) e

-- The invariant rule for total correctness: what rounds keep bounds them too.
module _ {ℓ κ} {S R : Type 0} (round : S → Round S R) (P : S → Type ℓ) (Q : R → Type κ)
    (measure : S → ℕ) (keep : (s t : S) → P s → round s ≡ more t → P t × (measure t < measure s))
    (post : (s : S) (r : R) → P s → round s ≡ stop r → Q r) where
  pub loop_correct :
      (n : ℕ) (s : S) → P s → measure s < n → (r : R) × (loop round n s ≡ some r) × Q r
  loop_correct zero s h lt = absurd (omega arith)
  loop_correct (suc n) s h lt = elim (Round-cases (round s)) [
    | inl (t, e) ↦
        let (kept, falls) = keep s t h e in
        let (r, d, q) = loop_correct n t kept (omega arith) in (r, loop-more round n e ∙ d, q)
    | inr (r, e) ↦ (r, loop-stop round n e, post s r h e)
  ]
