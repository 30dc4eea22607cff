-- ===== src/Base/Traces.antt =====
-- Several rounds of a loop, as a relation.
use Prim.Native.Nat.{ℕ, suc, ◌<◌}
use mathlib.Core.Path.{◌≡◌, ◌∙◌}
use mathlib.Core.Option.{some}
use native.Mathlib.Omega.{arith}
use gweb_plusplus.Base.Loops.{Round, more, stop, loop, loop-stop, loop_fuel, loop_unroll}

pub data Runs {S R : Type 0} (round : S → Round S R) (s : S) : S → Type 0 where
  here : Runs round s s
  after : {t u : S} → Runs round s t → round t ≡ more u → Runs round s u

pub Runs-trans :
    {S R : Type 0} (round : S → Round S R) {s t u : S}
    → Runs round s t
    → Runs round t u
    → Runs round s u
Runs-trans round a here = a
Runs-trans round a (after b e) = after (Runs-trans round a b) e

module _ {S R : Type 0} (round : S → Round S R) (measure : S → ℕ)
    (falls : (s t : S) → round s ≡ more t → measure t < measure s) where
  -- The loop from the first state is the loop from the last, each with the fuel it needs.
  pub loop-Runs :
      {s t : S} → Runs round s t → loop round (suc (measure s)) s ≡ loop round (suc (measure t)) t
  loop-Runs {s} here = loop_fuel round measure falls _ _ s (omega arith) (omega arith)
  loop-Runs (after {t} {u} r e) =
      loop-Runs r
      ∙ loop_unroll round measure falls (suc (measure t)) (suc (measure u)) (omega arith)
          (omega arith) e

  -- A run that ends in a return.
  pub loop_returns :
      (n : ℕ) {s t : S} {a : R}
      → measure s < n
      → Runs round s t
      → round t ≡ stop a
      → loop round n s ≡ some a
  loop_returns n {s} h r e =
      loop_fuel round measure falls n (suc (measure s)) s h (omega arith)
      ∙ loop-Runs r
      ∙ loop-stop round _ e
