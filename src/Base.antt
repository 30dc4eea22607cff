-- ===== src/Base.antt =====
-- The names that the other modules share: the libraries', passed on, Boolean tests, lists measured
-- by native numbers, bytes, and the widths of the machine's integers.
mod Tests
mod Lists
mod Loops
mod Traces
mod Int
mod Decimal
mod Options
pub use Tests.*
pub use Lists.*
unfoldable pub use Loops.*
pub use Traces.*
pub use Int.*
pub use Decimal.*
pub use Options.*
pub use Prim.Native.Nat.{ℕ, zero, suc, ◌+◌, ◌-◌, ◌*◌, ◌/◌, ◌%◌, ◌^◌, ◌≤◌, ◌<◌, min, max}
pub use mathlib.Core.Path.{◌≡◌, refl, sym, ap, ◌∙◌, fun_ext, ◌≡⟨◌⟩◌, ◌∎, subst}
pub use mathlib.Core.Logic.{◌≢◌, ◌↔◌, ◌⊎◌, inl, inr}
pub use mathlib.Core.Bool.{Bool, true, false, ◌&&◌, ◌||◌, not}
pub use mathlib.Core.Option.{Option, none, some}
pub use mathlib.Core.List.{List, [], ◌∷◌, ◌++◌, map, append-nil, append_assoc}
unfoldable pub use mathlib.Core.List.{flatten}
pub use native.Mathlib.Omega.{arith}
