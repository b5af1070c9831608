-- ===== src/Prelude.antt =====
-- The names that the other modules share: the libraries', passed on, with tests on numbers and
-- texts, lists measured by native numbers, and Go's signed integers.
mod Tests
mod Lists
mod Signed
pub use Tests.*
pub use Lists.*
pub use Signed.*
pub use Prim.Native.Nat.{ℕ, zero, suc, ◌+◌, ◌-◌, ◌*◌, ◌/◌, ◌%◌, ◌^◌, ◌≤◌, ◌<◌}
pub use Prim.Native.String.{String}
pub use mathlib.Core.Path.{◌≡◌, refl, sym, ap, ap₂, subst, ◌∙◌}
pub use mathlib.Core.Logic.{◌≢◌, ◌↔◌, ◌⊎◌, inl, inr}
pub use mathlib.Core.Bool.{Bool, true, false, not, ◌&&◌, ◌||◌, false≢true}
pub use mathlib.Core.Option.{Option, none, some}
pub use mathlib.Core.List.{List, [], ◌∷◌, ◌++◌, map}
pub use native.Mathlib.Omega.{arith}
pub use text.Mathlib.TextEquality.{eq_iff}
pub use Prim.Native.String.{◌++◌ as concat}
unfoldable pub use text.Mathlib.Text.{◌==◌ as str_eq}
