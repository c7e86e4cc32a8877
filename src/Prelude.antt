-- ===== src/Prelude.antt =====
-- The names that the other modules share: the libraries', passed on, and those of the children:
-- Boolean tests, lists over the native numbers, decidable equality as an instance, JavaScript's
-- insertion-ordered `Map`, its stable `Array.prototype.sort`, and texts as lists of code units.
mod Bools
mod Lists
mod Equality
pub mod Decimal
pub mod JsMap
pub mod Sort
pub mod Text
pub use Bools.*
pub use Lists.*
pub use Equality.*
pub use Prim.Native.Nat.{ℕ, zero, suc, ◌+◌, ◌-◌, ◌*◌, ◌/◌, ◌%◌, ◌^◌, ◌≤◌, ◌<◌, min, max}
pub use Prim.Native.String.{String}
pub use mathlib.Core.Path.{◌≡◌, refl, sym, ap, ◌∙◌, subst}
pub use mathlib.Core.Logic.{◌≢◌, ◌↔◌, ◌⊎◌, inl, inr}
pub use mathlib.Core.Bool.{Bool, true, false, not, ◌&&◌, ◌||◌}
pub use mathlib.Core.Option.{Option, none, some}
pub use mathlib.Core.List.{List, [], ◌∷◌, ◌++◌, map, reverse}
pub use text.Mathlib.TextEquality.{eq_iff}
pub use native.Mathlib.Omega.{arith}
