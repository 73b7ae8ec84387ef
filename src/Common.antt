-- ===== src/Common.antt =====
-- The names that the other modules share: the libraries' names passed on, the Boolean tests, lists
-- and dictionaries by native numbers and texts, signed integers, and predicates over lists.
mod Tests
mod Lists
pub mod Int
pub mod Dict
pub mod Text
pub mod Chars
pub mod Decimal
unfoldable pub use Tests.{str_eq}
pub use Tests.*
pub use Lists.*
pub use Prim.Native.Nat.{ℕ, zero, suc, ◌+◌, ◌-◌, ◌*◌, ◌/◌, ◌%◌, ◌≤◌, ◌<◌, min}
pub use Prim.Native.String.{String}
pub use mathlib.Core.Path.{◌≡◌, refl, sym, ap, subst, ◌∙◌}
pub use mathlib.Core.Logic.{◌≢◌, ◌↔◌, ◌⊎◌, inl, inr}
pub use mathlib.Core.Bool.{Bool, true, false, not, ◌&&◌, ◌||◌}
pub use mathlib.Core.Option.{Option, none, some}
pub use mathlib.Core.List.{List, [], ◌∷◌, ◌++◌, map}
pub use native.Mathlib.Omega.{arith}
