-- ===== src/Common.antt =====
-- Shared vocabulary of the development: the names of the libraries passed on, Boolean tests,
-- lists over native numbers, occurrence counts, dictionaries and the effect of a C++ method.
mod Tests
mod Lists
mod Counts
mod Dicts
mod Effects
mod Integers
pub mod Stateful
pub use Tests.*
pub use Lists.*
pub use Counts.*
unfoldable pub use Dicts.*
pub use Effects.*
unfoldable pub use Integers.*
pub use Prim.Native.Nat.{ℕ, zero, suc, ◌+◌, ◌-◌, ◌*◌, ◌/◌, ◌%◌, ◌^◌, ◌≤◌, ◌<◌}
pub use mathlib.Core.Path.{◌≡◌, refl, sym, ap, ◌∙◌, subst}
pub use mathlib.Core.Logic.{◌≢◌, ◌↔◌, ◌⊎◌, inl, inr}
pub use mathlib.Core.Bool.{Bool, true, false, not, ◌&&◌, ◌||◌}
pub use mathlib.Core.Option.{Option, none, some}
pub use mathlib.Core.List.{List, [], ◌∷◌, ◌++◌, map}
pub use native.Mathlib.Omega.{arith}
