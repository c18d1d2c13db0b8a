-- ===== src/Base.antt =====
-- Names shared by every part: the libraries' names passed on, the tests on native numbers, lists
-- indexed by native numbers, Go's run-time outcomes and Go's maps with integer keys.
mod Tests
mod Lists
mod Panics
mod Texts
pub mod IntMap
pub use Tests.*
pub use Lists.*
unfoldable pub use Panics.*
pub use Texts.*
pub use Prim.Native.Nat.{ℕ, zero, suc, ◌+◌, ◌-◌, ◌*◌, ◌/◌, ◌%◌, ◌^◌, ◌≤◌, ◌<◌}
pub use Prim.Native.String.{String}
pub use mathlib.Core.Path.{◌≡◌, refl, sym, ap, subst, ◌∙◌}
pub use mathlib.Core.Logic.{◌≢◌, ◌↔◌, ◌⊎◌, inl, inr}
pub use mathlib.Core.Bool.{Bool, true, false, not, ◌&&◌, ◌||◌}
pub use mathlib.Core.Option.{Option, none, some}
pub use mathlib.Core.List.{List, [], ◌∷◌, ◌++◌, map}
pub use native.Mathlib.Omega.{arith}
