-- ===== src/Common.antt =====
-- The names that the modules share: those of the libraries, passed on, and the helpers of the
-- children (Boolean tests, lists over the native numbers, outcomes of fallible calls, U256).
mod Tests
mod Lists
mod Results
mod U256
pub mod BTreeMap
pub mod Actions
pub mod Membership
pub mod Int
pub use Tests.*
pub use Lists.*
pub use Results.*
pub use U256.*
pub use Prim.Native.Nat.{
  ℕ, zero, suc, ◌+◌, ◌-◌, ◌*◌, ◌/◌, ◌%◌, ◌^◌, ◌≤◌, ◌<◌, compare, Ordering, max, min,
}
pub use mathlib.Core.Path.{◌≡◌, refl, sym, ap, ◌∙◌, subst}
pub use mathlib.Core.Logic.{◌≢◌, ◌↔◌, ◌⊎◌, inl, inr}
pub use mathlib.Core.Bool.{Bool, true, false, not, ◌&&◌, ◌||◌}
pub use mathlib.Core.Option.{Option, none, some}
pub use mathlib.Core.List.{List, [], ◌∷◌, ◌++◌, map, Perm}
pub use native.Mathlib.Omega.{arith}
