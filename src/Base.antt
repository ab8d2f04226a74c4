-- ===== src/Base.antt =====
-- The names that every module shares: numbers, paths, logic, lists, and the children's helpers.
pub mod Tests
pub mod Lists
pub mod Digits
pub mod Words
pub mod Bits
pub mod Results
pub mod Bag
pub use Tests.*
pub use Lists.*
pub use Words.*
pub use Results.*
pub use Prim.Native.Nat.{
  ℕ, zero, suc, ◌+◌, ◌-◌, ◌*◌, ◌/◌, ◌%◌, ◌^◌, ◌≤◌, ◌<◌, min, max, bit_and, compare, Ordering,
}
pub use mathlib.Core.Path.{◌≡◌, refl, sym, ap, ◌∙◌}
pub use mathlib.Core.Logic.{◌≢◌, ◌↔◌, ◌⊎◌, inl, inr}
pub use mathlib.Core.Bool.{Bool, true, false, not, ◌&&◌, ◌||◌}
pub use mathlib.Core.Option.{Option, none, some}
pub use mathlib.Core.List.{List, [], ◌∷◌, ◌++◌, map}
pub use native.Mathlib.Omega.{arith}
