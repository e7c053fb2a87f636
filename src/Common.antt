-- ===== src/Common.antt =====
-- What the components share: the libraries' names passed on, the tests on numbers, lists measured
-- by native numbers, bits, machine words, results and association lists.
pub mod Tests
pub mod Lists
pub mod Bits
pub mod Bytes
pub mod Assoc
pub mod Ints
pub mod Text
pub mod Paths
pub mod Streams
pub use Tests.*
pub use Lists.*
pub use Prim.Native.Nat.{ℕ, zero, suc, ◌+◌, ◌-◌, ◌*◌, ◌/◌, ◌%◌, ◌^◌, ◌≤◌, ◌<◌, min, max}
pub use mathlib.Core.Path.{◌≡◌, refl, sym, ap, ◌∙◌, subst}
pub use mathlib.Core.Logic.{◌≢◌, ◌↔◌, ◌⊎◌, inl, inr}
pub use mathlib.Core.Bool.{Bool, true, false, not, ◌&&◌, ◌||◌}
pub use mathlib.Core.Option.{Option, none, some}
pub use mathlib.Core.List.{List, [], ◌∷◌, ◌++◌, map}
pub use native.Mathlib.Omega.{arith}
