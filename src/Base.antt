-- ===== src/Base.antt =====
-- The names that the development shares: the libraries', passed on, and those of its children.
mod Tests
mod Lists
mod Result
mod Bits
mod Word
mod Slots
mod Memory
mod Runs
pub use Tests.*
pub use Lists.*
pub use Result.*
pub use Bits.*
unfoldable pub use Bits.{all_below}
pub use Word.*
pub use Slots.*
pub use Memory.*
pub use Runs.*
pub use Prim.Native.Nat.{ℕ, zero, suc, ◌+◌, ◌-◌, ◌*◌, ◌/◌, ◌%◌, ◌^◌, ◌≤◌, ◌<◌, bit_and, bit_or}
pub use mathlib.Core.Path.{◌≡◌, refl, sym, ap, ◌∙◌}
pub use mathlib.Core.Logic.{◌≢◌, ◌↔◌, ◌⊎◌, inl, inr}
pub use mathlib.Core.Bool.{Bool, true, false, not, ◌&&◌, ◌||◌}
pub use mathlib.Core.Option.{Option, none, some}
pub use mathlib.Core.List.{List, [], ◌∷◌, ◌++◌, map}
pub use native.Mathlib.Omega.{arith}
