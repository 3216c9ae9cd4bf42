-- ===== src/Base.antt =====
-- What the modules share: names of the libraries passed on, Boolean tests on native numbers,
-- lists measured by native numbers, reads that may leave their buffer, and machine words.
mod Tests
mod Lists
mod Words
mod Faults
mod Bits
mod Text
mod Division
mod Outcomes
mod Chars
mod FromChars
mod Dicts
unfoldable pub use Tests.*
pub use Lists.*
pub use Words.*
pub use Faults.*
pub use Bits.*
pub use Text.*
pub use Division.*
pub use Outcomes.*
unfoldable pub use Chars.*
unfoldable pub use FromChars.*
unfoldable pub use Dicts.*
pub use Prim.Native.Nat.{
  ℕ, zero, suc, ◌+◌, ◌-◌, ◌*◌, ◌/◌, ◌%◌, ◌^◌, ◌≤◌, ◌<◌, min, max, bit_and, bit_or, bit_xor,
}
pub use mathlib.Core.Path.{◌≡◌, refl, sym, ap, ap₂, ◌∙◌}
pub use mathlib.Core.Logic.{◌≢◌, ◌↔◌, ◌⊎◌, inl, inr}
pub use mathlib.Core.Bool.{Bool, true, false, not, ◌&&◌, ◌||◌}
pub use mathlib.Core.Option.{Option, none, some}
pub use mathlib.Core.List.{List, [], ◌∷◌, ◌++◌, map, reverse}
pub use native.Mathlib.Omega.{arith}
