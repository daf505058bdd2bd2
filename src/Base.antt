-- ===== src/Base.antt =====
-- What the components share: names of the libraries passed on, Boolean tests, lists over the
-- native numbers, C strings, and the bit operations on machine words.
mod Tests
mod Lists
mod Bits
mod Text
mod Decimal
pub use Tests.*
pub use Lists.*
pub use Bits.*
pub use Text.*
unfoldable pub use Decimal.{decimal, decimal_02}
pub use Prim.Native.Nat.{ℕ, zero, suc, ◌+◌, ◌-◌, ◌*◌, ◌/◌, ◌%◌, ◌^◌, ◌≤◌, ◌<◌, bit_and, bit_or}
pub use mathlib.Core.Path.{◌≡◌, refl, sym, ap, ◌∙◌}
pub use mathlib.Core.Logic.{◌≢◌, ◌↔◌, ◌⊎◌, inl, inr}
pub use mathlib.Core.Bool.{Bool, true, false, not, ◌&&◌, ◌||◌}
pub use mathlib.Core.Option.{Option, none, some}
pub use mathlib.Core.List.{List, [], ◌∷◌, ◌++◌, map, append_assoc, append-nil}
pub use native.Mathlib.Omega.{arith}
