-- ===== src/Prelude.antt =====
-- Names that every module shares: the libraries', passed on, and those of the children. It models
-- no file of its own; `Prelude/Bits` holds the laws of C++'s `&`, `|`, `^` on unsigned operands.
mod Tests
mod Lists
pub mod Bits
mod Texts
pub use Tests.*
pub use Texts.*
unfoldable pub use Lists.{lookup, all_rows}
unfoldable pub use Tests.{all_below}
pub use Lists.*
pub use Prim.Native.Nat.{
  ℕ, zero, suc, ◌+◌, ◌-◌, ◌*◌, ◌/◌, ◌%◌, ◌^◌, ◌≤◌, ◌<◌, bit_and, bit_or, bit_xor,
}
pub use mathlib.Core.Path.{◌≡◌, refl, sym, ap, ◌∙◌}
pub use mathlib.Core.Logic.{◌≢◌, ◌↔◌, ◌⊎◌, inl, inr}
pub use mathlib.Core.Bool.{Bool, true, false, not, xor, ◌&&◌, ◌||◌}
pub use mathlib.Core.Option.{Option, none, some}
pub use mathlib.Core.List.{List, [], ◌∷◌, ◌++◌, map}
pub use native.Mathlib.Omega.{arith}
