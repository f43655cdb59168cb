-- ===== src/Base.antt =====
-- Names that the modules of the development share: the libraries', passed on, and those of the
-- children.
mod Tests
mod Lists
mod Bits
mod Slices
mod Outcomes
pub use Tests.*
pub use Lists.*
pub use Bits.*
unfoldable pub use Bits.{test_bit, set_bit, clear_bit}
pub use Slices.*
unfoldable pub use Slices.{mem_copy}
pub use Outcomes.*
pub use Prim.Native.Nat.{ℕ, zero, suc, ◌+◌, ◌-◌, ◌*◌, ◌/◌, ◌%◌, ◌^◌, ◌≤◌, ◌<◌, min, max}
pub use Prim.Native.Nat.{bit_and, bit_or, bit_xor}
pub use mathlib.Core.Path.{◌≡◌, refl, sym, ap, subst, ◌∙◌}
pub use mathlib.Core.Logic.{◌≢◌, ◌↔◌, ◌⊎◌, inl, inr}
pub use mathlib.Core.Bool.{Bool, true, false, not, ◌&&◌, ◌||◌}
pub use mathlib.Core.Option.{Option, none, some}
pub use mathlib.Core.List.{List, [], ◌∷◌, ◌++◌, map, append-nil, append_assoc}
pub use native.Mathlib.Omega.{arith}
