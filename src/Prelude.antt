-- ===== src/Prelude.antt =====
-- The names that the other modules share: the library's, passed on, and those of two children.
mod Tests
mod Lists
mod Bits
mod Fields
mod Masks
mod Int
pub use Tests.*
pub use Bits.{bit_and-3, bit_and-4, bit_and-15, bit_and-128, bit_and-248}
pub use Fields.{bit_or-fields, bit_or-8}
pub use Masks.{bit_and-ones, bit_and-8}
pub use Int.{ℤ, pos, negsuc}
unfoldable pub use Int.{ℤ_discrete, minus, ◌+ℤ◌, negate, less}
pub use Lists.*
pub use Prim.Native.Nat.{ℕ, zero, suc, ◌+◌, ◌-◌, ◌*◌, ◌/◌, ◌%◌, ◌^◌, ◌≤◌, ◌<◌, min, bit_and, bit_or}
pub use mathlib.Core.Path.{◌≡◌, refl, sym, ap, ◌∙◌, subst}
pub use mathlib.Core.Logic.{◌≢◌, ◌↔◌, ◌⊎◌, inl, inr, ite, if_pos, if_neg}
pub use mathlib.Core.Bool.{true≢false, Bool, true, false, not, ◌&&◌, ◌||◌}
pub use mathlib.Core.Option.{Option, none, some, some-injective, none-ne-some}
pub use mathlib.Core.List.{List, [], ◌∷◌, ◌++◌, map, append-nil, append_assoc}
pub use native.Mathlib.Omega.{arith}
pub use native.Mathlib.Decide.{ℕ_discrete}
