-- ===== src/Base.antt =====
-- The names that the other modules share: the libraries', passed on, and those of the children.
mod Tests
mod Lists
mod Digits
mod Bits
mod Table
mod Word
mod Mask
mod Additive
pub use Tests.*
pub use Lists.*
pub use Bits.*
unfoldable pub use Table.{all_below}
pub use Table.{all_below_sound, agree_below, agree_below₂, agree_below₃}
unfoldable pub use Word.{xor_u8, to_u8}
pub use Word.{U8, U8_ext, xor_u8_assoc, xor_u8_comm, xor_u8_self, xor_u8-zero}
pub use Additive.*
pub use Mask.*
pub use Prim.Native.Nat.{
  ℕ, zero, suc, ◌+◌, ◌-◌, ◌*◌, ◌/◌, ◌%◌, ◌^◌, ◌≤◌, ◌<◌, min, max, bit_and, bit_or, bit_xor,
}
pub use mathlib.Core.Path.{◌≡◌, refl, sym, ap, ap₂, ◌∙◌, fun_ext, ◌≡⟨◌⟩◌, ◌∎}
pub use mathlib.Core.Logic.{◌≢◌, ◌↔◌, ◌⊎◌, inl, inr}
pub use mathlib.Core.Bool.{Bool, true, false, not, ◌&&◌, ◌||◌}
pub use mathlib.Core.Option.{Option, none, some}
pub use mathlib.Core.List.{List, [], ◌∷◌, ◌++◌, map}
pub use native.Mathlib.Omega.{arith}
