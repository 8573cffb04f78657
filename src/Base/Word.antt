-- ===== src/Base/Word.antt =====
-- A `u8` as a number with its bound, so that arrays of bytes need no side condition.
use Prim.Native.Nat.{ℕ, ◌%◌, ◌<◌, bit_xor}
use mathlib.Core.Path.{◌≡◌}
use mathlib.Core.HLevel.{is_prop→PathP}
use native.Mathlib.Bridge.{le_prop}
use mqom_rs.Base.Bits.{xor-lt, xor_assoc, xor_comm, xor_self, xor-zero}
use native.Mathlib.Omega.{arith}

pub record U8 : Type 0 where
  pub value : ℕ
  pub bounded : value < 256

pub U8_ext : (a b : U8) → a.value ≡ b.value → a ≡ b
U8_ext a b p = λ i. record {
  value = p i;
  bounded = is_prop→PathP (λ j. p j < 256) (λ j. le_prop) a.bounded b.bounded i;
}

-- `n as u8`.
unfoldable pub to_u8 : ℕ → U8
to_u8 n = record { value = n % 256; bounded = omega arith }

-- `a ^ b` on `u8`.
unfoldable pub xor_u8 : U8 → U8 → U8
xor_u8 a b = record {
  value = bit_xor a.value b.value;
  bounded = xor-lt 8 a.value b.value a.bounded b.bounded;
}

pub xor_u8_assoc : (a b c : U8) → xor_u8 (xor_u8 a b) c ≡ xor_u8 a (xor_u8 b c)
unfolding xor_u8
xor_u8_assoc a b c = U8_ext _ _ (xor_assoc a.value b.value c.value)

pub xor_u8_comm : (a b : U8) → xor_u8 a b ≡ xor_u8 b a
unfolding xor_u8
xor_u8_comm a b = U8_ext _ _ (xor_comm a.value b.value)

pub xor_u8_self : (a : U8) → xor_u8 a a ≡ to_u8 0
unfolding xor_u8 to_u8
xor_u8_self a = U8_ext _ _ (xor_self a.value)

pub xor_u8-zero : (a : U8) → xor_u8 a (to_u8 0) ≡ a
unfolding xor_u8 to_u8
xor_u8-zero a = U8_ext _ _ (xor-zero a.value)
