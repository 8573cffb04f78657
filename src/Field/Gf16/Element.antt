-- ===== src/Field/Gf16/Element.antt =====
-- `Gf16` of src/field.rs, and its operations.
use mqom_rs.Base.{ℕ, ◌<◌, bit_xor, xor-lt, U8, arith}
use mqom_rs.Field.Gf16.Rounds.{low_nibble, mul_nibbles}
use mqom_rs.Field.Gf16.Table.{low_nibble-lt, mul_nibbles-lt}

-- The tuple struct over a `u8`. Its field is private, and every constructor keeps it below 16.
pub record Gf16 : Type 0 where
  pub value : ℕ
  pub bounded : value < 16

-- `Gf16::new`.
unfoldable pub new : U8 → Gf16
new byte = record { value = low_nibble byte.value; bounded = low_nibble-lt byte.value byte.bounded }

unfoldable pub zero : Gf16
zero = record { value = 0; bounded = omega arith }

unfoldable pub one : Gf16
one = record { value = 1; bounded = omega arith }

unfoldable pub add : Gf16 → Gf16 → Gf16
add a rhs = record {
  value = bit_xor a.value rhs.value;
  bounded = xor-lt 4 a.value rhs.value a.bounded rhs.bounded;
}

unfoldable pub sub : Gf16 → Gf16 → Gf16
sub a rhs = record {
  value = bit_xor a.value rhs.value;
  bounded = xor-lt 4 a.value rhs.value a.bounded rhs.bounded;
}

unfoldable pub mul : Gf16 → Gf16 → Gf16
mul a rhs = record {
  value = mul_nibbles a.value rhs.value;
  bounded = mul_nibbles-lt a.value rhs.value a.bounded rhs.bounded;
}

unfoldable pub square : Gf16 → Gf16
square a = mul a a

-- a^14, as a^8 a^4 a^2.
unfoldable pub invert : Gf16 → Gf16
invert a = let a2 = square a in let a4 = square a2 in let a8 = square a4 in mul (mul a8 a4) a2
