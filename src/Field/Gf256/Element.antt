-- ===== src/Field/Gf256/Element.antt =====
-- `Gf256` of src/field.rs, and its operations.
use mqom_rs.Base.{U8, to_u8, xor_u8}
use mqom_rs.Field.Gf256.Rounds.{mul_bytes}
use mqom_rs.Field.Gf256.Bilinear.{mul_bytes-lt}

-- The tuple struct: its only field is a `u8`.
pub record Gf256 : Type 0 where
  pub byte : U8

-- `Gf256::new` and `Gf256::value`.
abbrev pub new : U8 → Gf256
new value = record { byte = value }

abbrev pub value : Gf256 → U8
value a = a.byte

unfoldable pub zero : Gf256
unfolding to_u8
zero = new (to_u8 0)

unfoldable pub one : Gf256
unfolding to_u8
one = new (to_u8 1)

unfoldable pub add : Gf256 → Gf256 → Gf256
unfolding xor_u8
add a rhs = new (xor_u8 a.byte rhs.byte)

unfoldable pub sub : Gf256 → Gf256 → Gf256
unfolding xor_u8
sub a rhs = new (xor_u8 a.byte rhs.byte)

unfoldable pub mul : Gf256 → Gf256 → Gf256
mul a rhs = new (record {
  value = mul_bytes a.byte.value rhs.byte.value;
  bounded = mul_bytes-lt a.byte.value rhs.byte.value a.byte.bounded rhs.byte.bounded;
})

unfoldable pub square : Gf256 → Gf256
square a = mul a a
