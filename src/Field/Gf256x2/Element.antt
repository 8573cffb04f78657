-- ===== src/Field/Gf256x2/Element.antt =====
-- `Gf256x2` of src/field.rs, and its operations.
use mqom_rs.Base.{ℕ, ◌+◌, ◌*◌, U8, to_u8}
use mqom_rs.Field.Gf16.Element.{Gf16}
use mqom_rs.Field.Gf16.Embed.{embed}
use mqom_rs.Field.Gf256.Element.{Gf256}
use mqom_rs.Field.Gf256.Element as Gf256

pub record Gf256x2 : Type 0 where
  pub c0 : Gf256
  pub c1 : Gf256

abbrev pub new : Gf256 → Gf256 → Gf256x2
new c0 c1 = record { c0 = c0; c1 = c1 }

abbrev pub zero : Gf256x2
zero = new Gf256.zero Gf256.zero

abbrev pub one : Gf256x2
one = new Gf256.one Gf256.zero

abbrev pub encoded_len : ℕ
encoded_len = 2

-- `from_bytes([b0, b1])`, and `to_bytes` as a pair.
abbrev pub from_bytes : U8 → U8 → Gf256x2
from_bytes b0 b1 = new (Gf256.new b0) (Gf256.new b1)

abbrev pub to_bytes : Gf256x2 → U8 × U8
to_bytes a = (Gf256.value a.c0, Gf256.value a.c1)

-- `u16::from_le_bytes`.
abbrev pub u16_from_le_bytes : U8 → U8 → ℕ
u16_from_le_bytes b0 b1 = b0.value + b1.value * 256

unfoldable pub value : Gf256x2 → ℕ
value a = let (b0, b1) = to_bytes a in u16_from_le_bytes b0 b1

unfoldable pub add : Gf256x2 → Gf256x2 → Gf256x2
add a rhs = new (Gf256.add a.c0 rhs.c0) (Gf256.add a.c1 rhs.c1)

unfoldable pub sub : Gf256x2 → Gf256x2 → Gf256x2
sub a rhs = new (Gf256.sub a.c0 rhs.c0) (Gf256.sub a.c1 rhs.c1)

-- `Gf256::new(32)`.
unfoldable pub thirty_two : Gf256
thirty_two = Gf256.new (to_u8 32)

unfoldable pub mul : Gf256x2 → Gf256x2 → Gf256x2
mul a rhs =
    let high_product = Gf256.mul a.c1 rhs.c1 in
    let low_product = Gf256.mul a.c0 rhs.c0 in
    let c0 = Gf256.add low_product (Gf256.mul high_product thirty_two) in
    let c1 = Gf256.add low_product (Gf256.mul (Gf256.add a.c0 a.c1) (Gf256.add rhs.c0 rhs.c1)) in
    new c0 c1

unfoldable pub square : Gf256x2 → Gf256x2
square a = mul a a

-- `Mul<Gf256x2> for Gf16` and `Mul<Gf16> for Gf256x2`.
unfoldable pub scale : Gf16 → Gf256x2 → Gf256x2
scale a rhs = let scalar = embed a in new (Gf256.mul scalar rhs.c0) (Gf256.mul scalar rhs.c1)

unfoldable pub scale_right : Gf256x2 → Gf16 → Gf256x2
scale_right a rhs = scale rhs a
