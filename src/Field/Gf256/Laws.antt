-- ===== src/Field/Gf256/Laws.antt =====
-- GF(256) is a field.
use mqom_rs.Base.{
  ◌≡◌, refl, ap, ◌∙◌, U8_ext, to_u8, xor_u8, xor_u8_assoc, xor_u8_comm, xor_u8_self, xor_u8-zero,
}
use mqom_rs.Field.Ring.{BinaryRing}
use mqom_rs.Field.Gf256.Bilinear.{mul_bytes-xor_right}
use mqom_rs.Field.Gf256.Table.{mul_bytes_assoc, mul_bytes_comm, mul_bytes-one}
use mqom_rs.Field.Gf256.Element
use mqom_rs.Field.Gf256.Element.{Gf256, new, add, sub, mul}

pub Gf256_ext : (a b : Gf256) → a.byte.value ≡ b.byte.value → a ≡ b
Gf256_ext a b p = ap new (U8_ext a.byte b.byte p)

pub add_assoc : (a b c : Gf256) → add (add a b) c ≡ add a (add b c)
unfolding add
add_assoc a b c = ap new (xor_u8_assoc a.byte b.byte c.byte)

pub add_comm : (a b : Gf256) → add a b ≡ add b a
unfolding add
add_comm a b = ap new (xor_u8_comm a.byte b.byte)

pub add-zero : (a : Gf256) → add a Element.zero ≡ a
unfolding add Element.zero
add-zero a = ap new (xor_u8-zero a.byte)

pub add_self : (a : Gf256) → add a a ≡ Element.zero
unfolding add Element.zero
add_self a = ap new (xor_u8_self a.byte)

pub mul_assoc : (a b c : Gf256) → mul (mul a b) c ≡ mul a (mul b c)
unfolding mul
mul_assoc a b c = Gf256_ext _ _ (
    mul_bytes_assoc a.byte.value b.byte.value c.byte.value a.byte.bounded b.byte.bounded
      c.byte.bounded)

pub mul_comm : (a b : Gf256) → mul a b ≡ mul b a
unfolding mul
mul_comm a b =
    Gf256_ext _ _ (mul_bytes_comm a.byte.value b.byte.value a.byte.bounded b.byte.bounded)

pub mul-one : (a : Gf256) → mul a Element.one ≡ a
unfolding mul Element.one to_u8
mul-one a = Gf256_ext _ _ (mul_bytes-one a.byte.value a.byte.bounded)

pub mul-add : (a b c : Gf256) → mul a (add b c) ≡ add (mul a b) (mul a c)
unfolding mul add xor_u8
mul-add a b c = Gf256_ext _ _ (
    mul_bytes-xor_right a.byte.value b.byte.value c.byte.value a.byte.bounded b.byte.bounded
      c.byte.bounded)

-- `Gf256` implements the interface.
instance abbrev pub gf256_ring : BinaryRing Gf256
gf256_ring = record {
  zero = Element.zero;
  one = Element.one;
  add = add;
  mul = mul;
  add_assoc = add_assoc;
  add_comm = add_comm;
  add-zero = add-zero;
  add_self = add_self;
  mul_assoc = mul_assoc;
  mul_comm = mul_comm;
  mul-one = mul-one;
  mul-add = mul-add;
}

-- `Sub` is `Add`: it undoes it.
pub sub_lem : (x y : Gf256) → sub x y ≡ add x y
sub_lem x y = unfold sub add in refl

pub sub-add : (a b : Gf256) → sub (add a b) b ≡ a
sub-add a b = sub_lem (add a b) b ∙ add_assoc a b b ∙ ap (add a) (add_self b) ∙ add-zero a
