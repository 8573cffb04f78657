-- ===== src/Field/Gf256x2/Laws.antt =====
-- GF(256^2) implements the interface of the fields.
use mqom_rs.Base.{◌≡◌, ap, ap₂, ◌∙◌}
use mqom_rs.Field.Ring.{BinaryRing, ◌⊗◌}
use mqom_rs.Field.Gf256.Element.{Gf256}
use mqom_rs.Field.Gf256.Element as Gf256
use mqom_rs.Field.Gf256.Laws as Coefficient
use mqom_rs.Field.Gf256.Laws.{gf256_ring}
use mqom_rs.Field.Gf256x2.Element.{Gf256x2, new, zero, one, add, sub, mul, thirty_two}
use mqom_rs.Field.Gf256x2.Product.{
  low, high, low-low, low-high, high-high, mul_comm, mul-add, add-mul_lem, mul-low, mul-high,
  high-mul, low-mul, by_parts, IsAdditive,
}

left-IsAdditive : (b : Gf256x2) → IsAdditive (λ x. mul x b)
left-IsAdditive b x y = add-mul_lem x y b

right-IsAdditive : (a : Gf256x2) → IsAdditive (λ x. mul a x)
right-IsAdditive a x y = mul-add a x y

first_left : (b c : Gf256x2) → IsAdditive (λ x. mul (mul x b) c)
first_left b c x y = ap (λ t. mul t c) (add-mul_lem x y b) ∙ add-mul_lem (mul x b) (mul y b) c

second_left : (a c : Gf256x2) → IsAdditive (λ x. mul (mul a x) c)
second_left a c x y = ap (λ t. mul t c) (mul-add a x y) ∙ add-mul_lem (mul a x) (mul a y) c

second_right : (a c : Gf256x2) → IsAdditive (λ x. mul a (mul x c))
second_right a c x y = ap (mul a) (add-mul_lem x y c) ∙ mul-add a (mul x c) (mul y c)

third_right : (a b : Gf256x2) → IsAdditive (λ x. mul a (mul b x))
third_right a b x y = ap (mul a) (mul-add b x y) ∙ mul-add a (mul b x) (mul b y)

pub high-low : (x y : Gf256) → mul (high x) (low y) ≡ high (x ⊗ y)
high-low x y = mul_comm (high x) (low y) ∙ low-high y x ∙ ap high (gf256_ring.mul_comm y x)

lll : (x y z : Gf256) → mul (mul (low x) (low y)) (low z) ≡ mul (low x) (mul (low y) (low z))
lll x y z = simp (low-low, Coefficient.mul_assoc)

llh : (x y z : Gf256) → mul (mul (low x) (low y)) (high z) ≡ mul (low x) (mul (low y) (high z))
llh x y z = simp (low-low, low-high, Coefficient.mul_assoc)

lhl : (x y z : Gf256) → mul (mul (low x) (high y)) (low z) ≡ mul (low x) (mul (high y) (low z))
lhl x y z = simp (low-high, high-low, Coefficient.mul_assoc)

hll : (x y z : Gf256) → mul (mul (high x) (low y)) (low z) ≡ mul (high x) (mul (low y) (low z))
hll x y z = simp (low-low, high-low, Coefficient.mul_assoc)

lhh : (x y z : Gf256) → mul (mul (low x) (high y)) (high z) ≡ mul (low x) (mul (high y) (high z))
lhh x y z = simp (low-high, high-high, low-mul, Coefficient.mul_assoc)

hlh : (x y z : Gf256) → mul (mul (high x) (low y)) (high z) ≡ mul (high x) (mul (low y) (high z))
hlh x y z = simp (low-high, high-low, high-high, Coefficient.mul_assoc)

-- The root of the modulus is moved to the right.
root_comm : (x y z : Gf256) → x ⊗ (y ⊗ (thirty_two ⊗ z)) ≡ x ⊗ (y ⊗ (z ⊗ thirty_two))
root_comm x y z = ap (λ t. x ⊗ (y ⊗ t)) (gf256_ring.mul_comm thirty_two z)

hhl : (x y z : Gf256) → mul (mul (high x) (high y)) (low z) ≡ mul (high x) (mul (high y) (low z))
hhl x y z = simp (high-high, high-low, mul-low, Coefficient.mul_assoc, root_comm x y z)

hhh : (x y z : Gf256) → mul (mul (high x) (high y)) (high z) ≡ mul (high x) (mul (high y) (high z))
hhh x y z = simp (high-high, mul-high, high-mul, Coefficient.mul_assoc, root_comm x y z)

-- The three factors are taken apart in turn.
third_factor :
    (a b : Gf256x2)
    → ((z : Gf256) → mul (mul a b) (low z) ≡ mul a (mul b (low z)))
    → ((z : Gf256) → mul (mul a b) (high z) ≡ mul a (mul b (high z)))
    → (c : Gf256x2) → mul (mul a b) c ≡ mul a (mul b c)
third_factor a b =
    by_parts (λ z. mul (mul a b) z) (λ z. mul a (mul b z)) (right-IsAdditive (mul a b))
      (third_right a b)

second_factor :
    (a c : Gf256x2)
    → ((y : Gf256) → mul (mul a (low y)) c ≡ mul a (mul (low y) c))
    → ((y : Gf256) → mul (mul a (high y)) c ≡ mul a (mul (high y) c))
    → (b : Gf256x2) → mul (mul a b) c ≡ mul a (mul b c)
second_factor a c =
    by_parts (λ y. mul (mul a y) c) (λ y. mul a (mul y c)) (second_left a c) (second_right a c)

pub mul_assoc : (a b c : Gf256x2) → mul (mul a b) c ≡ mul a (mul b c)
mul_assoc a b c =
    by_parts (λ x. mul (mul x b) c) (λ x. mul x (mul b c)) (first_left b c)
      (left-IsAdditive (mul b c))
      (λ x.
        second_factor (low x) c (λ y. third_factor (low x) (low y) (lll x y) (llh x y) c)
          (λ y. third_factor (low x) (high y) (lhl x y) (lhh x y) c) b)
      (λ x.
        second_factor (high x) c (λ y. third_factor (high x) (low y) (hll x y) (hlh x y) c)
          (λ y. third_factor (high x) (high y) (hhl x y) (hhh x y) c) b)
      a

pub add_assoc : (a b c : Gf256x2) → add (add a b) c ≡ add a (add b c)
unfolding add
add_assoc a b c =
    ap₂ new (Coefficient.add_assoc a.c0 b.c0 c.c0) (Coefficient.add_assoc a.c1 b.c1 c.c1)

pub add_comm : (a b : Gf256x2) → add a b ≡ add b a
unfolding add
add_comm a b = ap₂ new (Coefficient.add_comm a.c0 b.c0) (Coefficient.add_comm a.c1 b.c1)

pub add-zero : (a : Gf256x2) → add a zero ≡ a
unfolding add
add-zero a = ap₂ new (Coefficient.add-zero a.c0) (Coefficient.add-zero a.c1)

pub add_self : (a : Gf256x2) → add a a ≡ zero
unfolding add
add_self a = ap₂ new (Coefficient.add_self a.c0) (Coefficient.add_self a.c1)

pub mul-one : (a : Gf256x2) → mul a one ≡ a
mul-one a = mul-low a Gf256.one ∙ ap₂ new (Coefficient.mul-one a.c0) (Coefficient.mul-one a.c1)

-- `Gf256x2` implements the interface.
instance abbrev pub gf256x2_ring : BinaryRing Gf256x2
gf256x2_ring = record {
  zero = zero;
  one = one;
  add = add;
  mul = mul;
  add_assoc = add_assoc;
  add_comm = add_comm;
  add-zero = add-zero;
  add_self = add_self;
  mul_assoc = mul_assoc;
  mul_comm = mul_comm;
  mul-one = mul-one;
  mul-add = mul-add;
}

-- `Sub` is `Add`: it undoes it.
pub sub_lem : (x y : Gf256x2) → sub x y ≡ add x y
sub_lem x y =
    unfold sub add in ap₂ new (Coefficient.sub_lem x.c0 y.c0) (Coefficient.sub_lem x.c1 y.c1)

pub sub-add : (a b : Gf256x2) → sub (add a b) b ≡ a
sub-add a b = sub_lem (add a b) b ∙ add_assoc a b b ∙ ap (add a) (add_self b) ∙ add-zero a
