-- ===== src/Field/Gf16/Laws.antt =====
-- GF(16) is a field.
use mqom_rs.Base.{
  ℕ, zero, suc, ◌≡◌, ◌≢◌, ◌%◌, refl, sym, ap, ◌∙◌, ◌<◌, arith, xor_assoc, xor_comm, xor-zero,
  xor_self, all_below, all_below_sound, ◌==◌, ==_iff, true, to_u8,
}
use mathlib.Core.HLevel.{is_prop→PathP}
use native.Mathlib.Bridge.{le_prop}
use mqom_rs.Field.Ring.{BinaryRing, ◌⊗◌}
use mqom_rs.Field.Gf16.Rounds.{mul_nibbles, mul_rounds, low_nibble}
use mqom_rs.Field.Gf16.Table.{
  mul_nibbles_assoc, mul_nibbles_comm, mul_nibbles-xor, mul_nibbles-one, low_nibble-id,
}
use mqom_rs.Field.Gf16.Element
use mqom_rs.Field.Gf16.Element.{Gf16, add, sub, mul, square, invert, new}

pub Gf16_ext : (a b : Gf16) → a.value ≡ b.value → a ≡ b
Gf16_ext a b p = λ i. record {
  value = p i;
  bounded = is_prop→PathP (λ j. p j < 16) (λ j. le_prop) a.bounded b.bounded i;
}

pub add_assoc : (a b c : Gf16) → add (add a b) c ≡ add a (add b c)
unfolding add
add_assoc a b c = Gf16_ext _ _ (xor_assoc a.value b.value c.value)

pub add_comm : (a b : Gf16) → add a b ≡ add b a
unfolding add
add_comm a b = Gf16_ext _ _ (xor_comm a.value b.value)

pub add-zero : (a : Gf16) → add a Element.zero ≡ a
unfolding add Element.zero
add-zero a = Gf16_ext _ _ (xor-zero a.value)

pub add_self : (a : Gf16) → add a a ≡ Element.zero
unfolding add Element.zero
add_self a = Gf16_ext _ _ (xor_self a.value)

pub mul_assoc : (a b c : Gf16) → mul (mul a b) c ≡ mul a (mul b c)
unfolding mul
mul_assoc a b c =
    Gf16_ext _ _ (mul_nibbles_assoc a.value b.value c.value a.bounded b.bounded c.bounded)

pub mul_comm : (a b : Gf16) → mul a b ≡ mul b a
unfolding mul
mul_comm a b = Gf16_ext _ _ (mul_nibbles_comm a.value b.value a.bounded b.bounded)

pub mul-one : (a : Gf16) → mul a Element.one ≡ a
unfolding mul Element.one
mul-one a = Gf16_ext _ _ (mul_nibbles-one a.value a.bounded)

pub mul-add : (a b c : Gf16) → mul a (add b c) ≡ add (mul a b) (mul a c)
unfolding mul add
mul-add a b c = Gf16_ext _ _ (mul_nibbles-xor a.value b.value c.value a.bounded b.bounded c.bounded)

-- `Gf16` implements the interface.
instance abbrev pub gf16_ring : BinaryRing Gf16
gf16_ring = record {
  zero = Element.zero;
  one = Element.one;
  add = add;
  mul = mul;
  add_assoc = add_assoc;
  add_comm = add_comm;
  add-zero = add-zero;
  add_self = add_self;
  mul_assoc = mul_assoc;
  mul_comm = mul_comm;
  mul-one = mul-one;
  mul-add = mul-add;
}

of_number : (a : Gf16) → new (to_u8 a.value) ≡ a
unfolding new to_u8
of_number a =
    let byte : a.value % 256 ≡ a.value = (let h = a.bounded in omega arith) in
    Gf16_ext _ _ (rw byte (low_nibble-id a.value a.bounded))

unit_product : ℕ → ℕ
unit_product x = let a = new (to_u8 x) in (mul a (invert a)).value

inverse_table : all_below 15 (λ x. unit_product (suc x) == 1) ≡ true
unfolding all_below unit_product to_u8 new invert square mul mul_nibbles mul_rounds low_nibble
inverse_table = refl

-- Every element but zero has its inverse.
pub mul-invert : (a : Gf16) → a ≢ Element.zero → a ⊗ invert a ≡ Element.one
unfolding Element.one Element.zero
mul-invert a ne = go a.value refl
  where
    go : (n : ℕ) → a.value ≡ n → a ⊗ invert a ≡ Element.one
    go zero e = absurd (ne (Gf16_ext a Element.zero e))
    go (suc n) e = Gf16_ext (a ⊗ invert a) Element.one (
        ap (λ b. (b ⊗ invert b).value) (sym (of_number a) ∙ ap (λ x. new (to_u8 x)) e)
        ∙ unfold unit_product in
          (==_iff _ 1).0 (
            all_below_sound 15 (λ y. unit_product (suc y) == 1) n inverse_table
              (let h = a.bounded in omega arith)))

-- Zero is sent to zero.
pub invert-zero : invert Element.zero ≡ Element.zero
unfolding invert square Element.zero mul mul_nibbles mul_rounds
invert-zero = Gf16_ext _ _ refl

-- `Sub` is `Add`: it undoes it.
pub sub_lem : (x y : Gf16) → sub x y ≡ add x y
sub_lem x y = unfold sub add in refl

pub sub-add : (a b : Gf16) → sub (add a b) b ≡ a
sub-add a b = sub_lem (add a b) b ∙ add_assoc a b b ∙ ap (add a) (add_self b) ∙ add-zero a
