-- ===== src/Field/Gf256/Inverse.antt =====
-- `invert` of `Gf256`.
use mqom_rs.Base.{
  ℕ, zero, suc, ◌-◌, ◌<◌, ◌≡◌, ◌≢◌, ◌⊎◌, inl, inr, refl, sym, ap, ◌∙◌, to_u8, arith, all_below,
  all_below_sound, ==_iff, ◌==◌, true,
}
use mqom_rs.Field.Ring.{◌⊗◌, zero-mul, pow, pow-one, pow-suc, invert_rounds, invert_rounds-pow}
use mqom_rs.Field.Gf256.Rounds.{mul_bytes, mul_rounds}
use mqom_rs.Field.Gf256.Element
use mqom_rs.Field.Gf256.Element.{Gf256, new, add, mul}
use mqom_rs.Field.Gf256.Laws.{gf256_ring, Gf256_ext}

-- Six rounds of square and multiply, then a square.
unfoldable pub invert : Gf256 → Gf256
invert a = invert_rounds 6 a a

pub of_number : (a : Gf256) → new (to_u8 a.byte.value) ≡ a
unfolding to_u8
of_number a = Gf256_ext _ _ (let h = a.byte.bounded in omega arith)

unit_product : ℕ → ℕ
unit_product x = let a = new (to_u8 x) in (a ⊗ invert a).byte.value

inverse_table : all_below 255 (λ x. unit_product (suc x) == 1) ≡ true
unfolding all_below unit_product to_u8 invert invert_rounds mul mul_bytes mul_rounds
inverse_table = refl

zero_or_pos : (a : Gf256) → (a ≡ Element.zero) ⊎ (0 < a.byte.value)
unfolding Element.zero to_u8
zero_or_pos a = go a.byte.value refl
  where
    go : (n : ℕ) → a.byte.value ≡ n → (a ≡ Element.zero) ⊎ (0 < a.byte.value)
    go zero e = inl (Gf256_ext a Element.zero e)
    go (suc n) e = inr (omega arith)

mul-invert_number : (x : ℕ) → x < 255 → unit_product (suc x) ≡ 1
mul-invert_number x h =
    (==_iff _ 1).0 (all_below_sound 255 (λ y. unit_product (suc y) == 1) x inverse_table h)

mul-invert_pos : (a : Gf256) → 0 < a.byte.value → a ⊗ invert a ≡ Element.one
unfolding Element.one to_u8
mul-invert_pos a h =
    Gf256_ext (a ⊗ invert a) Element.one
      (at_number (a.byte.value - 1) (omega arith) (let b = a.byte.bounded in omega arith))
  where
    at_number : (n : ℕ) → a.byte.value ≡ suc n → n < 255 → (a ⊗ invert a).byte.value ≡ 1
    at_number n e lt =
        ap (λ b. (b ⊗ invert b).byte.value) (sym (of_number a) ∙ ap (λ x. new (to_u8 x)) e)
        ∙ unfold unit_product in mul-invert_number n lt

-- Every element but zero has its inverse, and zero is sent to zero.
pub mul-invert : (a : Gf256) → a ≢ Element.zero → a ⊗ invert a ≡ Element.one
mul-invert a ne = elim (zero_or_pos a) [ inl e ↦ absurd (ne e) | inr h ↦ mul-invert_pos a h ]

pub zero_or_not : (a : Gf256) → (a ≡ Element.zero) ⊎ (a ≢ Element.zero)
unfolding Element.zero to_u8
zero_or_not a = elim (zero_or_pos a) [
  | inl e ↦ inl e
  | inr h ↦ inr (λ e. absurd (omega (arith, ap (λ (b : Gf256). b.byte.value) e)))
]

pub invert-zero : invert Element.zero ≡ Element.zero
unfolding invert invert_rounds Element.zero mul mul_bytes mul_rounds to_u8
invert-zero = Gf256_ext _ _ refl

-- Of two factors with product zero the first is zero, if the second is not.
pub zero_of_mul : (a b : Gf256) → b ≢ Element.zero → a ⊗ b ≡ Element.zero → a ≡ Element.zero
zero_of_mul a b ne h =
    sym (gf256_ring.mul-one a)
    ∙ ap (gf256_ring.mul a) (sym (mul-invert b ne))
    ∙ sym (gf256_ring.mul_assoc a b (invert b))
    ∙ ap (λ x. x ⊗ invert b) h
    ∙ zero-mul (invert b)

pub invert-pow : (a : Gf256) → invert a ≡ pow a 254
unfolding invert
invert-pow a = ap (invert_rounds 6 a) (sym (pow-one a)) ∙ invert_rounds-pow 6 a 1

-- The multiplicative group has 255 elements.
pub pow_order : (a : Gf256) → a ≢ Element.zero → pow a 255 ≡ Element.one
pow_order a ne = pow-suc a 254 ∙ ap (gf256_ring.mul a) (sym (invert-pow a)) ∙ mul-invert a ne
