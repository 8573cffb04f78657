-- ===== src/Field/Gf256x2/Inverse.antt =====
-- `invert` of `Gf256x2`.
use mqom_rs.Base.{◌≡◌, ◌≢◌, sym, ap, ap₂, ◌∙◌, inl, inr}
use mqom_rs.Field.Ring.{
  ◌⊕◌, ◌⊗◌, pow, pow-one, pow-suc, pow-pow, mul-zero, zero-mul, add-mul, mul_interchange,
  invert_rounds, invert_rounds-pow,
}
use mqom_rs.Field.Gf256.Element.{Gf256}
use mqom_rs.Field.Gf256.Element as Gf256
use mqom_rs.Field.Gf256.Laws.{gf256_ring}
use mqom_rs.Field.Gf256.Inverse.{
  zero_or_not, pow_order, zero_of_mul, invert as invert_gf256, mul-invert as mul-invert_gf256,
}
use mqom_rs.Field.Gf256x2.Element.{Gf256x2, new, zero, one, thirty_two}
use mqom_rs.Field.Gf256x2.Product.{low}
use mqom_rs.Field.Gf256x2.Laws.{gf256x2_ring}
use mqom_rs.Field.Gf256x2.Frobenius.{pow-low, norm, mul-conjugate, pow-conjugate, modulus_no_root}

-- Fourteen rounds of square and multiply, then a square.
unfoldable pub invert : Gf256x2 → Gf256x2
invert a = invert_rounds 14 a a

-- With c0 = t c1 the norm is a multiple of the modulus at t.
norm_ratio : (t c : Gf256) → norm (new (t ⊗ c) c) ≡ (t ⊗ t ⊕ t ⊕ thirty_two) ⊗ (c ⊗ c)
unfolding norm
norm_ratio t c =
    ap₂ gf256_ring.add (ap₂ gf256_ring.add (mul_interchange t c t c) (gf256_ring.mul_assoc t c c))
      (gf256_ring.mul_comm (c ⊗ c) thirty_two)
    ∙ ap (λ s. s ⊕ thirty_two ⊗ (c ⊗ c)) (sym (add-mul (t ⊗ t) t (c ⊗ c)))
    ∙ sym (add-mul (t ⊗ t ⊕ t) thirty_two (c ⊗ c))

ratio : (c0 c1 : Gf256) → c1 ≢ Gf256.zero → c0 ⊗ invert_gf256 c1 ⊗ c1 ≡ c0
ratio c0 c1 ne =
    gf256_ring.mul_assoc c0 (invert_gf256 c1) c1
    ∙ ap (gf256_ring.mul c0) (gf256_ring.mul_comm (invert_gf256 c1) c1 ∙ mul-invert_gf256 c1 ne)
    ∙ gf256_ring.mul-one c0

norm_low : (c0 : Gf256) → norm (new c0 Gf256.zero) ≡ c0 ⊗ c0
unfolding norm
norm_low c0 =
    ap₂ gf256_ring.add (ap (gf256_ring.add (c0 ⊗ c0)) (mul-zero c0) ∙ gf256_ring.add-zero (c0 ⊗ c0))
      (ap (λ s. s ⊗ thirty_two) (mul-zero Gf256.zero) ∙ zero-mul thirty_two)
    ∙ gf256_ring.add-zero (c0 ⊗ c0)

square_zero : (c : Gf256) → c ⊗ c ≡ Gf256.zero → c ≡ Gf256.zero
square_zero c h = elim (zero_or_not c) [ inl e ↦ e | inr ne ↦ zero_of_mul c c ne h ]

pub norm-eq_zero : (a : Gf256x2) → norm a ≡ Gf256.zero → a ≡ zero
norm-eq_zero a h = elim (zero_or_not a.c1) [
  | inl e ↦
      let c0 : a.c0 ≡ Gf256.zero =
        square_zero a.c0 (sym (norm_low a.c0) ∙ ap (λ s. norm (new a.c0 s)) (sym e) ∙ h) in
      ap₂ new c0 e
  | inr ne ↦
      let t = a.c0 ⊗ invert_gf256 a.c1 in
      let multiple : (t ⊗ t ⊕ t ⊕ thirty_two) ⊗ (a.c1 ⊗ a.c1) ≡ Gf256.zero =
        sym (norm_ratio t a.c1) ∙ ap (λ s. norm (new s a.c1)) (ratio a.c0 a.c1 ne) ∙ h in
      absurd (
        modulus_no_root t (
          zero_of_mul (t ⊗ t ⊕ t ⊕ thirty_two) (a.c1 ⊗ a.c1) (λ z. ne (square_zero a.c1 z))
            multiple))
]

-- a^65535 is a power of the norm.
power-norm : (a : Gf256x2) → pow a 65535 ≡ low (pow (norm a) 255)
power-norm a =
    sym (pow-pow a 257 255)
    ∙ ap (λ t. pow t 255)
        (pow-suc a 256 ∙ ap (gf256x2_ring.mul a) (pow-conjugate a) ∙ mul-conjugate a)
    ∙ pow-low (norm a) 255

invert-pow : (a : Gf256x2) → invert a ≡ pow a 65534
unfolding invert
invert-pow a = ap (invert_rounds 14 a) (sym (pow-one a)) ∙ invert_rounds-pow 14 a 1

-- Every element but zero has its inverse.
pub mul-invert : (a : Gf256x2) → a ≢ zero → a ⊗ invert a ≡ one
mul-invert a ne =
    ap (gf256x2_ring.mul a) (invert-pow a)
    ∙ sym (pow-suc a 65534)
    ∙ power-norm a
    ∙ ap low (pow_order (norm a) (λ e. ne (norm-eq_zero a e)))

-- Zero is sent to zero.
pub invert-zero : invert zero ≡ zero
invert-zero = invert-pow zero ∙ pow-suc zero 65533 ∙ zero-mul (pow zero 65533)
