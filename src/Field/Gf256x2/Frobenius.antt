-- ===== src/Field/Gf256x2/Frobenius.antt =====
-- The 256th power in GF(256^2) is conjugation, and the norm of a nonzero element is nonzero.
use mqom_rs.Base.{
  ℕ, zero, suc, ◌+◌, ◌*◌, ◌^◌, ◌≡◌, ◌≢◌, refl, sym, ap, ap₂, ◌∙◌, inl, inr, arith, to_u8, xor_u8,
  all_below, all_below_sound, ◌==◌, ==_iff, true, not,
}
use native.Mathlib.Nat.{pow-suc as two_pow-suc}
use mqom_rs.Field.Ring.{
  ◌⊕◌, ◌⊗◌, pow, pow-one, pow-suc, pow-add, square-add, zero-mul, zero-add, mul_interchange,
}
use mqom_rs.Field.Gf256.Rounds.{mul_bytes, mul_rounds}
use mqom_rs.Field.Gf256.Element.{Gf256}
use mqom_rs.Field.Gf256.Element as Gf256
use mqom_rs.Field.Gf256.Laws.{gf256_ring, Gf256_ext}
use mqom_rs.Field.Gf256.Inverse.{zero_or_not, pow_order, of_number}
use mqom_rs.Field.Gf256x2.Element.{Gf256x2, new, add, mul, thirty_two}
use mqom_rs.Field.Gf256x2.Product.{low, high, low-low, low-high, low-mul, split}
use mqom_rs.Field.Gf256x2.Laws.{gf256x2_ring}

-- Repeated squaring.
frobenius : ℕ → Gf256x2 → Gf256x2
frobenius zero a = a
frobenius (suc n) a = frobenius n (a ⊗ a)

frobenius-add : (n : ℕ) (a b : Gf256x2) → frobenius n (a ⊕ b) ≡ frobenius n a ⊕ frobenius n b
unfolding frobenius
frobenius-add zero a b = refl
frobenius-add (suc n) a b = ap (frobenius n) (square-add a b) ∙ frobenius-add n (a ⊗ a) (b ⊗ b)

frobenius-mul : (n : ℕ) (a b : Gf256x2) → frobenius n (a ⊗ b) ≡ frobenius n a ⊗ frobenius n b
unfolding frobenius
frobenius-mul zero a b = refl
frobenius-mul (suc n) a b =
    ap (frobenius n) (mul_interchange a b a b) ∙ frobenius-mul n (a ⊗ a) (b ⊗ b)

frobenius-pow : (n : ℕ) (a : Gf256x2) (e : ℕ) → frobenius n (pow a e) ≡ pow a (2 ^ n * e)
unfolding frobenius
frobenius-pow zero a e = ap (pow a) {x = e} {y = 1 * e} (omega arith)
frobenius-pow (suc n) a e =
    ap (frobenius n) (sym (pow-add a e e))
    ∙ frobenius-pow n a (e + e)
    ∙ ap (pow a) {x = 2 ^ n * (e + e)} {y = 2 ^ suc n * e}
        (omega (arith, ap (λ (t : ℕ). t * e) (two_pow-suc 2 n)))

-- An element of GF(256) is its own 256th power.
pow_fixed : (x : Gf256) → pow x 256 ≡ x
pow_fixed x = elim (zero_or_not x) [
  | inl e ↦ pow-suc x 255 ∙ ap (λ t. t ⊗ pow x 255) e ∙ zero-mul (pow x 255) ∙ sym e
  | inr h ↦ pow-suc x 255 ∙ ap (gf256_ring.mul x) (pow_order x h) ∙ gf256_ring.mul-one x
]

pub pow-low : (x : Gf256) (n : ℕ) → pow (low x) n ≡ low (pow x n)
unfolding pow
pow-low x zero = refl
pow-low x (suc n) = ap (mul (low x)) (pow-low x n) ∙ low-low x (pow x n)

pub conjugate : Gf256x2 → Gf256x2
conjugate a = new (a.c0 ⊕ a.c1) a.c1

frobenius-low : (x : Gf256) → frobenius 8 (low x) ≡ low x
frobenius-low x =
    ap (frobenius 8) (sym (pow-one (low x)))
    ∙ frobenius-pow 8 (low x) 1
    ∙ pow-low x 256
    ∙ ap low (pow_fixed x)

-- X^256 is X + 1.
frobenius_root : frobenius 8 (high Gf256.one) ≡ new Gf256.one Gf256.one
unfolding frobenius mul Gf256.mul Gf256.add xor_u8 Gf256.one Gf256.zero to_u8 mul_bytes mul_rounds
    thirty_two
frobenius_root = ap₂ new (Gf256_ext _ _ refl) (Gf256_ext _ _ refl)

frobenius-high : (x : Gf256) → frobenius 8 (high x) ≡ new x x
frobenius-high x =
    ap (frobenius 8) (sym (low-high x Gf256.one ∙ ap high (gf256_ring.mul-one x)))
    ∙ frobenius-mul 8 (low x) (high Gf256.one)
    ∙ ap₂ mul (frobenius-low x) frobenius_root
    ∙ low-mul x (new Gf256.one Gf256.one)
    ∙ ap₂ new (gf256_ring.mul-one x) (gf256_ring.mul-one x)

pub pow-conjugate : (a : Gf256x2) → pow a 256 ≡ conjugate a
unfolding conjugate add
pow-conjugate a =
    sym (frobenius-pow 8 a 1)
    ∙ ap (frobenius 8) (pow-one a ∙ split a)
    ∙ frobenius-add 8 (low a.c0) (high a.c1)
    ∙ ap₂ add (frobenius-low a.c0) (frobenius-high a.c1)
    ∙ ap (new (a.c0 ⊕ a.c1)) (zero-add a.c1)

unfoldable pub norm : Gf256x2 → Gf256
norm a = a.c0 ⊗ a.c0 ⊕ a.c0 ⊗ a.c1 ⊕ a.c1 ⊗ a.c1 ⊗ thirty_two

pub mul-conjugate : (a : Gf256x2) → a ⊗ conjugate a ≡ low (norm a)
unfolding conjugate norm mul
mul-conjugate a = ap₂ new first second
  where
    first :
        a.c0 ⊗ (a.c0 ⊕ a.c1) ⊕ a.c1 ⊗ a.c1 ⊗ thirty_two
        ≡ a.c0 ⊗ a.c0 ⊕ a.c0 ⊗ a.c1 ⊕ a.c1 ⊗ a.c1 ⊗ thirty_two
    first = ap (λ t. t ⊕ a.c1 ⊗ a.c1 ⊗ thirty_two) (gf256_ring.mul-add a.c0 a.c0 a.c1)

    second : a.c0 ⊗ (a.c0 ⊕ a.c1) ⊕ (a.c0 ⊕ a.c1) ⊗ (a.c0 ⊕ a.c1 ⊕ a.c1) ≡ Gf256.zero
    second =
        ap (λ t. a.c0 ⊗ (a.c0 ⊕ a.c1) ⊕ (a.c0 ⊕ a.c1) ⊗ t)
          (gf256_ring.add_assoc a.c0 a.c1 a.c1
            ∙ ap (gf256_ring.add a.c0) (gf256_ring.add_self a.c1)
            ∙ gf256_ring.add-zero a.c0)
        ∙ ap (gf256_ring.add (a.c0 ⊗ (a.c0 ⊕ a.c1))) (gf256_ring.mul_comm (a.c0 ⊕ a.c1) a.c0)
        ∙ gf256_ring.add_self (a.c0 ⊗ (a.c0 ⊕ a.c1))

-- X^2 + X + 32 has no root in GF(256).
modulus_at : ℕ → ℕ
modulus_at x = let t = Gf256.new (to_u8 x) in (t ⊗ t ⊕ t ⊕ thirty_two).byte.value

modulus_table : all_below 256 (λ x. not (modulus_at x == 0)) ≡ true
unfolding all_below modulus_at thirty_two Gf256.mul Gf256.add xor_u8 to_u8 mul_bytes mul_rounds
modulus_table = refl

pub modulus_no_root : (t : Gf256) → t ⊗ t ⊕ t ⊕ thirty_two ≢ Gf256.zero
unfolding Gf256.zero to_u8
modulus_no_root t e =
    let found : modulus_at t.byte.value ≡ 0 =
      unfold modulus_at in
      ap (λ s. (s ⊗ s ⊕ s ⊕ thirty_two).byte.value) (of_number t)
      ∙ ap (λ (s : Gf256). s.byte.value) e in
    cc (
      all_below_sound 256 (λ x. not (modulus_at x == 0)) t.byte.value modulus_table t.byte.bounded,
      (==_iff (modulus_at t.byte.value) 0).1 found,
    )
