-- ===== src/Field/Gf256/Table.antt =====
-- The laws of the product of bytes: additivity reduces each to its cases at powers of two.
use mqom_rs.Base.{
  ℕ, ◌^◌, ◌<◌, ◌≡◌, refl, sym, ◌∙◌, arith, all_below, agree_below, agree_below₂, agree_below₃,
  additive_ext, IsAdditive,
}
use native.Mathlib.Nat.{pow-le-pow_right}
use mqom_rs.Field.Gf256.Rounds.{mul_bytes}
use mqom_rs.Field.Gf256.Bilinear.{mul_bytes-lt, mul_bytes-xor_left, mul_bytes-xor_right}

pow-lt : (i : ℕ) → i < 8 → 2 ^ i < 256
pow-lt i h = omega (arith, pow-le-pow_right {n = 2} (omega arith) {i = i} {j = 7} (omega arith))

zero-mul_bytes : (a : ℕ) → a < 256 → mul_bytes 0 a ≡ 0
unfolding all_below mul_bytes
zero-mul_bytes a h = agree_below 256 (λ x. mul_bytes 0 x) (λ x. 0) a refl h

mul_bytes-zero : (a : ℕ) → a < 256 → mul_bytes a 0 ≡ 0
unfolding all_below mul_bytes
mul_bytes-zero a h = agree_below 256 (λ x. mul_bytes x 0) (λ x. 0) a refl h

pub mul_bytes-one : (a : ℕ) → a < 256 → mul_bytes a 1 ≡ a
unfolding all_below mul_bytes
mul_bytes-one a h = agree_below 256 (λ x. mul_bytes x 1) (λ x. x) a refl h

comm_powers : (i j : ℕ) → i < 8 → j < 8 → mul_bytes (2 ^ i) (2 ^ j) ≡ mul_bytes (2 ^ j) (2 ^ i)
unfolding all_below mul_bytes
comm_powers i j hi hj =
    agree_below₂ 8 8 (λ x y. mul_bytes (2 ^ x) (2 ^ y)) (λ x y. mul_bytes (2 ^ y) (2 ^ x)) i j refl
      hi hj

assoc_powers :
    (i j k : ℕ)
    → i < 8
    → j < 8
    → k < 8
    → mul_bytes (mul_bytes (2 ^ i) (2 ^ j)) (2 ^ k) ≡ mul_bytes (2 ^ i) (mul_bytes (2 ^ j) (2 ^ k))
unfolding all_below mul_bytes
assoc_powers i j k hi hj hk =
    agree_below₃ 8 (λ x y z. mul_bytes (mul_bytes (2 ^ x) (2 ^ y)) (2 ^ z))
      (λ x y z. mul_bytes (2 ^ x) (mul_bytes (2 ^ y) (2 ^ z))) i j k refl hi hj hk

-- Multiplication by a fixed byte, on either side.
left-IsAdditive : (b : ℕ) → b < 256 → IsAdditive 8 (λ x. mul_bytes x b)
left-IsAdditive b h x y hx hy = mul_bytes-xor_left x y b hx hy h

right-IsAdditive : (a : ℕ) → a < 256 → IsAdditive 8 (λ x. mul_bytes a x)
right-IsAdditive a h x y hx hy = mul_bytes-xor_right a x y h hx hy

pub mul_bytes_comm : (a b : ℕ) → a < 256 → b < 256 → mul_bytes a b ≡ mul_bytes b a
mul_bytes_comm a b ha hb =
    additive_ext 8 (λ x. mul_bytes x b) (λ x. mul_bytes b x) (left-IsAdditive b hb)
      (right-IsAdditive b hb) (zero-mul_bytes b hb ∙ sym (mul_bytes-zero b hb))
      (λ i hi.
        additive_ext 8 (λ y. mul_bytes (2 ^ i) y) (λ y. mul_bytes y (2 ^ i))
          (right-IsAdditive (2 ^ i) (pow-lt i hi)) (left-IsAdditive (2 ^ i) (pow-lt i hi))
          (mul_bytes-zero (2 ^ i) (pow-lt i hi) ∙ sym (zero-mul_bytes (2 ^ i) (pow-lt i hi)))
          (λ j hj. comm_powers i j hi hj) b hb)
      a ha

-- Both sides of associativity, as functions of one factor.
module _ (b c : ℕ) (hb : b < 256) (hc : c < 256) where
  first_left : IsAdditive 8 (λ x. mul_bytes (mul_bytes x b) c)
  first_left x y hx hy = rw (mul_bytes-xor_left x y b hx hy hb) (
      mul_bytes-xor_left (mul_bytes x b) (mul_bytes y b) c (mul_bytes-lt x b hx hb)
        (mul_bytes-lt y b hy hb) hc)

  first_right : IsAdditive 8 (λ x. mul_bytes x (mul_bytes b c))
  first_right = left-IsAdditive (mul_bytes b c) (mul_bytes-lt b c hb hc)

  second_left : IsAdditive 8 (λ x. mul_bytes (mul_bytes b x) c)
  second_left x y hx hy = rw (mul_bytes-xor_right b x y hb hx hy) (
      mul_bytes-xor_left (mul_bytes b x) (mul_bytes b y) c (mul_bytes-lt b x hb hx)
        (mul_bytes-lt b y hb hy) hc)

  second_right : IsAdditive 8 (λ x. mul_bytes b (mul_bytes x c))
  second_right x y hx hy = rw (mul_bytes-xor_left x y c hx hy hc) (
      mul_bytes-xor_right b (mul_bytes x c) (mul_bytes y c) hb (mul_bytes-lt x c hx hc)
        (mul_bytes-lt y c hy hc))

  third_left : IsAdditive 8 (λ x. mul_bytes (mul_bytes b c) x)
  third_left = right-IsAdditive (mul_bytes b c) (mul_bytes-lt b c hb hc)

  third_right : IsAdditive 8 (λ x. mul_bytes b (mul_bytes c x))
  third_right x y hx hy = rw (mul_bytes-xor_right c x y hc hx hy) (
      mul_bytes-xor_right b (mul_bytes c x) (mul_bytes c y) hb (mul_bytes-lt c x hc hx)
        (mul_bytes-lt c y hc hy))

assoc_powers₂ :
    (i j c : ℕ)
    → i < 8
    → j < 8
    → c < 256
    → mul_bytes (mul_bytes (2 ^ i) (2 ^ j)) c ≡ mul_bytes (2 ^ i) (mul_bytes (2 ^ j) c)
assoc_powers₂ i j c hi hj hc =
    let p = pow-lt i hi in
    let q = pow-lt j hj in
    additive_ext 8 (λ z. mul_bytes (mul_bytes (2 ^ i) (2 ^ j)) z)
      (λ z. mul_bytes (2 ^ i) (mul_bytes (2 ^ j) z)) (third_left (2 ^ i) (2 ^ j) p q)
      (third_right (2 ^ i) (2 ^ j) p q)
      (rw (
        mul_bytes-zero (mul_bytes (2 ^ i) (2 ^ j)) (mul_bytes-lt (2 ^ i) (2 ^ j) p q),
        mul_bytes-zero (2 ^ j) q,
        mul_bytes-zero (2 ^ i) p,
      ))
      (λ k hk. assoc_powers i j k hi hj hk) c hc

assoc_powers₁ :
    (i b c : ℕ)
    → i < 8
    → b < 256
    → c < 256
    → mul_bytes (mul_bytes (2 ^ i) b) c ≡ mul_bytes (2 ^ i) (mul_bytes b c)
assoc_powers₁ i b c hi hb hc =
    let p = pow-lt i hi in
    additive_ext 8 (λ y. mul_bytes (mul_bytes (2 ^ i) y) c) (λ y. mul_bytes (2 ^ i) (mul_bytes y c))
      (second_left (2 ^ i) c p hc) (second_right (2 ^ i) c p hc)
      (rw (mul_bytes-zero (2 ^ i) p, zero-mul_bytes c hc, mul_bytes-zero (2 ^ i) p))
      (λ j hj. assoc_powers₂ i j c hi hj hc) b hb

pub mul_bytes_assoc :
    (a b c : ℕ)
    → a < 256
    → b < 256
    → c < 256
    → mul_bytes (mul_bytes a b) c ≡ mul_bytes a (mul_bytes b c)
mul_bytes_assoc a b c ha hb hc =
    additive_ext 8 (λ x. mul_bytes (mul_bytes x b) c) (λ x. mul_bytes x (mul_bytes b c))
      (first_left b c hb hc) (first_right b c hb hc)
      (rw (
        zero-mul_bytes b hb,
        zero-mul_bytes c hc,
        zero-mul_bytes (mul_bytes b c) (mul_bytes-lt b c hb hc),
      ))
      (λ i hi. assoc_powers₁ i b c hi hb hc) a ha
