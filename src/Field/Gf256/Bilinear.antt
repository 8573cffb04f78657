-- ===== src/Field/Gf256/Bilinear.antt =====
-- The loop of GF(256) multiplication is additive in each factor, on bytes.
use mqom_rs.Base.{
  ℕ, zero, suc, ◌%◌, ◌<◌, bit_and, bit_xor, ◌<<<◌, ◌>>>◌, u8, ◌≡◌, refl, ◌⊎◌, inl, inr, arith,
  xor-lt, xor_self, xor-zero, zero-xor, xor_interchange, xor_shr, xor_low, xor_shl, xor_parity,
  all_below, agree_below,
}
use mqom_rs.Field.Gf256.Rounds.{selected, doubled, mul_rounds, mul_bytes}

and_all : (x : ℕ) → x < 256 → bit_and x 255 ≡ x
unfolding all_below
and_all x h = agree_below 256 (λ y. bit_and y 255) (λ y. y) x refl h

and_none : (x : ℕ) → x < 256 → bit_and x 0 ≡ 0
unfolding all_below
and_none x h = agree_below 256 (λ y. bit_and y 0) (λ y. 0) x refl h

and_one : (x : ℕ) → x < 256 → bit_and x 1 ≡ x % 2
unfolding all_below
and_one x h = agree_below 256 (λ y. bit_and y 1) (λ y. y % 2) x refl h

selected_cases :
    (a b : ℕ)
    → a < 256
    → b < 256
    → (b % 2 ≡ 0) × (selected a b ≡ 0) ⊎ (b % 2 ≡ 1) × (selected a b ≡ a)
selected_cases a b ha hb = go (b % 2) refl (omega arith)
  where
    go :
        (r : ℕ)
        → b % 2 ≡ r
        → r < 2
        → (b % 2 ≡ 0) × (selected a b ≡ 0) ⊎ (b % 2 ≡ 1) × (selected a b ≡ a)
    go zero e lt = inl (e, rw (and_one b hb, e) (and_none a ha))
    go (suc zero) e lt = inr (e, rw (and_one b hb, e) (and_all a ha))
    go (suc (suc r)) e lt = absurd (omega arith)

selected-lt : (a b : ℕ) → a < 256 → b < 256 → selected a b < 256
selected-lt a b ha hb = elim (selected_cases a b ha hb) [
  | inl (_, e) ↦ rw e (omega arith)
  | inr (_, e) ↦ rw e ha
]

selected-xor_left :
    (a a' b : ℕ)
    → a < 256
    → a' < 256
    → b < 256
    → selected (bit_xor a a') b ≡ bit_xor (selected a b) (selected a' b)
selected-xor_left a a' b ha ha' hb = ground (
  arith,
  selected_cases a b ha hb,
  selected_cases a' b ha' hb,
  selected_cases (bit_xor a a') b (xor-lt 8 a a' ha ha') hb,
  zero-xor 0,
)

selected-xor_right :
    (a b b' : ℕ)
    → a < 256
    → b < 256
    → b' < 256
    → selected a (bit_xor b b') ≡ bit_xor (selected a b) (selected a b')
selected-xor_right a b b' ha hb hb' = ground (
  arith,
  selected_cases a b ha hb,
  selected_cases a b' ha hb',
  selected_cases a (bit_xor b b') ha (xor-lt 8 b b' hb hb'),
  xor_parity b b',
  zero-xor 0,
  zero-xor a,
  xor-zero a,
  xor_self a,
)

doubled_lem : (a : ℕ) → a < 256 → doubled a ≡ bit_xor (u8 (a <<< 1)) (selected 0x1b (a >>> 7))
doubled_lem a h =
    let e : bit_and (a >>> 7) 1 ≡ a >>> 7 = omega (arith, and_one (a >>> 7) (omega arith)) in rw e

doubled-lt : (a : ℕ) → a < 256 → doubled a < 256
doubled-lt a h = rw (doubled_lem a h) (
    xor-lt 8 (u8 (a <<< 1)) (selected 0x1b (a >>> 7)) (omega arith)
      (selected-lt 0x1b (a >>> 7) (omega arith) (omega arith)))

doubled-xor :
    (a a' : ℕ) → a < 256 → a' < 256 → doubled (bit_xor a a') ≡ bit_xor (doubled a) (doubled a')
doubled-xor a a' h h' =
    let low : bit_xor (u8 (a <<< 1)) (u8 (a' <<< 1)) ≡ u8 (bit_xor a a' <<< 1) =
      rw (xor_shl 1 a a', xor_low 8 (a <<< 1) (a' <<< 1)) in
    rw (
      doubled_lem (bit_xor a a') (xor-lt 8 a a' h h'),
      doubled_lem a h,
      doubled_lem a' h',
      xor_interchange (u8 (a <<< 1)) (selected 0x1b (a >>> 7)) (u8 (a' <<< 1))
          (selected 0x1b (a' >>> 7)),
      low,
      xor_shr 7 a a',
      selected-xor_right 0x1b (a >>> 7) (a' >>> 7) (omega arith) (omega arith) (omega arith),
    )

mul_rounds-lt : (n a b p : ℕ) → a < 256 → b < 256 → p < 256 → mul_rounds n a b p < 256
unfolding mul_rounds
mul_rounds-lt zero a b p ha hb hp = hp
mul_rounds-lt (suc n) a b p ha hb hp =
    mul_rounds-lt n (doubled a) (b >>> 1) (bit_xor p (selected a b)) (doubled-lt a ha) (omega arith)
      (xor-lt 8 p (selected a b) hp (selected-lt a b ha hb))

mul_rounds-xor_left :
    (n a a' b p p' : ℕ)
    → a < 256
    → a' < 256
    → b < 256
    → mul_rounds n (bit_xor a a') b (bit_xor p p')
      ≡ bit_xor (mul_rounds n a b p) (mul_rounds n a' b p')
unfolding mul_rounds
mul_rounds-xor_left zero a a' b p p' ha ha' hb = refl
mul_rounds-xor_left (suc n) a a' b p p' ha ha' hb =
    rw
      (
        doubled-xor a a' ha ha',
        selected-xor_left a a' b ha ha' hb,
        xor_interchange p p' (selected a b) (selected a' b),
      )
      (mul_rounds-xor_left n (doubled a) (doubled a') (b >>> 1) (bit_xor p (selected a b))
        (bit_xor p' (selected a' b)) (doubled-lt a ha) (doubled-lt a' ha') (omega arith))

mul_rounds-xor_right :
    (n a b b' p p' : ℕ)
    → a < 256
    → b < 256
    → b' < 256
    → mul_rounds n a (bit_xor b b') (bit_xor p p')
      ≡ bit_xor (mul_rounds n a b p) (mul_rounds n a b' p')
unfolding mul_rounds
mul_rounds-xor_right zero a b b' p p' ha hb hb' = refl
mul_rounds-xor_right (suc n) a b b' p p' ha hb hb' =
    rw
      (
        xor_shr 1 b b',
        selected-xor_right a b b' ha hb hb',
        xor_interchange p p' (selected a b) (selected a b'),
      )
      (mul_rounds-xor_right n (doubled a) (b >>> 1) (b' >>> 1) (bit_xor p (selected a b))
        (bit_xor p' (selected a b')) (doubled-lt a ha) (omega arith) (omega arith))

pub mul_bytes-lt : (a b : ℕ) → a < 256 → b < 256 → mul_bytes a b < 256
unfolding mul_bytes
mul_bytes-lt a b ha hb = mul_rounds-lt 8 a b 0 ha hb (omega arith)

pub mul_bytes-xor_left :
    (a a' b : ℕ)
    → a < 256
    → a' < 256
    → b < 256
    → mul_bytes (bit_xor a a') b ≡ bit_xor (mul_bytes a b) (mul_bytes a' b)
unfolding mul_bytes
mul_bytes-xor_left a a' b ha ha' hb = mul_rounds-xor_left 8 a a' b 0 0 ha ha' hb

pub mul_bytes-xor_right :
    (a b b' : ℕ)
    → a < 256
    → b < 256
    → b' < 256
    → mul_bytes a (bit_xor b b') ≡ bit_xor (mul_bytes a b) (mul_bytes a b')
unfolding mul_bytes
mul_bytes-xor_right a b b' ha hb hb' = mul_rounds-xor_right 8 a b b' 0 0 ha hb hb'
