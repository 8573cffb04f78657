-- ===== src/Field/Gf256/Rounds.antt =====
-- The loop of `impl Mul for Gf256` in src/field.rs, over the locals of that function.
use mqom_rs.Base.{ℕ, zero, suc, bit_and, bit_xor, ◌<<<◌, ◌>>>◌, u8, mask_of}

-- One round of the loop of `mul`: what is added to `product`, and the next `a`.
abbrev pub selected : ℕ → ℕ → ℕ
selected a b = let b_mask = mask_of (bit_and b 1) in bit_and a b_mask

abbrev pub doubled : ℕ → ℕ
doubled a = let high_mask = mask_of (a >>> 7) in bit_xor (u8 (a <<< 1)) (bit_and 0x1b high_mask)

-- The loop of `mul` with the number of rounds left, over the locals `a`, `b` and `product`.
unfoldable pub mul_rounds : ℕ → ℕ → ℕ → ℕ → ℕ
mul_rounds zero a b product = product
mul_rounds (suc n) a b product = mul_rounds n (doubled a) (b >>> 1) (bit_xor product (selected a b))

unfoldable pub mul_bytes : ℕ → ℕ → ℕ
unfolding mul_rounds
mul_bytes a b = mul_rounds 8 a b 0
