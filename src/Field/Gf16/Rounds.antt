-- ===== src/Field/Gf16/Rounds.antt =====
-- The bodies of `Gf16::new`, `Mul for Gf16` and `Gf16::embed` in src/field.rs, over the `u8` locals
-- of those functions.
use mqom_rs.Base.{ℕ, zero, suc, bit_and, bit_xor, ◌<<<◌, ◌>>>◌, u8, mask_of}

unfoldable pub low_nibble : ℕ → ℕ
low_nibble value = bit_and value 0x0f

-- The loop of `mul` with the number of rounds left, over the locals `a`, `b` and `product`.
unfoldable pub mul_rounds : ℕ → ℕ → ℕ → ℕ → ℕ
mul_rounds zero a b product = product
mul_rounds (suc n) a b product =
    let b_mask = mask_of (bit_and b 1) in
    let high_mask = mask_of (bit_and (a >>> 3) 1) in
    mul_rounds n (bit_xor (bit_and (u8 (a <<< 1)) 0x0f) (bit_and 0x03 high_mask)) (b >>> 1)
      (bit_xor product (bit_and a b_mask))

unfoldable pub mul_nibbles : ℕ → ℕ → ℕ
mul_nibbles a b = bit_and (mul_rounds 4 a b 0) 0x0f

unfoldable pub embed_nibble : ℕ → ℕ
embed_nibble x =
    let bit_0 = mask_of (bit_and x 1) in
    let bit_1 = mask_of (bit_and (x >>> 1) 1) in
    let bit_2 = mask_of (bit_and (x >>> 2) 1) in
    let bit_3 = mask_of (bit_and (x >>> 3) 1) in
    bit_xor (bit_xor (bit_xor (bit_and 0x01 bit_0) (bit_and 0xe0 bit_1)) (bit_and 0x5d bit_2))
      (bit_and 0xb0 bit_3)
