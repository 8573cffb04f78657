-- ===== src/Xtask/Drbg/Tests.antt =====
-- The generator over a block cipher that adds its key: runs, and the theorems there.
use mqom_rs.Base.{
  ◌+◌, ◌*◌, ◌%◌, ◌^◌, ◌≡◌, refl, arith, U8, to_u8, List, [], ◌∷◌, map, length, slice,
}
use mqom_rs.Bytes.{filled, xor_zip, length-xor_zip}
use mqom_rs.Xtask.Drbg.{Aes256, KatDrbg, increment_bytes, increment_value, new, generate}
use mqom_rs.Xtask.Drbg.Counter.{big_endian, increment_value-big_endian}
use mqom_rs.Xtask.Drbg.Rng.{IsSized, new-IsSized, generate_block}
use mqom_rs.Xtask.Drbg.State.{bytes_of, block, generate_state}
use mqom_rs.Field.Packing.{zero_byte}

abbrev toy_aes : Aes256
toy_aes = record {
  Cipher = List U8;
  new_cipher = λ key. key;
  encrypt_block = λ key block. xor_zip block key;
  length-encrypt_block = λ key block. length-xor_zip block key;
}

-- The increment carries over bytes of 255, and stops at the first other one.
carries :
    (map (λ b. b.value) (increment_value (to_u8 7 ∷ to_u8 255 ∷ to_u8 255 ∷ [])) ≡ 8 ∷ 0 ∷ 0 ∷ [])
    × (map (λ b. b.value) (increment_value (to_u8 255 ∷ to_u8 255 ∷ [])) ≡ 0 ∷ 0 ∷ [])
unfolding increment_value increment_bytes to_u8
carries = (refl, refl)

abbrev start : KatDrbg
start = new ⦃a = toy_aes⦄ (filled 48 (to_u8 9))

start-IsSized : IsSized ⦃a = toy_aes⦄ start
start-IsSized = new-IsSized ⦃a = toy_aes⦄ (filled 48 (to_u8 9))

increment_value-big_endian_example :
    (length (increment_value (to_u8 1 ∷ to_u8 255 ∷ [])) ≡ 2)
    × (big_endian (increment_value (to_u8 1 ∷ to_u8 255 ∷ []))
        ≡ (big_endian (to_u8 1 ∷ to_u8 255 ∷ []) + 1) % 256 ^ 2)
increment_value-big_endian_example = increment_value-big_endian (to_u8 1 ∷ to_u8 255 ∷ [])

generate_block_example :
    (length (generate ⦃a = toy_aes⦄ start 40).0 ≡ 40)
    × IsSized ⦃a = toy_aes⦄ (generate ⦃a = toy_aes⦄ start 40).1
    × ((counter : List U8) × (length counter ≡ 16)
        × (big_endian counter ≡ (big_endian start.value + 2) % 256 ^ 16)
        × (slice (1 * 16) (1 * 16 + 16) (generate ⦃a = toy_aes⦄ start 40).0
            ≡ xor_zip counter start.key))
generate_block_example = generate_block ⦃a = toy_aes⦄ start 40 1 start-IsSized (omega arith)

generate_state_example :
    ((counter : List U8) × (length counter ≡ 16)
      × (big_endian counter ≡ (big_endian start.value + 3 + 2) % 256 ^ 16)
      × (block 1 (bytes_of (generate ⦃a = toy_aes⦄ start 40).1) ≡ xor_zip counter start.key))
    × ((counter : List U8) × (length counter ≡ 16)
        × (big_endian counter ≡ 2)
        × (block 1 (bytes_of start)
            ≡ xor_zip (xor_zip counter (filled 32 zero_byte)) (block 1 (filled 48 (to_u8 9)))))
generate_state_example =
    generate_state ⦃a = toy_aes⦄ start (filled 48 (to_u8 9)) 40 1 start-IsSized (omega arith)
