-- ===== src/Xtask/Drbg.antt =====
-- `KatDrbg` of src/xtask/src/main.rs: the AES-256 counter generator from which the known answers were
-- made, and its use as a randomness source. The buffers that it fills are returned. `chunks_mut` is the
-- length of what is left to fill, in rounds of 16 bytes.
pub mod Counter
pub mod Stream
pub mod Rng
pub mod State
mod Tests
use mqom_rs.Base.{
  ℕ, zero, suc, ◌+◌, ◌-◌, ◌/◌, ◌*◌, ◌≡◌, min, U8, to_u8, Option, none, some, List, [], ◌∷◌, ◌++◌,
  length, take, drop, ◌==◌, if◌then◌else◌,
}
use mathlib.Core.List.{reverse}
use mqom_rs.Bytes.{filled, xor_zip}
use mqom_rs.Field.Packing.{zero_byte}
use mqom_rs.Api.{Result, ok}

-- aes::Aes256, which encrypts a block in place.
pub record Aes256 : Type 1 where
  pub Cipher : Type 0
  pub new_cipher : List U8 → Cipher
  pub encrypt_block : Cipher → List U8 → List U8
  pub length-encrypt_block :
      (cipher : Cipher) (block : List U8) → length (encrypt_block cipher block) ≡ length block

pub record KatDrbg : Type 0 where
  pub key : List U8
  pub value : List U8

-- The loop of `increment_value` from the last byte on, up to the first that does not overflow.
unfoldable pub increment_bytes : List U8 → List U8
increment_bytes [] = []
increment_bytes (byte ∷ rest) =
    let incremented = to_u8 (byte.value + 1) in
    let later = increment_bytes rest in
    if byte.value == 255 then incremented ∷ later else incremented ∷ rest

unfoldable pub increment_value : List U8 → List U8
increment_value value = reverse (increment_bytes (reverse value))

-- `from_le_bytes` of `u32` and `u64`, for 4 and for 8 bytes.
abbrev pub from_le_bytes : List U8 → ℕ
from_le_bytes [] = 0
from_le_bytes (byte ∷ rest) = byte.value + 256 * from_le_bytes rest

module _ ⦃a : Aes256⦄ where
  -- A loop that fills `left` blocks from the counter, with the counter after it.
  unfoldable pub fill_counter : a.Cipher → List U8 → ℕ → List U8 × List U8
  fill_counter cipher value zero = ([], value)
  fill_counter cipher value (suc left) =
      let incremented = increment_value value in
      let (blocks, after) = fill_counter cipher incremented left in
      (a.encrypt_block cipher incremented ++ blocks, after)

  -- `temporary ^= provided`, where something is provided.
  abbrev pub xor_provided : List U8 → Option (List U8) → List U8
  xor_provided temporary none = temporary
  xor_provided temporary (some provided) = xor_zip temporary provided

  unfoldable pub update : KatDrbg → Option (List U8) → KatDrbg
  update self provided =
      let cipher = a.new_cipher self.key in
      let (blocks, after) = fill_counter cipher self.value 3 in
      let temporary = xor_provided blocks provided in
      record { key = take 32 temporary; value = drop 32 temporary }

  unfoldable pub new : List U8 → KatDrbg
  new seed = update (record { key = filled 32 zero_byte; value = filled 16 zero_byte }) (some seed)

  -- The loop of `generate` over the chunks of what is left to fill, the last of which may be shorter.
  unfoldable pub generate_loop : a.Cipher → List U8 → ℕ → ℕ → List U8 × List U8
  generate_loop cipher value size zero = ([], value)
  generate_loop cipher value size (suc left) =
      let incremented = increment_value value in
      let block = take (min 16 size) (a.encrypt_block cipher incremented) in
      let (blocks, after) = generate_loop cipher incremented (size - 16) left in
      (block ++ blocks, after)

  unfoldable pub generate : KatDrbg → ℕ → List U8 × KatDrbg
  generate self size =
      let cipher = a.new_cipher self.key in
      let (output, after) = generate_loop cipher self.value size ((size + 15) / 16) in
      (output, update (record self { value = after }) none)

  unfoldable pub try_next_u32 : KatDrbg → Result ℕ ⊥ × KatDrbg
  try_next_u32 self = let (bytes, after) = generate self 4 in (ok (from_le_bytes bytes), after)

  unfoldable pub try_next_u64 : KatDrbg → Result ℕ ⊥ × KatDrbg
  try_next_u64 self = let (bytes, after) = generate self 8 in (ok (from_le_bytes bytes), after)

  unfoldable pub try_fill_bytes : KatDrbg → ℕ → Result (List U8) ⊥ × KatDrbg
  try_fill_bytes self size =
      let (destination, after) = generate self size in (ok destination, after)
