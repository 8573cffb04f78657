-- ===== src/Prg.antt =====
-- src/prg.rs: the AES-based pseudorandom generator, over the cipher of the `aes` crate.
pub mod Tweak
pub mod Orthomorphism
pub mod Stream
mod Tests
use mqom_rs.Base.{
  ℕ, zero, suc, ◌+◌, ◌-◌, ◌*◌, ◌/◌, ◌^◌, min, U8, xor_u8, to_u8, Option, none, some, List, [], ◌∷◌,
  ◌++◌, length, take, drop, set, get_or, Bool, true, false, ltb, if◌then◌else◌, ◌>>=◌, ◌>>>◌, u8,
}
use mqom_rs.Bytes.{xor_zip}
use mqom_rs.Crates.{Crates}
use mqom_rs.Field.Packing.{checked_add, zero_byte}

abbrev pub block_size : ℕ
block_size = 16

abbrev pub prg_selector : ℕ
prg_selector = 3

unfoldable pub linear_orthomorphism : List U8 → List U8
linear_orthomorphism seed =
    let image = drop (block_size / 2) seed ++ take (block_size / 2) seed in
    xor_zip (take (block_size / 2) image) (take (block_size / 2) seed)
    ++ drop (block_size / 2) image

-- `u16::to_le_bytes`.
abbrev pub u16_to_le_bytes : ℕ → U8 × U8
u16_to_le_bytes index = (to_u8 index, to_u8 (index >>> 8))

-- `tweaked[i] ^= byte`.
abbrev pub xor_at : List U8 → ℕ → U8 → List U8
xor_at bytes i byte = set bytes i (xor_u8 (get_or bytes i zero_byte) byte)

-- `selector.wrapping_add(execution.wrapping_mul(4))`.
abbrev pub tag : ℕ → ℕ → U8
tag selector execution = to_u8 (selector + u8 (execution * 4))

unfoldable pub tweak_salt : List U8 → ℕ → ℕ → ℕ → List U8
tweak_salt salt selector execution index =
    let (low, high) = u16_to_le_bytes index in
    xor_at (xor_at (xor_at salt 0 (tag selector execution)) 1 low) 2 high

-- `u16::try_from` on a `usize`.
abbrev pub u16_try_from : ℕ → Option ℕ
u16_try_from n = if ltb n (2 ^ 16) then some n else none

module _ ⦃c : Crates⦄ where
  -- `SeedDeriver`, a tuple struct over the cipher.
  abbrev pub SeedDeriver : Type 0
  SeedDeriver = c.Aes128

  -- `SeedDeriver::new`.
  unfoldable pub new_deriver : List U8 → SeedDeriver
  new_deriver key = c.new_cipher key

  unfoldable pub derive : SeedDeriver → List U8 → List U8
  derive deriver seed =
      let linear_image = linear_orthomorphism seed in
      let block = c.encrypt_block deriver seed in xor_zip block linear_image

  pub record Generator : Type 0 where
    pub blocks : List SeedDeriver

  -- The loop of `Generator::new` from `block_index`, with the rounds left.
  unfoldable pub new_blocks : List U8 → ℕ → ℕ → ℕ → Option (List SeedDeriver)
  new_blocks salt execution block_index zero = some []
  new_blocks salt execution block_index (suc left) = do
    index ← u16_try_from block_index
    let key = tweak_salt salt prg_selector execution index
    rest ← new_blocks salt execution (block_index + 1) left
    some (new_deriver key ∷ rest)

  -- `Generator::new`.
  unfoldable pub new_generator : List U8 → ℕ → ℕ → Option Generator
  new_generator salt execution output_len = do
    rounded ← checked_add output_len (block_size - 1)
    let block_count = rounded / block_size
    if ltb (2 ^ 16 - 1 + 1) block_count then none else (do
      blocks ← new_blocks salt execution 0 block_count
      some (record { blocks = blocks }))

  -- The loop of `Generator::fill`, over the derivers and the chunks of the output.
  unfoldable pub fill_blocks : List SeedDeriver → List U8 → List U8 → List U8
  fill_blocks [] seed output = output
  fill_blocks (deriver ∷ rest) seed [] = []
  fill_blocks (deriver ∷ rest) seed (o ∷ output) =
      let block = derive deriver seed in
      let chunk = min block_size (length (o ∷ output)) in
      take chunk block ++ fill_blocks rest seed (drop block_size (o ∷ output))

  -- `Generator::fill`, which returns the output beside the Boolean.
  unfoldable pub generator_fill : Generator → List U8 → List U8 → Bool × List U8
  generator_fill generator seed output = elim (checked_add (length output) (block_size - 1)) [
    | none ↦ (false, output)
    | some rounded ↦
        if ltb (length generator.blocks) (rounded / block_size)
        then (false, output)
        else (true, fill_blocks generator.blocks seed output)
  ]

  -- The free function `fill`.
  unfoldable pub fill : List U8 → ℕ → List U8 → List U8 → Bool × List U8
  fill salt execution seed output = elim (new_generator salt execution (length output)) [
    | none ↦ (false, output)
    | some generator ↦ generator_fill generator seed output
  ]
