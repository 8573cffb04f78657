-- ===== src/Xtask/Drbg/State.antt =====
-- The states of `KatDrbg`: what `new` makes of a seed, and what `generate` leaves.
use mqom_rs.Base.{
  ℕ, suc, ◌+◌, ◌-◌, ◌*◌, ◌/◌, ◌%◌, ◌^◌, ◌<◌, ◌≡◌, refl, sym, ap, ◌∙◌, arith, U8, to_u8, Option,
  none, some, List, ◌++◌, length, take, drop, slice, take-append-drop, take_all,
}
use native.Mathlib.Nat.{mod-eq_of_lt, mod-add-mod}
use mqom_rs.Bytes.{filled, length-filled, xor_zip, take-xor_zip, drop-xor_zip}
use mqom_rs.Field.Packing.{zero_byte}
use mqom_rs.Xtask.Drbg.{Aes256, KatDrbg, xor_provided, update, new, generate}
use mqom_rs.Xtask.Drbg.Counter.{big_endian}
use mqom_rs.Xtask.Drbg.Stream.{
  advanced, advanced-big_endian, keystream, length-keystream, fill_counter-keystream, block_at,
}
use mqom_rs.Xtask.Drbg.Rng.{IsSized, generate-keystream}

-- The 48 bytes of a state, and 16 of them.
abbrev pub bytes_of : KatDrbg → List U8
bytes_of self = self.key ++ self.value

abbrev pub block : ℕ → List U8 → List U8
block i bytes = slice (i * 16) (i * 16 + 16) bytes

block-xor_zip : (i : ℕ) (a b : List U8) → block i (xor_zip a b) ≡ xor_zip (block i a) (block i b)
block-xor_zip i a b =
    ap (take (i * 16 + 16 - i * 16)) (drop-xor_zip (i * 16) a b)
    ∙ take-xor_zip (i * 16 + 16 - i * 16) (drop (i * 16) a) (drop (i * 16) b)

big_endian-filled : big_endian (filled 16 zero_byte) ≡ 0
unfolding filled to_u8
big_endian-filled = refl

module _ ⦃a : Aes256⦄ where
  bytes_of-update :
      (self : KatDrbg) (provided : Option (List U8))
      → bytes_of (update self provided)
        ≡ xor_provided (keystream (a.new_cipher self.key) self.value 3) provided
  unfolding update
  bytes_of-update self provided =
      rw (fill_counter-keystream (a.new_cipher self.key) self.value 3) (
        take-append-drop 32
          (xor_provided (keystream (a.new_cipher self.key) self.value 3) provided))

  block-keystream :
      (cipher : a.Cipher) (value : List U8) (i : ℕ)
      → length value ≡ 16
      → i < 3
      → block i (keystream cipher value 3) ≡ a.encrypt_block cipher (advanced value (suc i))
  block-keystream cipher value i e lt =
      ap (block i) (
        sym (
          take_all 48 (keystream cipher value 3)
            (omega (arith, length-keystream cipher value 3 e))))
      ∙ block_at cipher value e 48 3 i (omega arith) (omega arith)

  -- From a generator of its sizes, the three blocks of the state that `generate` leaves are encryptions
  -- under the old key: the block at place `i` is that of the counter that stands `i + 1` after the old one
  -- and the blocks of the output, the last of which may be cut, modulo 2 ^ 128. The block at place `i` of
  -- the state that `new` makes of a seed is the encryption under the key of zeros of the counter `i + 1`,
  -- xored with the block of the seed at that place.
  pub generate_state :
      (self : KatDrbg) (seed : List U8) (size i : ℕ)
      → IsSized self
      → i < 3
      → ((counter : List U8) × (length counter ≡ 16)
          × (big_endian counter ≡ (big_endian self.value + (size + 15) / 16 + suc i) % 256 ^ 16)
          × (block i (bytes_of (generate self size).1)
              ≡ a.encrypt_block (a.new_cipher self.key) counter))
        × ((counter : List U8) × (length counter ≡ 16)
            × (big_endian counter ≡ suc i)
            × (block i (bytes_of (new seed))
                ≡ xor_zip
                    (a.encrypt_block (a.new_cipher (filled 32 zero_byte)) counter)
                    (block i seed)))
  unfolding new
  generate_state self seed size i s lt =
      let blocks = (size + 15) / 16 in
      let (used, used_number) = advanced-big_endian self.value blocks s.value_size in
      let (next, next_number) = advanced-big_endian (advanced self.value blocks) (suc i) used in
      let (first, first_number) =
        advanced-big_endian (filled 16 zero_byte) (suc i) (length-filled 16 zero_byte) in
      (
        (
          advanced (advanced self.value blocks) (suc i),
          next,
          next_number
              ∙ ap (λ k. (k + suc i) % 256 ^ 16) used_number
              ∙ mod-add-mod (big_endian self.value + blocks) (256 ^ 16) (suc i),
          ap (λ (r : List U8 × KatDrbg). block i (bytes_of r.1))
                (generate-keystream self size s.value_size)
              ∙ ap (block i)
                  (bytes_of-update (record self { value = advanced self.value blocks }) none)
              ∙ block-keystream (a.new_cipher self.key) (advanced self.value blocks) i used lt,
        ),
        (
          advanced (filled 16 zero_byte) (suc i),
          first,
          first_number ∙ ap (λ k. (k + suc i) % 256 ^ 16) big_endian-filled ∙ small,
          ap (block i) (bytes_of-update _ (some seed))
              ∙ block-xor_zip i _ seed
              ∙ ap (λ b. xor_zip b (block i seed))
                  (block-keystream (a.new_cipher (filled 32 zero_byte)) (filled 16 zero_byte) i
                    (length-filled 16 zero_byte) lt),
        ),
      )
    where
      small : (0 + suc i) % 256 ^ 16 ≡ suc i
      small =
          ap (λ k. k % 256 ^ 16) {x = 0 + suc i} {y = suc i} (omega arith)
          ∙ mod-eq_of_lt (omega (arith, lt))
