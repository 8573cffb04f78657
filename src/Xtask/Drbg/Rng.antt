-- ===== src/Xtask/Drbg/Rng.antt =====
-- `KatDrbg` as a randomness source: what its operations keep, what a block of its output is, and the keys
-- that are generated from it.
use mqom_rs.Base.{
  ℕ, suc, ◌+◌, ◌*◌, ◌/◌, ◌%◌, ◌^◌, ◌≤◌, ◌<◌, ◌≡◌, refl, ap, ◌∙◌, arith, U8, Option, none, some,
  List, length, take, slice, length-take, length-drop,
}
use mathlib.Core.Path.{subst}
use mqom_rs.Bytes.{length-filled, length-xor_zip}
use mqom_rs.Field.Packing.{zero_byte}
use mqom_rs.Crates.{Crates}
use mqom_rs.Keygen.{keygen_seed_size}
use mqom_rs.Api.{ok, TryCryptoRng}
use mqom_rs.Api.SigningKey as SigningKey
use mqom_rs.Api.Generate.{ok_inj, key_of, generate-ok}
use mqom_rs.Xtask.Drbg.{
  Aes256, KatDrbg, xor_provided, update, new, generate, try_next_u32, try_next_u64, try_fill_bytes,
  from_le_bytes,
}
use mqom_rs.Xtask.Drbg.Counter.{big_endian, from_le_bytes-lt}
use mqom_rs.Xtask.Drbg.Stream.{
  advanced, advanced-big_endian, keystream, length-keystream, fill_counter-keystream,
  generate_loop-keystream, block_at,
}

module _ ⦃a : Aes256⦄ where
  -- The sizes of the arrays.
  pub record IsSized (self : KatDrbg) : Type 0 where
    pub key_size : length self.key ≡ 32
    pub value_size : length self.value ≡ 16

  length-xor_provided :
      (temporary : List U8) (provided : Option (List U8))
      → length (xor_provided temporary provided) ≡ length temporary
  length-xor_provided temporary none = refl
  length-xor_provided temporary (some bytes) = length-xor_zip temporary bytes

  pub update-IsSized :
      (self : KatDrbg) (provided : Option (List U8))
      → length self.value ≡ 16
      → IsSized (update self provided)
  unfolding update
  update-IsSized self provided e =
      let temporary : List U8 =
        xor_provided (keystream (a.new_cipher self.key) self.value 3) provided in
      let size : length temporary ≡ 48 =
        length-xor_provided (keystream (a.new_cipher self.key) self.value 3) provided
        ∙ length-keystream (a.new_cipher self.key) self.value 3 e in
      rw (fill_counter-keystream (a.new_cipher self.key) self.value 3) (record {
        key_size = length-take 32 temporary ∙ omega (arith, size);
        value_size = length-drop 32 temporary ∙ omega (arith, size);
      })

  pub new-IsSized : (seed : List U8) → IsSized (new seed)
  unfolding new
  new-IsSized seed = update-IsSized _ (some seed) (length-filled 16 zero_byte)

  pub generate-keystream :
      (self : KatDrbg) (size : ℕ)
      → length self.value ≡ 16
      → generate self size ≡ (
        take size (keystream (a.new_cipher self.key) self.value ((size + 15) / 16)),
        update (record self { value = advanced self.value ((size + 15) / 16) }) none,
      )
  unfolding generate
  generate-keystream self size e = rw (
      generate_loop-keystream (a.new_cipher self.key) self.value size ((size + 15) / 16) e
        (omega arith))

  pub generate-IsSized :
      (self : KatDrbg) (size : ℕ)
      → IsSized self
      → (length (generate self size).0 ≡ size) × IsSized (generate self size).1
  generate-IsSized self size s =
      let e = s.value_size in
      let n = (size + 15) / 16 in
      rw (generate-keystream self size e) (
        length-take size (keystream (a.new_cipher self.key) self.value n)
            ∙ omega (arith, length-keystream (a.new_cipher self.key) self.value n e),
        update-IsSized _ none (advanced-big_endian self.value n e).0,
      )

  -- From a generator of its sizes, `generate` fills what it is given, and leaves a generator of its sizes;
  -- the block at place `i` of what it fills is the encryption, under its key, of the counter that stands
  -- `i + 1` after its own, modulo 2 ^ 128.
  pub generate_block :
      (self : KatDrbg) (size i : ℕ)
      → IsSized self
      → i * 16 + 16 ≤ size
      → (length (generate self size).0 ≡ size)
        × IsSized (generate self size).1
        × ((counter : List U8) × (length counter ≡ 16)
            × (big_endian counter ≡ (big_endian self.value + suc i) % 256 ^ 16)
            × (slice (i * 16) (i * 16 + 16) (generate self size).0
                ≡ a.encrypt_block (a.new_cipher self.key) counter))
  generate_block self size i s h =
      let e = s.value_size in
      let (filled_size, after) = generate-IsSized self size s in
      let (counter_size, counter_value) = advanced-big_endian self.value (suc i) e in
      (
        filled_size,
        after,
        (
          advanced self.value (suc i),
          counter_size,
          counter_value,
          ap (λ (r : List U8 × KatDrbg). slice (i * 16) (i * 16 + 16) r.0)
                (generate-keystream self size e)
              ∙ block_at (a.new_cipher self.key) self.value e size ((size + 15) / 16) i
                  (omega arith) h,
        ),
      )

  -- The methods of `TryRng` never fail on a generator of its sizes, and leave one: `try_next_u32` and
  -- `try_next_u64` return numbers below 2 ^ 32 and 2 ^ 64, and `try_fill_bytes` fills what it is given.
  pub kat_rng_bounds :
      (self : KatDrbg) (size : ℕ)
      → IsSized self
      → ((n : ℕ) × ((try_next_u32 self).0 ≡ ok n) × (n < 2 ^ 32))
        × IsSized (try_next_u32 self).1
        × ((n : ℕ) × ((try_next_u64 self).0 ≡ ok n) × (n < 2 ^ 64))
        × IsSized (try_next_u64 self).1
        × ((bytes : List U8) × ((try_fill_bytes self size).0 ≡ ok bytes) × (length bytes ≡ size))
        × IsSized (try_fill_bytes self size).1
  unfolding try_next_u32 try_next_u64 try_fill_bytes
  kat_rng_bounds self size s =
      let (four, after_four) = generate-IsSized self 4 s in
      let (eight, after_eight) = generate-IsSized self 8 s in
      let (all, after_all) = generate-IsSized self size s in
      (
        (from_le_bytes (generate self 4).0, refl, bound 4 (generate self 4).0 four),
        after_four,
        (from_le_bytes (generate self 8).0, refl, bound 8 (generate self 8).0 eight),
        after_eight,
        ((generate self size).0, refl, all),
        after_all,
      )
    where
      bound : (n : ℕ) (bytes : List U8) → length bytes ≡ n → from_le_bytes bytes < 256 ^ n
      bound n bytes e = subst (λ k. from_le_bytes bytes < 256 ^ k) e (from_le_bytes-lt bytes)

  pub try_fill_bytes-ok :
      (self : KatDrbg) (size : ℕ) → (try_fill_bytes self size).0 ≡ ok (generate self size).0
  unfolding try_fill_bytes
  try_fill_bytes-ok self size = refl

  pub try_fill_bytes-IsSized :
      (self : KatDrbg) (size : ℕ) → IsSized self → IsSized (try_fill_bytes self size).1
  unfolding try_fill_bytes
  try_fill_bytes-IsSized self size s = (generate-IsSized self size s).1

  -- `impl TryCryptoRng for KatDrbg`.
  abbrev pub kat_rng : TryCryptoRng
  kat_rng = record {
    State = (self : KatDrbg) × IsSized self;
    Error = ⊥;
    try_fill_bytes = λ state size. (
      (try_fill_bytes state.0 size).0,
      ((try_fill_bytes state.0 size).1, try_fill_bytes-IsSized state.0 size state.1),
    );
    length-try_fill_bytes = λ state size bytes e.
        ap length (ok_inj (try_fill_bytes state.0 size).0 e (try_fill_bytes-ok state.0 size))
        ∙ (generate-IsSized state.0 size state.1).0;
  }

  module _ ⦃c : Crates⦄ where
    -- From this source the generation of a key does not fail: the key is that of the bytes that `generate`
    -- makes of the state, as many as a seed has.
    pub generate-kat_rng :
        (self : KatDrbg) (s : IsSized self)
        → ((SigningKey.generate kat_rng (self, s)).0
            ≡ ok (key_of (generate self keygen_seed_size).0))
          × (length (generate self keygen_seed_size).0 ≡ keygen_seed_size)
    generate-kat_rng self s = (
      generate-ok kat_rng (self, s) (generate self keygen_seed_size).0
          (try_fill_bytes-ok self keygen_seed_size),
      (generate-IsSized self keygen_seed_size s).0,
    )
