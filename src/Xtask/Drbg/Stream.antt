-- ===== src/Xtask/Drbg/Stream.antt =====
-- What `KatDrbg` generates: the start of one stream of encrypted counters.
use mqom_rs.Base.{
  ℕ, zero, suc, ◌+◌, ◌-◌, ◌*◌, ◌%◌, ◌^◌, ◌≤◌, ◌<◌, ◌≡◌, refl, sym, ap, ap₂, ◌∙◌, arith, U8, List,
  [], ◌++◌, length, take, drop, slice, length-append, take-min, take-append_split, take-take,
}
use mathlib.Core.List.{append_assoc}
use native.Mathlib.Nat.{mod-eq_of_lt, mod-add-mod}
use mathlib.Core.Path.{subst}
use mqom_rs.Bytes.{drop_exactly}
use mqom_rs.Bytes.Slices.{take_exactly, slice-take}
use mqom_rs.Sign.Equations.{pair}
use mqom_rs.Xtask.Drbg.{Aes256, increment_value, fill_counter, generate_loop}
use mqom_rs.Xtask.Drbg.Counter.{big_endian, big_endian-lt, increment_value-big_endian}

-- The counter after a number of steps.
abbrev pub advanced : List U8 → ℕ → List U8
advanced value zero = value
advanced value (suc n) = advanced (increment_value value) n

advanced_none :
    (value : List U8) → length value ≡ 16 → big_endian value ≡ (big_endian value + 0) % 256 ^ 16
advanced_none value e =
    sym (mod-eq_of_lt (subst (λ k. big_endian value < 256 ^ k) e (big_endian-lt value)))
    ∙ ap (λ k. k % 256 ^ 16) {x = big_endian value} {y = big_endian value + 0} (omega arith)

advanced_next :
    (before n after : ℕ)
    → after ≡ (before + 1) % 256 ^ 16
    → (after + n) % 256 ^ 16 ≡ (before + suc n) % 256 ^ 16
advanced_next before n after e =
    ap (λ k. (k + n) % 256 ^ 16) e
    ∙ mod-add-mod (before + 1) (256 ^ 16) n
    ∙ ap (λ k. k % 256 ^ 16) {x = before + 1 + n} {y = before + suc n} (omega arith)

pub advanced-big_endian :
    (value : List U8) (n : ℕ)
    → length value ≡ 16
    → (length (advanced value n) ≡ 16)
      × (big_endian (advanced value n) ≡ (big_endian value + n) % 256 ^ 16)
advanced-big_endian value zero e = (e, advanced_none value e)
advanced-big_endian value (suc n) e =
    let (size, next) = increment_value-big_endian value in
    let (later_size, later) = advanced-big_endian (increment_value value) n (size ∙ e) in
    (
      later_size,
      later
          ∙ advanced_next (big_endian value) n _
              (next ∙ ap (λ k. (big_endian value + 1) % 256 ^ k) e),
    )

module _ ⦃a : Aes256⦄ where
  -- The encrypted counters that follow a counter.
  abbrev pub keystream : a.Cipher → List U8 → ℕ → List U8
  keystream cipher value zero = []
  keystream cipher value (suc n) =
      a.encrypt_block cipher (increment_value value) ++ keystream cipher (increment_value value) n

  encrypted_size :
      (cipher : a.Cipher) (value : List U8)
      → length value ≡ 16
      → length (a.encrypt_block cipher (increment_value value)) ≡ 16
  encrypted_size cipher value e =
      a.length-encrypt_block cipher (increment_value value)
      ∙ (increment_value-big_endian value).0
      ∙ e

  next_size : (value : List U8) → length value ≡ 16 → length (increment_value value) ≡ 16
  next_size value e = (increment_value-big_endian value).0 ∙ e

  pub length-keystream :
      (cipher : a.Cipher) (value : List U8) (n : ℕ)
      → length value ≡ 16
      → length (keystream cipher value n) ≡ n * 16
  length-keystream cipher value zero e = refl
  length-keystream cipher value (suc n) e = omega (
    arith,
    length-append (a.encrypt_block cipher (increment_value value))
        (keystream cipher (increment_value value) n),
    encrypted_size cipher value e,
    length-keystream cipher (increment_value value) n (next_size value e),
  )

  pub fill_counter-keystream :
      (cipher : a.Cipher) (value : List U8) (n : ℕ)
      → fill_counter cipher value n ≡ (keystream cipher value n, advanced value n)
  unfolding fill_counter
  fill_counter-keystream cipher value zero = refl
  fill_counter-keystream cipher value (suc n) =
      rw (fill_counter-keystream cipher (increment_value value) n)

  pub generate_loop-keystream :
      (cipher : a.Cipher) (value : List U8) (size left : ℕ)
      → length value ≡ 16
      → size ≤ left * 16
      → generate_loop cipher value size left
        ≡ (take size (keystream cipher value left), advanced value left)
  unfolding generate_loop
  generate_loop-keystream cipher value zero zero e h = refl
  generate_loop-keystream cipher value (suc size) zero e h = absurd (omega arith)
  generate_loop-keystream cipher value size (suc left) e h =
      rw
        (generate_loop-keystream cipher (increment_value value) (size - 16) left (next_size value e)
          (omega (arith, h)))
        (pair
          (ap (λ t. t ++ later) (take-min 16 size block sized)
            ∙ ap
                (λ k.
                  take size block
                  ++ take (size - k) (keystream cipher (increment_value value) left))
                (sym sized)
            ∙ sym (take-append_split size block (keystream cipher (increment_value value) left)))
          refl)
    where
      block : List U8
      block = a.encrypt_block cipher (increment_value value)

      sized : length block ≡ 16
      sized = encrypted_size cipher value e

      later : List U8
      later = take (size - 16) (keystream cipher (increment_value value) left)

  keystream_more :
      (cipher : a.Cipher) (value : List U8) (n m : ℕ)
      → keystream cipher value (n + m)
        ≡ keystream cipher value n ++ keystream cipher (advanced value n) m
  keystream_more cipher value zero m = ap (keystream cipher value) {x = 0 + m} {y = m} (omega arith)
  keystream_more cipher value (suc n) m =
      ap (keystream cipher value) {x = suc n + m} {y = suc (n + m)} (omega arith)
      ∙ ap (◌++◌ (a.encrypt_block cipher (increment_value value)))
          (keystream_more cipher (increment_value value) n m)
      ∙ sym (
          append_assoc (a.encrypt_block cipher (increment_value value))
            (keystream cipher (increment_value value) n) _)

  advanced-suc :
      (value : List U8) (n : ℕ) → increment_value (advanced value n) ≡ advanced value (suc n)
  advanced-suc value zero = refl
  advanced-suc value (suc n) = advanced-suc (increment_value value) n

  -- A prefix of the output, and the block at a place.
  module _ (cipher : a.Cipher) (value : List U8) (e : length value ≡ 16) where
    pub block_at :
        (size n i : ℕ)
        → size ≤ n * 16
        → i * 16 + 16 ≤ size
        → slice (i * 16) (i * 16 + 16) (take size (keystream cipher value n))
          ≡ a.encrypt_block cipher (advanced value (suc i))
    block_at size n i h within_it =
        slice-take (i * 16) (i * 16 + 16) (take size (keystream cipher value n)) (omega arith)
        ∙ ap (drop (i * 16)) (take-take (i * 16 + 16) size (keystream cipher value n) within_it)
        ∙ sym (slice-take (i * 16) (i * 16 + 16) (keystream cipher value n) (omega arith))
        ∙ ap₂ take {x = i * 16 + 16 - i * 16} {y = 16} (omega arith) (
            ap (λ k. drop (i * 16) (keystream cipher value k)) {x = n} {y = i + suc (n - suc i)}
              (omega (arith, h, within_it))
            ∙ ap (drop (i * 16)) (keystream_more cipher value i (suc (n - suc i)))
            ∙ drop_exactly (keystream cipher value i) _ (i * 16)
                (sym (length-keystream cipher value i e)))
        ∙ take_exactly 16 (a.encrypt_block cipher (increment_value (advanced value i))) _
            (encrypted_size cipher (advanced value i) (advanced-big_endian value i e).0)
        ∙ ap (a.encrypt_block cipher) (advanced-suc value i)
