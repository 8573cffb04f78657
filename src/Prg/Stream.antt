-- ===== src/Prg/Stream.antt =====
-- `Generator` and `fill` of src/prg.rs: when they succeed, and the stream that they write.
use mqom_rs.Base.{
  ℕ, zero, suc, ◌+◌, ◌-◌, ◌*◌, ◌/◌, ◌^◌, ◌<◌, ◌≤◌, min, ◌≡◌, refl, sym, ap, ap₂, ◌∙◌, arith, U8,
  none, some, List, [], ◌∷◌, ◌++◌, length, take, drop, true, false, ltb, lt→ltb, length-append,
  take-min, take-append_split, Bool-cases, ◌⊎◌, inl, inr, take_within, take-take, length-take,
  length-drop,
}
use mathlib.Core.List.{append_assoc}
use mqom_rs.Bytes.{length-xor_zip}
use mqom_rs.Crates.{Crates}
use mqom_rs.Prg.{
  tweak_salt, new_deriver, derive, new_blocks, new_generator, fill_blocks, generator_fill, fill,
  SeedDeriver, prg_selector,
}

ltb-false : (a b : ℕ) → b ≤ a → ltb a b ≡ false
ltb-false a b h = ground arith

-- The number of blocks for `n` bytes.
abbrev pub block_count : ℕ → ℕ
block_count n = (n + 15) / 16

module _ ⦃c : Crates⦄ where
  pub length-derive :
      (deriver : SeedDeriver) (seed : List U8) → length (derive deriver seed) ≡ length seed
  unfolding derive
  length-derive deriver seed =
      length-xor_zip (c.encrypt_block deriver seed) _ ∙ c.length-encrypt_block deriver seed

  -- The key of block `i` is the salt tweaked by the selector 3, the execution and `i`.
  abbrev pub derivers : List U8 → ℕ → ℕ → ℕ → List SeedDeriver
  derivers salt execution i zero = []
  derivers salt execution i (suc n) =
      new_deriver (tweak_salt salt prg_selector execution i) ∷ derivers salt execution (i + 1) n

  -- The stream of `n` blocks from block `i` on.
  abbrev pub stream : List U8 → ℕ → List U8 → ℕ → ℕ → List U8
  stream salt execution seed i zero = []
  stream salt execution seed i (suc n) =
      derive (new_deriver (tweak_salt salt prg_selector execution i)) seed
      ++ stream salt execution seed (i + 1) n

  new_blocks_lem :
      (salt : List U8) (execution i n : ℕ)
      → i + n ≤ 2 ^ 16
      → new_blocks salt execution i n ≡ some (derivers salt execution i n)
  unfolding new_blocks
  new_blocks_lem salt execution i zero h = refl
  new_blocks_lem salt execution i (suc n) h =
      rw (lt→ltb i (2 ^ 16) (omega arith), new_blocks_lem salt execution (i + 1) n (omega arith))

  length-derivers : (salt : List U8) (execution i n : ℕ) → length (derivers salt execution i n) ≡ n
  length-derivers salt execution i zero = refl
  length-derivers salt execution i (suc n) = ap suc (length-derivers salt execution (i + 1) n)

  length-stream :
      (salt : List U8) (execution : ℕ) (seed : List U8) (i n : ℕ)
      → length seed ≡ 16
      → length (stream salt execution seed i n) ≡ 16 * n
  length-stream salt execution seed i zero e = refl
  length-stream salt execution seed i (suc n) e =
      length-append (derive (new_deriver (tweak_salt salt prg_selector execution i)) seed) _
      ∙ omega (
        arith,
        length-derive (new_deriver (tweak_salt salt prg_selector execution i)) seed,
        length-stream salt execution seed (i + 1) n e,
      )

  -- A cut of a block and what follows it.
  take_blocks :
      (n : ℕ) (block rest : List U8)
      → length block ≡ 16
      → take (min 16 n) block ++ take (n - 16) rest ≡ take n (block ++ rest)
  take_blocks n block rest e =
      ap₂ ◌++◌ (take-min 16 n block e) (ap (λ k. take (n - k) rest) (sym e))
      ∙ sym (take-append_split n block rest)

  fill_blocks_lem :
      (salt : List U8) (execution : ℕ) (seed : List U8) (i n : ℕ) (output : List U8)
      → length seed ≡ 16
      → length output ≤ 16 * n
      → fill_blocks (derivers salt execution i n) seed output
        ≡ take (length output) (stream salt execution seed i n)
  unfolding fill_blocks
  fill_blocks_lem salt execution seed i zero [] e h = refl
  fill_blocks_lem salt execution seed i zero (o ∷ output) e h = absurd (omega arith)
  fill_blocks_lem salt execution seed i (suc n) [] e h = refl
  fill_blocks_lem salt execution seed i (suc n) (o ∷ output) e h =
      ap (◌++◌ (take (min 16 (suc (length output))) block)) (
        fill_blocks_lem salt execution seed (i + 1) n (drop 16 (o ∷ output)) e
          (omega (arith, length-drop 15 output))
        ∙ ap (λ k. take k rest) (length-drop 16 (o ∷ output)))
      ∙ take_blocks (suc (length output)) block rest (length-derive _ seed ∙ e)
    where
      block : List U8
      block = derive (new_deriver (tweak_salt salt prg_selector execution i)) seed

      rest : List U8
      rest = stream salt execution seed (i + 1) n

  pub new_generator_lem :
      (salt : List U8) (execution n : ℕ)
      → block_count n ≤ 2 ^ 16
      → new_generator salt execution n
        ≡ some (record { blocks = derivers salt execution 0 (block_count n) })
  unfolding new_generator
  new_generator_lem salt execution n h = rw (
    lt→ltb (n + 15) (2 ^ 64) (omega arith),
    ltb-false (2 ^ 16) (block_count n) h,
    new_blocks_lem salt execution 0 (block_count n) (omega arith),
  )

  -- For a seed of 16 bytes and an output within the 16-bit block index, `fill` succeeds and writes
  -- that many bytes of the stream: the derived blocks of index 0, 1, and so on.
  pub fill-stream :
      (salt : List U8) (execution : ℕ) (seed output : List U8)
      → length seed ≡ 16
      → block_count (length output) ≤ 2 ^ 16
      → fill salt execution seed output
        ≡ (true, take (length output) (stream salt execution seed 0 (block_count (length output))))
  unfolding fill
  fill-stream salt execution seed output e h =
      rw (new_generator_lem salt execution (length output) h, fill)
        (filled
          ∙ ap (λ l. (true, l))
              (fill_blocks_lem salt execution seed 0 (block_count (length output)) output e
                (omega arith)))
    where
      filled :
          generator_fill
            (record { blocks = derivers salt execution 0 (block_count (length output)) })
            seed
            output
          ≡ (
            true,
            fill_blocks (derivers salt execution 0 (block_count (length output))) seed output,
          )
      filled =
          unfold generator_fill in
          rw (
            lt→ltb (length output + 15) (2 ^ 64) (omega arith),
            generator_fill,
            length-derivers salt execution 0 (block_count (length output)),
            ltb-false (block_count (length output)) (block_count (length output)) (omega arith),
          )

  stream_extends :
      (salt : List U8) (execution : ℕ) (seed : List U8) (i m k : ℕ)
      → stream salt execution seed i (m + k)
        ≡ stream salt execution seed i m ++ stream salt execution seed (i + m) k
  stream_extends salt execution seed i zero k =
      ap₂ (stream salt execution seed) {x = i} {y = i + 0} {u = 0 + k} {v = k} (omega arith)
        (omega arith)
  stream_extends salt execution seed i (suc m) k =
      ap (stream salt execution seed i) {x = suc m + k} {y = suc (m + k)} (omega arith)
      ∙ ap (◌++◌ block) (stream_extends salt execution seed (i + 1) m k)
      ∙ sym (append_assoc block (stream salt execution seed (i + 1) m) _)
      ∙ ap (λ j. (block ++ stream salt execution seed (i + 1) m) ++ stream salt execution seed j k)
          {x = i + 1 + m} {y = i + suc m} (omega arith)
    where
      block : List U8
      block = derive (new_deriver (tweak_salt salt prg_selector execution i)) seed

  -- For a seed of 16 bytes, a shorter output gets a prefix of what a longer one gets, if the longer
  -- one is within the 16-bit block index and salt, execution and seed are the same.
  pub fill_prefix :
      (salt : List U8) (execution : ℕ) (seed short long : List U8)
      → length seed ≡ 16
      → length short ≤ length long
      → block_count (length long) ≤ 2 ^ 16
      → (fill salt execution seed short).1 ≡ take (length short) (fill salt execution seed long).1
  fill_prefix salt execution seed short long e shorter h =
      ap (λ r. r.1) (fill-stream salt execution seed short e (omega arith))
      ∙ sym (
          take_within (length short) head tail
            (omega (arith, length-stream salt execution seed 0 m e)))
      ∙ ap (take (length short)) (sym longer)
      ∙ sym (take-take (length short) (length long) _ shorter)
      ∙ ap (λ r. take (length short) r.1) (sym (fill-stream salt execution seed long e h))
    where
      m : ℕ
      m = block_count (length short)

      k : ℕ
      k = block_count (length long) - m

      head : List U8
      head = stream salt execution seed 0 m

      tail : List U8
      tail = stream salt execution seed (0 + m) k

      longer : stream salt execution seed 0 (block_count (length long)) ≡ head ++ tail
      longer =
          ap (stream salt execution seed 0) {x = block_count (length long)} {y = m + k}
            (omega arith)
          ∙ stream_extends salt execution seed 0 m k

  -- An output beyond the 16-bit block index is refused, and left as it was.
  pub fill-refuses :
      (salt : List U8) (execution : ℕ) (seed output : List U8)
      → 2 ^ 16 < block_count (length output)
      → fill salt execution seed output ≡ (false, output)
  unfolding fill
  fill-refuses salt execution seed output h =
      rw (no_generator (Bool-cases (ltb (length output + 15) (2 ^ 64))), fill)
    where
      no_generator :
          (ltb (length output + 15) (2 ^ 64) ≡ true) ⊎ (ltb (length output + 15) (2 ^ 64) ≡ false)
          → new_generator salt execution (length output) ≡ none
      no_generator (inl e) =
          unfold new_generator in rw (e, lt→ltb (2 ^ 16) (block_count (length output)) h)
      no_generator (inr e) = unfold new_generator in rw e

  -- Within the block index the call succeeds and keeps the length of the output.
  pub fill_total :
      (salt : List U8) (execution : ℕ) (seed output : List U8)
      → length seed ≡ 16
      → block_count (length output) ≤ 2 ^ 16
      → (written : List U8) × (fill salt execution seed output ≡ (true, written))
        × (length written ≡ length output)
  fill_total salt execution seed output e h = (
    take (length output) (stream salt execution seed 0 (block_count (length output))),
    fill-stream salt execution seed output e h,
    length-take (length output) (stream salt execution seed 0 (block_count (length output)))
        ∙ omega (arith, length-stream salt execution seed 0 (block_count (length output)) e),
  )
