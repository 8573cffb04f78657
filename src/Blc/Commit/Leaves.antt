-- ===== src/Blc/Commit/Leaves.antt =====
-- The loop of `commit` over the leaves succeeds on seeds of 16 bytes.
use mqom_rs.Base.{
  ℕ, zero, suc, ◌+◌, ◌*◌, ◌<◌, ◌≡◌, refl, sym, ap, ◌∙◌, arith, U8, some, List, ◌++◌, length, take,
  drop, true, length-append, length-take, length-drop, get_or-drop,
}
use mqom_rs.Bytes.{filled, length-filled, write_at, length-write_at}
use mqom_rs.Params.{nb_evals, seed_size}
use mqom_rs.Crates.{Crates}
use mqom_rs.Blc.{zero_seed, leaf_offset}
use mqom_rs.Blc.Tree.{fully_expand_tree}
use mqom_rs.Blc.Tree.Node.{length-tree_node}
use mqom_rs.Blc.Tree.Full.{fully_expand_tree-Agrees, length-fully_expand_tree}
use mqom_rs.Prg.{Generator, new_generator, generator_fill, fill}
use mqom_rs.Prg.Stream.{new_generator_lem, fill_total, derivers, block_count}
use mqom_rs.Field.Packing.{zero_byte}
use mqom_rs.Blc.{expanded_leaf_size, leaf_prg_size}
use mqom_rs.Blc.Tree.{Nodes, node, chunks}
use mqom_rs.Blc.Commit.{expand_leaf}

-- All seeds of a list have 16 bytes.
abbrev pub AllSeeds : Nodes → Type 0
AllSeeds seeds = (j : ℕ) → j < length seeds → length (node seeds j) ≡ 16

pub length-chunks : (size left : ℕ) (bytes : List U8) → length (chunks size left bytes) ≡ left
unfolding chunks
length-chunks size zero bytes = refl
length-chunks size (suc left) bytes = ap suc (length-chunks size left (drop size bytes))

pub chunks-AllSeeds :
    (left : ℕ) (bytes : List U8) → length bytes ≡ left * 16 → AllSeeds (chunks 16 left bytes)
unfolding chunks
chunks-AllSeeds zero bytes e j lt = absurd (omega arith)
chunks-AllSeeds (suc left) bytes e zero lt = omega (arith, length-take 16 bytes)
chunks-AllSeeds (suc left) bytes e (suc j) lt =
    chunks-AllSeeds left (drop 16 bytes) (omega (arith, length-drop 16 bytes)) j (omega arith)

module _ ⦃c : Crates⦄ where
  -- A generator made for 28 bytes fills 28 bytes.
  pub generator_total :
      (salt : List U8) (execution : ℕ)
      → (generator : Generator) × (new_generator salt execution leaf_prg_size ≡ some generator)
        × ((seed output : List U8)
            → length seed ≡ 16
            → length output ≡ leaf_prg_size
            → (written : List U8) × (generator_fill generator seed output ≡ (true, written))
              × (length written ≡ leaf_prg_size))
  unfolding fill
  generator_total salt execution = (
    record { blocks = derivers salt execution 0 (block_count 28) },
    new_generator_lem salt execution 28 (omega arith),
    λ seed output e f.
        let (written, run, size) = fill_total salt execution seed output e (omega arith) in
        (written, sym (filled_by seed output f) ∙ run, size ∙ f),
  )
    where
      filled_by :
          (seed output : List U8)
          → length output ≡ 28
          → fill salt execution seed output
            ≡ generator_fill
                (record { blocks = derivers salt execution 0 (block_count 28) })
                seed
                output
      filled_by seed output f = rw (f, fill, new_generator_lem salt execution 28 (omega arith))

  -- What a generator needs to do for leaves.
  abbrev pub Fills : Generator → Type 0
  Fills generator =
      (seed output : List U8)
      → length seed ≡ 16
      → length output ≡ leaf_prg_size
      → (written : List U8) × (generator_fill generator seed output ≡ (true, written))
        × (length written ≡ leaf_prg_size)

  pub expand_leaf_total :
      (generator : Generator) (leaf_seed : List U8)
      → Fills generator
      → length leaf_seed ≡ 16
      → (expanded : List U8) × (expand_leaf generator leaf_seed ≡ some expanded)
        × (length expanded ≡ expanded_leaf_size)
  unfolding expand_leaf
  expand_leaf_total generator leaf_seed fills e =
      let blank = write_at (filled expanded_leaf_size zero_byte) 0 leaf_seed in
      let size : length blank ≡ expanded_leaf_size =
        length-write_at (filled expanded_leaf_size zero_byte) 0 leaf_seed
          (omega (arith, e, length-filled expanded_leaf_size zero_byte))
        ∙ length-filled expanded_leaf_size zero_byte in
      let (written, run, n) =
        fills leaf_seed (drop seed_size blank) e
          (omega (arith, size, length-drop seed_size blank)) in
      (
        take seed_size blank ++ written,
        rw (run, expand_leaf),
        omega (
          arith,
          n,
          size,
          length-append (take seed_size blank) written,
          length-take seed_size blank,
        ),
      )

  -- The leaves of a full tree.
  pub leaves_lem :
      (salt root_seed delta : List U8) (execution : ℕ)
      → length root_seed ≡ 16
      → length delta ≡ 16
      → let leaves = drop leaf_offset (fully_expand_tree salt root_seed delta execution) in
        (length leaves ≡ nb_evals) × AllSeeds leaves
  leaves_lem salt root_seed delta execution e f = (
    count,
    λ j lt.
        ap length (
          get_or-drop leaf_offset tree j zero_seed
          ∙ fully_expand_tree-Agrees salt root_seed delta execution (leaf_offset + j) (omega arith)
              (omega (arith, lt, count)))
        ∙ length-tree_node salt root_seed delta execution e f 11 (leaf_offset + j),
  )
    where
      tree : Nodes
      tree = fully_expand_tree salt root_seed delta execution

      count : length (drop leaf_offset tree) ≡ nb_evals
      count = omega (
        arith,
        length-drop leaf_offset tree,
        length-fully_expand_tree salt root_seed delta execution,
      )
