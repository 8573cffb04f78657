-- ===== src/Blc/Line/Seeds.antt =====
-- The seed part of the accumulator of `commit` is `delta`: the leaves of a tree add up to it.
use mqom_rs.Base.{
  ℕ, suc, ◌+◌, ◌<◌, ◌≡◌, refl, sym, ap, ap₂, ◌∙◌, arith, U8, some, List, [], ◌∷◌, ◌++◌, length,
  take, drop, length-take, length-drop, length-append, get_or-drop, guard-eq-some, some_inj,
}
use mqom_rs.Bytes.{
  filled, length-filled, xor_zip, length-xor_zip, xor_zip_comm, xor_zip_assoc, take-xor_zip,
  write_at,
}
use mqom_rs.Params.{nb_evals, seed_size}
use mqom_rs.Crates.{Crates}
use mqom_rs.Prg.{Generator, generator_fill}
use mqom_rs.Field.Packing.{zero_byte}
use mqom_rs.Bytes.Slices.{take_exactly}
use mqom_rs.Keygen.Generate.{write_first}
use mqom_rs.Blc.{expanded_leaf_size, zero_seed, leaf_offset}
use mqom_rs.Blc.Tree.{Nodes, node, SeedCommitter, fully_expand_tree}
use mqom_rs.Blc.Tree.Sum.{xor_range, xor_zip-zeros, leaves_sum}
use mqom_rs.Blc.Commit.{expand_leaf}
use mqom_rs.Blc.Commit.Leaves.{leaves_lem, AllSeeds, Fills}
use mqom_rs.Blc.Line.Rounds.{run_acc, expansions}
use mqom_rs.Blc.Line.Hidden.{zeros}
use mqom_rs.Blc.Line.Leaves.{expanded_of, expanded_of_lem, rounds_of}

-- The sum of the seeds of a list.
abbrev xor_all : Nodes → List U8
xor_all [] = zero_seed
xor_all (seed ∷ leaves) = xor_zip seed (xor_all leaves)

xor_all-xor_range :
    (leaves : Nodes) (lo : ℕ) (f : ℕ → List U8)
    → ((j : ℕ) → j < length leaves → node leaves j ≡ f (lo + j))
    → xor_all leaves ≡ xor_range lo (length leaves) f
xor_all-xor_range [] lo f same = refl
xor_all-xor_range (seed ∷ leaves) lo f same =
    ap₂ xor_zip (same 0 (omega arith) ∙ ap f {x = lo + 0} {y = lo} (omega arith)) (
      xor_all-xor_range leaves (lo + 1) f
        λ j lt. same (suc j) (omega arith) ∙ ap f {x = lo + suc j} {y = lo + 1 + j} (omega arith))

length-xor_all : (leaves : Nodes) → AllSeeds leaves → length (xor_all leaves) ≡ 16
length-xor_all [] seeds = length-filled seed_size zero_byte
length-xor_all (seed ∷ leaves) seeds = length-xor_zip seed (xor_all leaves) ∙ seeds 0 (omega arith)

module _ ⦃c : Crates⦄ where
  -- An expanded leaf begins with the leaf.
  take-expand_leaf :
      (generator : Generator) (seed expanded : List U8)
      → length seed ≡ 16
      → expand_leaf generator seed ≡ some expanded
      → take seed_size expanded ≡ seed
  unfolding expand_leaf
  take-expand_leaf generator seed expanded e run =
      let (written, found) = guard-eq-some _ _ run in
      ap (take seed_size) (sym (some_inj found))
      ∙ take_exactly seed_size (take seed_size blank) tail
          (omega (arith, length-take seed_size blank, blank_size))
      ∙ ap (take seed_size) first
      ∙ take_exactly seed_size seed _ e
    where
      blank : List U8
      blank = write_at (filled expanded_leaf_size zero_byte) 0 seed

      tail : List U8
      tail = (generator_fill generator seed (drop seed_size blank)).1

      first : blank ≡ seed ++ drop (length seed) (filled expanded_leaf_size zero_byte)
      first = write_first expanded_leaf_size seed (omega (arith, e))

      blank_size : length blank ≡ expanded_leaf_size
      blank_size =
          ap length first
          ∙ omega (
            arith,
            e,
            length-append seed (drop (length seed) (filled expanded_leaf_size zero_byte)),
            length-drop (length seed) (filled expanded_leaf_size zero_byte),
            length-filled expanded_leaf_size zero_byte,
          )

  module _ (committer : SeedCommitter) (generator : Generator) (fills : Fills generator) where
    seed_sum :
        (leaves : Nodes) (accumulator : List U8)
        → AllSeeds leaves
        → length accumulator ≡ expanded_leaf_size
        → take seed_size
            (run_acc (expansions (rounds_of committer generator fills leaves)) accumulator)
          ≡ xor_zip (take seed_size accumulator) (xor_all leaves)
    seed_sum [] accumulator seeds e = sym (
        xor_zip-zeros (take seed_size accumulator) seed_size
          (omega (arith, length-take seed_size accumulator, e)))
    seed_sum (seed ∷ leaves) accumulator seeds e =
        seed_sum leaves (xor_zip accumulator (expanded_of committer generator fills seed))
          (λ j lt. seeds (suc j) (omega arith)) (length-xor_zip accumulator _ ∙ e)
        ∙ ap (λ t. xor_zip t (xor_all leaves))
            (take-xor_zip seed_size accumulator (expanded_of committer generator fills seed)
              ∙ ap (xor_zip (take seed_size accumulator)) (
                  take-expand_leaf generator seed _ size
                    (expanded_of_lem committer generator fills seed size).0))
        ∙ xor_zip_assoc (take seed_size accumulator) seed (xor_all leaves)
            (size ∙ sym (length-xor_all leaves (λ j lt. seeds (suc j) (omega arith))))
      where
        size : length seed ≡ 16
        size = seeds 0 (omega arith)

    take-zeros : take seed_size zeros ≡ zero_seed
    unfolding filled
    take-zeros = refl

    pub accumulated_seeds :
        (salt root_seed delta : List U8) (execution : ℕ)
        → length root_seed ≡ 16
        → length delta ≡ 16
        → let leaves = drop leaf_offset (fully_expand_tree salt root_seed delta execution) in
          take seed_size (run_acc (expansions (rounds_of committer generator fills leaves)) zeros)
          ≡ delta
    accumulated_seeds salt root_seed delta execution e f =
        seed_sum leaves zeros laws.1 (length-filled expanded_leaf_size zero_byte)
        ∙ ap₂ xor_zip take-zeros (
            xor_all-xor_range leaves leaf_offset (node tree)
              (λ j lt. get_or-drop leaf_offset tree j zero_seed)
            ∙ ap (λ n. xor_range nb_evals n (node tree)) laws.0
            ∙ leaves_sum salt root_seed delta execution e f)
        ∙ xor_zip_comm zero_seed delta (length-filled seed_size zero_byte ∙ sym f)
        ∙ xor_zip-zeros delta seed_size f
      where
        tree : Nodes
        tree = fully_expand_tree salt root_seed delta execution

        leaves : Nodes
        leaves = drop leaf_offset tree

        laws : (length leaves ≡ nb_evals) × AllSeeds leaves
        laws = leaves_lem salt root_seed delta execution e f
