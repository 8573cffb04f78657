-- ===== src/Blc/Evaluate.antt =====
-- `evaluate_opening` of src/blc.rs. The arrays over the executions are filled in order, so each is
-- here the list of what the executions give.
use mqom_rs.Base.{
  ℕ, ◌+◌, ◌*◌, U8, Option, some, List, [], ◌∷◌, ◌++◌, length, take, drop, slice, map, ltb, ◌==◌,
  ◌>>=◌, ◌>>◌, guard, if◌then◌else◌,
}
use mqom_rs.Bytes.{filled}
use mqom_rs.Params.{mq_n, eta, nb_evals, seed_size, opening_size}
use mqom_rs.Crates.{Crates}
use mqom_rs.Xof.{new_state, absorb, squeeze}
use mqom_rs.Prg.{Generator, new_generator}
use mqom_rs.Mq.{domain}
use mqom_rs.Field.Packing.{zero_byte, unpack_gf16}
use mqom_rs.Field.Gf16.Element as Gf16
use mqom_rs.Field.Gf256x2.Element.{Gf256x2}
use mqom_rs.Field.Gf256x2.Element as Gf256x2
use mqom_rs.Blc.{
  commitment_size, base_vector_size, expanded_leaf_size, leaf_prg_size, partial_delta_size,
  path_size_per_execution,
}
use mqom_rs.Blc.Gray.{gray_code}
use mqom_rs.Blc.Tree.{SeedCommitter, new_committer, commit_seed, partially_expand_tree}
use mqom_rs.Blc.Fold.{
  LeafState, initial_state, fold_leaf, add_folded, parse_extension_vector, xor_bytes, add_base,
  add_mask, point_of,
}
use mqom_rs.Blc.Commit.{paths_size, partial_deltas_offset, u8_try_from, expand_leaf, outer_hash}

module _ ⦃c : Crates⦄ where
  -- What a round hashes and folds: the hidden leaf has only its commitment.
  unfoldable pub opened_leaf :
      SeedCommitter → Generator → List U8 → ℕ → ℕ → List U8 → Option (List U8 × List U8)
  opened_leaf committer generator hidden_commitment hidden_index leaf_index leaf_seed = do
    expanded ←
        if leaf_index == hidden_index
        then some (filled expanded_leaf_size zero_byte)
        else expand_leaf generator leaf_seed
    let hashed =
        if leaf_index == hidden_index then hidden_commitment else commit_seed committer leaf_seed
    some (hashed, expanded)

  -- The loop over the leaves, from `leaf_index` on.
  unfoldable pub evaluate_leaves :
      SeedCommitter → Generator → List U8 → ℕ → ℕ → List (List U8) → LeafState → Option LeafState
  evaluate_leaves committer generator hidden_commitment hidden_index leaf_index [] state =
      some state
  evaluate_leaves committer generator hidden_commitment hidden_index leaf_index (leaf_seed ∷ leaves)
        state =
      do
        leaf ← opened_leaf committer generator hidden_commitment hidden_index leaf_index leaf_seed
        folded ← fold_leaf leaf_index leaf.1 (absorb state.commitment_hash leaf.0) state
        evaluate_leaves committer generator hidden_commitment hidden_index (leaf_index + 1) leaves
            folded

  -- What one execution adds to the arrays.
  pub record Evaluated : Type 0 where
    pub x : List Gf256x2
    pub u : List Gf256x2
    pub leaf_commitment_hash : List U8

  -- The body of the loop over the executions.
  unfoldable pub evaluate_execution : List U8 → List U8 → ℕ → ℕ → Option Evaluated
  evaluate_execution salt opening execution hidden_index = do
    execution_u8 ← u8_try_from execution
    guard (ltb hidden_index nb_evals)
    let path_offset = execution * path_size_per_execution
    let path = slice path_offset (path_offset + path_size_per_execution) opening
    leaves ← partially_expand_tree salt path execution_u8 hidden_index
    let hidden_commitment_offset = paths_size + execution * commitment_size
    let hidden_commitment =
        slice hidden_commitment_offset (hidden_commitment_offset + commitment_size) opening
    let partial_delta_offset = partial_deltas_offset + execution * partial_delta_size
    let partial_delta =
        slice partial_delta_offset (partial_delta_offset + partial_delta_size) opening
    let committer = new_committer salt execution_u8
    generator ← new_generator salt execution_u8 leaf_prg_size
    state ←
        evaluate_leaves committer generator hidden_commitment hidden_index 0 leaves
          (initial_state (absorb new_state (domain 0x06)))
    let hash = squeeze state.commitment_hash commitment_size
    folded ← add_folded state.folding 0 (filled mq_n Gf256x2.zero) (filled eta Gf256x2.zero)
    code ← gray_code hidden_index
    let evaluation_point = point_of code
    let base_bytes = take base_vector_size state.accumulator
    adjusted ← xor_bytes (drop seed_size base_bytes) partial_delta
    let (unpacked, adjusted_base_vector) =
        unpack_gf16 (take seed_size base_bytes ++ adjusted) (filled mq_n Gf16.zero)
    guard unpacked
    accumulated_mask ← parse_extension_vector eta (drop base_vector_size state.accumulator)
    some (record {
      x = add_base folded.0 adjusted_base_vector evaluation_point;
      u = add_mask folded.1 accumulated_mask evaluation_point;
      leaf_commitment_hash = hash;
    })

  -- The loop over the executions, over the hidden indices.
  unfoldable pub evaluate_executions : List U8 → List U8 → ℕ → List ℕ → Option (List Evaluated)
  evaluate_executions salt opening execution [] = some []
  evaluate_executions salt opening execution (hidden_index ∷ rest) = do
    evaluated ← evaluate_execution salt opening execution hidden_index
    later ← evaluate_executions salt opening (execution + 1) rest
    some (evaluated ∷ later)

  pub record OpenedEvaluations : Type 0 where
    pub x : List (List Gf256x2)
    pub u : List (List Gf256x2)

  unfoldable pub evaluate_opening : List U8 → List U8 → List U8 → List ℕ → Option OpenedEvaluations
  evaluate_opening salt expected_commitment opening hidden_indices = do
    guard (length opening == opening_size)
    executions ← evaluate_executions salt opening 0 hidden_indices
    let observed_commitment =
        outer_hash (map (λ (e : Evaluated). e.leaf_commitment_hash) executions)
          (drop partial_deltas_offset opening ∷ [])
    guard (c.ct_eq observed_commitment expected_commitment)
    some (record {
      x = map (λ (e : Evaluated). e.x) executions;
      u = map (λ (e : Evaluated). e.u) executions;
    })
