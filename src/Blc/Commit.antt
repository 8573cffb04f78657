-- ===== src/Blc/Commit.antt =====
-- `commit` and `SigningCommitment::open` of src/blc.rs. The arrays over the executions are filled in
-- order, so each is here the list of what the executions give.
pub mod Leaves
pub mod Total
pub mod Written
pub mod Opened
mod Tests
use mqom_rs.Base.{
  ℕ, zero, ◌+◌, ◌*◌, ◌^◌, U8, Option, none, some, List, [], ◌∷◌, ◌++◌, length, take, drop, slice,
  map, get_or, ltb, ◌==◌, ◌>>=◌, ◌>>◌, guard, if◌then◌else◌,
}
use mqom_rs.Bytes.{filled, xor_zip, write_at}
use mqom_rs.Params.{mq_n, eta, tau, nb_evals, seed_size, salt_size, opening_size}
use mqom_rs.Crates.{Crates}
use mqom_rs.Xof.{new_state, absorb, squeeze, absorb_all}
use mqom_rs.Prg.{Generator, new_generator, generator_fill, fill}
use mqom_rs.Mq.{domain}
use mqom_rs.Field.Packing.{zero_byte, pack_gf16}
use mqom_rs.Field.Gf16.Element.{Gf16}
use mqom_rs.Field.Gf256x2.Element.{Gf256x2}
use mqom_rs.Field.Gf256x2.Element as Gf256x2
use mqom_rs.Blc.{
  commitment_size, base_vector_size, expanded_leaf_size, leaf_prg_size, partial_delta_size,
  path_size_per_execution, leaf_offset,
}
use mqom_rs.Blc.Tree.{
  SeedCommitter, new_committer, commit_seed, fully_expand_tree, opening_path, chunks,
}
use mqom_rs.Blc.Fold.{LeafState, initial_state, fold_leaf, add_folded, parse_extension_vector}

abbrev pub paths_size : ℕ
paths_size = tau * path_size_per_execution

abbrev pub hidden_commitments_size : ℕ
hidden_commitments_size = tau * commitment_size

abbrev pub partial_deltas_offset : ℕ
partial_deltas_offset = paths_size + hidden_commitments_size

abbrev pub root_seeds_size : ℕ
root_seeds_size = tau * seed_size

-- `u8::try_from` on a `usize`.
abbrev pub u8_try_from : ℕ → Option ℕ
u8_try_from n = if ltb n (2 ^ 8) then some n else none

module _ ⦃c : Crates⦄ where
  -- `expanded`: the leaf seed, and what the generator makes of it.
  unfoldable pub expand_leaf : Generator → List U8 → Option (List U8)
  expand_leaf generator leaf_seed = do
    let expanded = write_at (filled expanded_leaf_size zero_byte) 0 leaf_seed
    let (written, tail) = generator_fill generator leaf_seed (drop seed_size expanded)
    guard written
    some (take seed_size expanded ++ tail)

  -- The loop over the leaves, from `leaf_index` on.
  unfoldable pub commit_leaves :
      SeedCommitter → Generator → ℕ → List (List U8) → LeafState → Option LeafState
  commit_leaves committer generator leaf_index [] state = some state
  commit_leaves committer generator leaf_index (leaf_seed ∷ leaves) state = do
    let hash = absorb state.commitment_hash (commit_seed committer leaf_seed)
    expanded ← expand_leaf generator leaf_seed
    folded ← fold_leaf leaf_index expanded hash state
    commit_leaves committer generator (leaf_index + 1) leaves folded

  -- What one execution adds to the arrays.
  pub record Committed : Type 0 where
    pub x_zero : List Gf256x2
    pub u_zero : List Gf256x2
    pub u_one : List Gf256x2
    pub partial_delta : List U8
    pub leaf_commitment_hash : List U8

  -- The body of the loop over the executions.
  unfoldable pub commit_execution : List U8 → List U8 → List U8 → ℕ → List U8 → Option Committed
  commit_execution salt delta serialized_secret execution root_seed = do
    execution_u8 ← u8_try_from execution
    let leaves = drop leaf_offset (fully_expand_tree salt root_seed delta execution_u8)
    guard (length leaves == nb_evals)
    let committer = new_committer salt execution_u8
    generator ← new_generator salt execution_u8 leaf_prg_size
    state ←
        commit_leaves committer generator 0 leaves (initial_state (absorb new_state (domain 0x06)))
    let hash = squeeze state.commitment_hash commitment_size
    folded ← add_folded state.folding 0 (filled mq_n Gf256x2.zero) (filled eta Gf256x2.zero)
    u_one ← parse_extension_vector eta (drop base_vector_size state.accumulator)
    some (record {
      x_zero = folded.0;
      u_zero = folded.1;
      u_one = u_one;
      partial_delta =
          xor_zip (drop seed_size serialized_secret)
            (slice seed_size base_vector_size state.accumulator);
      leaf_commitment_hash = hash;
    })

  -- The loop over the executions, over the root seeds.
  unfoldable pub commit_executions :
      List U8 → List U8 → List U8 → ℕ → List (List U8) → Option (List Committed)
  commit_executions salt delta serialized_secret execution [] = some []
  commit_executions salt delta serialized_secret execution (root_seed ∷ root_seeds) = do
    committed ← commit_execution salt delta serialized_secret execution root_seed
    rest ← commit_executions salt delta serialized_secret (execution + 1) root_seeds
    some (committed ∷ rest)

  pub record SigningCommitment : Type 0 where
    pub commitment : List U8
    pub x_zero : List (List Gf256x2)
    pub u_zero : List (List Gf256x2)
    pub u_one : List (List Gf256x2)
    pub salt : List U8
    pub delta : List U8
    pub root_seeds : List (List U8)
    pub partial_deltas : List (List U8)

  -- The hash over all executions, where `tail` is what follows the leaf hashes.
  unfoldable pub outer_hash : List (List U8) → List (List U8) → List U8
  outer_hash leaf_hashes tail =
      squeeze (absorb_all (absorb_all (absorb new_state (domain 0x07)) leaf_hashes) tail)
        commitment_size

  unfoldable pub commit : List U8 → List U8 → List Gf16 → Option SigningCommitment
  commit master_seed salt secret = do
    let (packed, serialized_secret) = pack_gf16 secret (filled base_vector_size zero_byte)
    guard packed
    let delta = take seed_size serialized_secret
    let (written, stream) =
        fill (filled salt_size zero_byte) 0 master_seed (filled root_seeds_size zero_byte)
    guard written
    let root_seeds = chunks seed_size tau stream
    executions ← commit_executions salt delta serialized_secret 0 root_seeds
    let partial_deltas = map (λ (e : Committed). e.partial_delta) executions
    some (record {
      commitment =
          outer_hash (map (λ (e : Committed). e.leaf_commitment_hash) executions) partial_deltas;
      x_zero = map (λ (e : Committed). e.x_zero) executions;
      u_zero = map (λ (e : Committed). e.u_zero) executions;
      u_one = map (λ (e : Committed). e.u_one) executions;
      salt = salt;
      delta = delta;
      root_seeds = root_seeds;
      partial_deltas = partial_deltas;
    })

  -- The loop of `open` from `execution` on, over the hidden indices.
  unfoldable pub open_loop : SigningCommitment → ℕ → List ℕ → List U8 → Option (List U8)
  open_loop self execution [] opening = some opening
  open_loop self execution (hidden_index ∷ rest) opening = do
    execution_u8 ← u8_try_from execution
    let path_offset = execution * path_size_per_execution
    opened ←
        opening_path self.salt (get_or self.root_seeds execution []) self.delta execution_u8
          hidden_index (slice path_offset (path_offset + path_size_per_execution) opening)
    let with_path = write_at opening path_offset opened.1
    let hidden_commitment = commit_seed (new_committer self.salt execution_u8) opened.0
    let commitment_offset = paths_size + execution * commitment_size
    let with_commitment = write_at with_path commitment_offset hidden_commitment
    let partial_delta_offset = partial_deltas_offset + execution * partial_delta_size
    open_loop self (execution + 1) rest
        (write_at with_commitment partial_delta_offset (get_or self.partial_deltas execution []))

  -- `SigningCommitment::open`.
  unfoldable pub open_commitment : SigningCommitment → List ℕ → Option (List U8)
  open_commitment self hidden_indices =
      open_loop self 0 hidden_indices (filled opening_size zero_byte)
