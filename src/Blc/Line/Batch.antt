-- ===== src/Blc/Line/Batch.antt =====
-- The executions of a commitment together: what `commit` returns, and that `open` writes the parts of an
-- honest opening of each.
use mqom_rs.Base.{
  ℕ, zero, suc, ◌+◌, ◌≤◌, ◌<◌, ◌≡◌, refl, sym, ap, ◌∙◌, arith, U8, List, [], ◌∷◌, map, length, take,
  drop, get_or, length-map, length-take, length-drop,
}
use mathlib.Core.Path.{subst}
use mqom_rs.Bytes.{length-xor_zip}
use mqom_rs.Params.{tau, nb_evals, seed_size}
use mqom_rs.Crates.{Crates}
use mqom_rs.Xof.{length-squeeze}
use mqom_rs.Field.Gf256x2.Laws.{gf256x2_ring}
use mqom_rs.Blc.{base_vector_size, commitment_size}
use mqom_rs.Blc.Tree.{Nodes, node, commit_seed, new_committer}
use mqom_rs.Blc.Tree.Node.{above, tree_node}
use mqom_rs.Blc.Tree.Path.{path_to}
use mqom_rs.Blc.Tree.Opened.{opened_path}
use mqom_rs.Blc.Commit.{Committed, SigningCommitment, outer_hash}
use mqom_rs.Blc.Commit.Leaves.{AllSeeds}
use mqom_rs.Blc.Commit.Written.{IsSized, Written}
use mqom_rs.Blc.Line.Sizes.{IsLineSized, committed_all-sizes}
use mqom_rs.Blc.Line.Execution.{Run, run_at, committed, leaves, delta_block}
use mqom_rs.Blc.Line.Shown.{leaf_lem}
use mqom_rs.Blc.Line.Opening.{IsHonest}
use mqom_rs.Blc.Line.All.{committed_all, committed_all-at, AllHonest}
use mqom_rs.Blc.Line.Lists.{length-committed_all}

-- What `commit` expands: the executions, with the sizes of the profile.
pub record Batch : Type 0 where
  pub salt : List U8
  pub serialized : List U8
  pub root_seeds : Nodes
  pub serialized_size : length serialized ≡ base_vector_size
  pub seeds : AllSeeds root_seeds
  pub count : length root_seeds ≡ tau

module _ ⦃c : Crates⦄ (batch : Batch) where
  pub fits : 0 + length batch.root_seeds ≤ tau
  fits = omega (arith, batch.count)

  abbrev pub all : List Committed
  all =
      committed_all batch.salt batch.serialized batch.serialized_size 0 batch.root_seeds batch.seeds
        fits

  abbrev pub self : SigningCommitment
  self =
      let partial_deltas = map (λ (k : Committed). k.partial_delta) all in
      record {
        commitment =
            outer_hash (map (λ (k : Committed). k.leaf_commitment_hash) all) partial_deltas;
        x_zero = map (λ (k : Committed). k.x_zero) all;
        u_zero = map (λ (k : Committed). k.u_zero) all;
        u_one = map (λ (k : Committed). k.u_one) all;
        salt = batch.salt;
        delta = take seed_size batch.serialized;
        root_seeds = batch.root_seeds;
        partial_deltas = partial_deltas;
      }

  pub self-IsLineSized : IsLineSized self
  unfolding outer_hash
  self-IsLineSized =
      let count_all : length all ≡ tau =
        length-committed_all batch.salt batch.serialized batch.serialized_size 0 batch.root_seeds
          batch.seeds fits
        ∙ batch.count in
      let (x, z, o) =
        committed_all-sizes batch.salt batch.serialized batch.serialized_size 0 batch.root_seeds
          batch.seeds fits in
      (
        length-map (λ (k : Committed). k.x_zero) all ∙ count_all,
        length-map (λ (k : Committed). k.u_zero) all ∙ count_all,
        length-map (λ (k : Committed). k.u_one) all ∙ count_all,
        x,
        z,
        o,
        length-squeeze _ commitment_size,
        batch.count,
        length-map (λ (k : Committed). k.partial_delta) all ∙ count_all,
      )

  -- The execution at a place.
  abbrev run_of : (k execution : ℕ) → length (node batch.root_seeds k) ≡ 16 → execution < 256 → Run
  run_of k execution block small =
      run_at batch.salt batch.serialized batch.serialized_size (node batch.root_seeds k) execution
        block small

  -- A read in range does not depend on the default.
  root_lem : (roots : Nodes) (k : ℕ) → k < length roots → get_or roots k [] ≡ node roots k
  root_lem [] k lt = absurd (omega arith)
  root_lem (s ∷ rest) zero lt = refl
  root_lem (s ∷ rest) (suc k) lt = root_lem rest k (omega arith)

  partial_lem :
      (k : ℕ)
      → k < tau
      → (block : length (node batch.root_seeds k) ≡ 16) (small : 0 + k < 256)
      → get_or self.partial_deltas k [] ≡ (committed (run_of k (0 + k) block small)).partial_delta
  partial_lem k lt block small =
      committed_all-at batch.salt batch.serialized batch.serialized_size 0 batch.root_seeds
        batch.seeds fits k (omega (arith, lt, batch.count)) block small

  pub self-IsSized : IsSized self
  self-IsSized = record {
    delta_block = omega (arith, length-take seed_size batch.serialized, batch.serialized_size);
    root_blocks = λ k lt.
        ap length (root_lem batch.root_seeds k (omega (arith, lt, batch.count)))
        ∙ batch.seeds k (omega (arith, lt, batch.count));
    partial_sizes = λ k lt.
        ap length
          (partial_lem k lt (batch.seeds k (omega (arith, lt, batch.count))) (omega (arith, lt)))
        ∙ length-xor_zip (drop seed_size batch.serialized) _
        ∙ omega (arith, length-drop seed_size batch.serialized, batch.serialized_size);
  }

  same_root : (k : ℕ) → k < tau → get_or batch.root_seeds k [] ≡ node batch.root_seeds k
  same_root k lt = root_lem batch.root_seeds k (omega (arith, lt, batch.count))

  path_lem :
      (k : ℕ) (lt : k < tau) (block : length (node batch.root_seeds k) ≡ 16) (low : k < 256) (h : ℕ)
      (in_range : h < nb_evals)
      → path_to batch.salt
          (get_or batch.root_seeds k [])
          (take seed_size batch.serialized)
          k
          (self-IsSized.root_blocks k lt)
          self-IsSized.delta_block
          (nb_evals + h)
          0
          11
        ≡ opened_path batch.salt
            (node batch.root_seeds k)
            (take seed_size batch.serialized)
            k
            block
            (delta_block (run_of k k block low))
            h
            in_range
  path_lem k lt block low h in_range =
      subst
        (λ (r : List U8).
          (b : length r ≡ 16)
          → path_to batch.salt (get_or batch.root_seeds k []) (take seed_size batch.serialized) k
              (self-IsSized.root_blocks k lt) self-IsSized.delta_block (nb_evals + h) 0 11
            ≡ opened_path batch.salt r (take seed_size batch.serialized) k b
                (delta_block (run_at batch.salt batch.serialized batch.serialized_size r k b low)) h
                in_range)
        (same_root k lt) (λ b. refl) block

  hidden_lem :
      (k : ℕ) (lt : k < tau) (block : length (node batch.root_seeds k) ≡ 16) (low : k < 256) (h : ℕ)
      (in_range : h < nb_evals)
      → commit_seed (new_committer batch.salt k) (
          tree_node batch.salt
            (get_or batch.root_seeds k [])
            (take seed_size batch.serialized)
            k
            11
            (above (nb_evals + h) 0))
        ≡ commit_seed (new_committer batch.salt k) (node (leaves (run_of k k block low)) h)
  hidden_lem k lt block low h in_range = ap (commit_seed (new_committer batch.salt k)) (
      ap
        (λ r.
          tree_node batch.salt r (take seed_size batch.serialized) k 11 (above (nb_evals + h) 0))
        (same_root k lt)
      ∙ ap (tree_node batch.salt (node batch.root_seeds k) (take seed_size batch.serialized) k 11)
          {x = above (nb_evals + h) 0} {y = nb_evals + h} (omega arith)
      ∙ sym (leaf_lem (run_of k k block low) h in_range h in_range))

  -- The parts that `open` writes are those of an honest opening.
  pub all_honest :
      (indices : List ℕ) (opening : List U8)
      → ((k : ℕ) → (lt : k < tau) → Written self self-IsSized k lt (get_or indices k 0) opening)
      → AllHonest batch.salt batch.serialized batch.serialized_size 0 batch.root_seeds indices
          opening
  all_honest indices opening written k inside block small in_range =
      let lt : k < tau = omega (arith, inside, batch.count) in
      subst
        (λ n.
          (low : n < 256)
          → get_or self.partial_deltas k [] ≡ (committed (run_of k n block low)).partial_delta
          → IsHonest (run_of k n block low) (get_or indices k 0) in_range opening)
        {x = k} {y = 0 + k} (omega arith)
        (λ low partial. (
          (written k lt).0 ∙ path_lem k lt block low (get_or indices k 0) in_range,
          (written k lt).1 ∙ hidden_lem k lt block low (get_or indices k 0) in_range,
          (written k lt).2 ∙ partial,
        ))
        small (partial_lem k lt block small)
