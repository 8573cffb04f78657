-- ===== src/Blc/Line/All.antt =====
-- All executions on both sides: the loops of `commit` and `evaluate_opening`.
use mqom_rs.Base.{
  ℕ, zero, suc, ◌+◌, ◌≤◌, ◌<◌, ◌≡◌, refl, ap₂, arith, U8, some, List, [], ◌∷◌, map, length, take,
  get_or,
}
use mathlib.Core.Path.{subst}
use native.Mathlib.Bridge.{le_prop}
use native.Mathlib.Nat.{ℕ_set}
use mqom_rs.Params.{tau, nb_evals, seed_size}
use mqom_rs.Crates.{Crates}
use mqom_rs.Field.Packing.Laws.{halves}
use mqom_rs.Field.Gf256x2.Element.{Gf256x2}
use mqom_rs.Field.Gf256x2.Laws.{gf256x2_ring}
use mqom_rs.Field.Gf256x2.Lift.{lift}
use mqom_rs.Mq.Vectors.{vadd, vscale}
use mqom_rs.Blc.{base_vector_size}
use mqom_rs.Blc.Gray.{gray}
use mqom_rs.Blc.Fold.{point_of}
use mqom_rs.Blc.Tree.{Nodes, node}
use mqom_rs.Blc.Commit.{Committed, commit_executions}
use mqom_rs.Blc.Commit.Leaves.{AllSeeds}
use mqom_rs.Blc.Evaluate.{Evaluated, evaluate_executions}
use mqom_rs.Blc.Line.Execution.{run_at, committed, commit_execution_lem}
use mqom_rs.Blc.Line.Opening.{IsHonest, evaluate_execution-line}

-- The bounds of the first execution of a list, and of the others.
pub first_block :
    (root : List U8) (root_seeds : Nodes) → AllSeeds (root ∷ root_seeds) → length root ≡ 16
first_block root root_seeds seeds = seeds 0 (omega arith)

pub later_seeds :
    (root : List U8) (root_seeds : Nodes) → AllSeeds (root ∷ root_seeds) → AllSeeds root_seeds
later_seeds root root_seeds seeds j lt = seeds (suc j) (omega arith)

pub first_small : (execution count : ℕ) → execution + suc count ≤ tau → execution < 256
first_small execution count fits = omega arith

pub later_fits : (execution count : ℕ) → execution + suc count ≤ tau → execution + 1 + count ≤ tau
later_fits execution count fits = omega arith

module _ ⦃c : Crates⦄ where
  -- Each evaluation is that of the committed line at the point of the hidden leaf, and the hashes are
  -- those of `commit`.
  abbrev pub OnLines : List Gf256x2 → List ℕ → List Committed → List Evaluated → Type 0
  OnLines secret [] [] [] = Unit
  OnLines secret (h ∷ indices) (k ∷ all) (v ∷ found) =
      (v.leaf_commitment_hash ≡ k.leaf_commitment_hash)
      × (v.x ≡ vadd k.x_zero (vscale (point_of (gray h)) secret))
      × (v.u ≡ vadd k.u_zero (vscale (point_of (gray h)) k.u_one))
      × OnLines secret indices all found
  OnLines secret _ _ _ = ⊥

  module _ (salt serialized : List U8)
      (serialized_size : length serialized ≡ base_vector_size) where
    -- What `commit` keeps of the executions from `execution` on.
    abbrev pub committed_all :
        (execution : ℕ) (root_seeds : Nodes)
        → AllSeeds root_seeds
        → execution + length root_seeds ≤ tau
        → List Committed
    committed_all execution [] seeds fits = []
    committed_all execution (root ∷ root_seeds) seeds fits =
        committed (
          run_at salt serialized serialized_size root execution (first_block root root_seeds seeds)
            (first_small execution (length root_seeds) fits))
        ∷ committed_all (execution + 1) root_seeds (later_seeds root root_seeds seeds)
            (later_fits execution (length root_seeds) fits)

    pub commit_executions_lem :
        (execution : ℕ) (root_seeds : Nodes) (seeds : AllSeeds root_seeds)
        (fits : execution + length root_seeds ≤ tau)
        → commit_executions salt (take seed_size serialized) serialized execution root_seeds
          ≡ some (committed_all execution root_seeds seeds fits)
    unfolding commit_executions
    commit_executions_lem execution [] seeds fits = refl
    commit_executions_lem execution (root ∷ root_seeds) seeds fits = rw (
      commit_execution_lem (
          run_at salt serialized serialized_size root execution (first_block root root_seeds seeds)
            (first_small execution (length root_seeds) fits)),
      commit_executions,
      commit_executions_lem (execution + 1) root_seeds (later_seeds root root_seeds seeds)
          (later_fits execution (length root_seeds) fits),
    )

    -- What each execution adds, whatever the proofs of its bounds.
    pub committed_all-at :
        (execution : ℕ) (root_seeds : Nodes) (seeds : AllSeeds root_seeds)
        (fits : execution + length root_seeds ≤ tau) (j : ℕ)
        → j < length root_seeds
        → (block : length (node root_seeds j) ≡ 16) (small : execution + j < 256)
        → get_or
            (map
              (λ (k : Committed). k.partial_delta)
              (committed_all execution root_seeds seeds fits))
            j
            []
          ≡ (committed (
              run_at salt serialized serialized_size
                (node root_seeds j)
                (execution + j)
                block
                small)).partial_delta
    committed_all-at execution [] seeds fits j lt block = absurd (omega arith)
    committed_all-at execution (root ∷ root_seeds) seeds fits zero lt block =
        subst
          (λ n.
            (small : n < 256)
            → (committed (
                run_at salt serialized serialized_size root execution
                  (first_block root root_seeds seeds)
                  (first_small execution (length root_seeds) fits))).partial_delta
              ≡ (committed
                  (run_at salt serialized serialized_size root n block small)).partial_delta)
          {x = execution} {y = execution + 0} (omega arith)
          (λ small.
            ap₂
              (λ p q.
                (committed
                  (run_at salt serialized serialized_size root execution p q)).partial_delta)
              (ℕ_set _ _ _ _) (le_prop _ _))
    committed_all-at execution (root ∷ root_seeds) seeds fits (suc j) lt block =
        subst
          (λ n.
            (small : n < 256)
            → get_or
                (map (λ (k : Committed). k.partial_delta)
                  (committed_all execution (root ∷ root_seeds) seeds fits))
                (suc j) []
              ≡ (committed (
                  run_at salt serialized serialized_size (node root_seeds j) n block
                    small)).partial_delta)
          {x = execution + 1 + j} {y = execution + suc j} (omega arith)
          (committed_all-at (execution + 1) root_seeds (later_seeds root root_seeds seeds)
            (later_fits execution (length root_seeds) fits) j (omega arith) block)

    -- The opening holds the parts of every execution from `execution` on.
    abbrev pub AllHonest : ℕ → Nodes → List ℕ → List U8 → Type 0
    AllHonest execution root_seeds indices opening =
        (j : ℕ)
        → j < length root_seeds
        → (block : length (node root_seeds j) ≡ 16) → (small : execution + j < 256)
        → (in_range : get_or indices j 0 < nb_evals)
        → IsHonest
            (run_at salt serialized serialized_size (node root_seeds j) (execution + j) block small)
            (get_or indices j 0) in_range opening

    pub evaluate_executions_lem :
        (execution : ℕ) (root_seeds : Nodes) (seeds : AllSeeds root_seeds)
        (fits : execution + length root_seeds ≤ tau) (indices : List ℕ) (opening : List U8)
        → length indices ≡ length root_seeds
        → ((j : ℕ) → j < length indices → get_or indices j 0 < nb_evals)
        → AllHonest execution root_seeds indices opening
        → (found : List Evaluated) × (evaluate_executions salt opening execution indices
            ≡ some found)
          × OnLines
              (map lift (halves serialized))
              indices
              (committed_all execution root_seeds seeds fits)
              found
    unfolding evaluate_executions
    evaluate_executions_lem execution [] seeds fits [] opening size small honest = ([], refl, tt)
    evaluate_executions_lem execution [] seeds fits (h ∷ indices) opening size small honest =
        absurd (omega arith)
    evaluate_executions_lem execution (root ∷ root_seeds) seeds fits [] opening size small honest =
        absurd (omega arith)
    evaluate_executions_lem execution (root ∷ root_seeds) seeds fits (h ∷ indices) opening size
          small honest =
        let in_range : h < nb_evals = small 0 (omega arith) in
        let block = first_block root root_seeds seeds in
        let low = first_small execution (length root_seeds) fits in
        let this =
          subst
            (λ n.
              (low : n < 256)
              → IsHonest (run_at salt serialized serialized_size root n block low) h in_range
                  opening)
            {x = execution + 0} {y = execution} (omega arith)
            (λ below. honest 0 (omega arith) block below in_range) in
        let (evaluated, run, hash, x, u) =
          evaluate_execution-line (run_at salt serialized serialized_size root execution block low)
            h in_range opening (this low) in
        let (found, later, lines) =
          evaluate_executions_lem (execution + 1) root_seeds (later_seeds root root_seeds seeds)
            (later_fits execution (length root_seeds) fits) indices opening (omega arith)
            (λ j lt. small (suc j) (omega arith))
            (λ j lt b.
              subst
                (λ n.
                  (low : n < 256)
                  → (r : get_or indices j 0 < nb_evals)
                  → IsHonest (run_at salt serialized serialized_size (node root_seeds j) n b low)
                      (get_or indices j 0) r opening)
                {x = execution + suc j} {y = execution + 1 + j} (omega arith)
                (honest (suc j) (omega arith) b)) in
        (evaluated ∷ found, rw (run, evaluate_executions, later), (hash, x, u, lines))
