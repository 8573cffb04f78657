-- ===== src/Blc/Commit/Written.antt =====
-- The parts of one execution in the opening that `SigningCommitment::open` writes: where each stands, and
-- what a round of the loop leaves of the others.
use mqom_rs.Base.{
  ℕ, ◌+◌, ◌*◌, ◌≤◌, ◌<◌, ◌≡◌, ◌⊎◌, inl, inr, ◌∙◌, arith, U8, List, [], length, slice, get_or,
}
use mqom_rs.Bytes.{filled, length-filled, write_at, length-write_at}
use mqom_rs.Bytes.Slices.{slice_same, slice_other}
use mqom_rs.Params.{tau, nb_evals, seed_size, opening_size}
use mqom_rs.Crates.{Crates}
use mqom_rs.Prg.{derive}
use mqom_rs.Prg.Stream.{length-derive}
use mqom_rs.Field.Packing.{zero_byte}
use mqom_rs.Blc.{commitment_size, partial_delta_size, path_size_per_execution}
use mqom_rs.Blc.Tree.{SeedCommitter, new_committer, commit_seed}
use mqom_rs.Blc.Tree.Node.{above, tree_node, length-tree_node}
use mqom_rs.Blc.Tree.Path.{path_to, length-path_to}
use mqom_rs.Blc.Commit.{SigningCommitment, paths_size, partial_deltas_offset}

-- What lies before the parts of the executions from `execution` on.
abbrev pub IsBefore : ℕ → ℕ → ℕ → Type 0
IsBefore execution a b =
    (a ≤ b)
    × ((b ≤ execution * 176)
        ⊎ ((2112 ≤ a) × (b ≤ 2112 + execution * 32))
        ⊎ ((2496 ≤ a) × (b ≤ 2496 + execution * 12)))

pub later-IsBefore : (k a b : ℕ) → IsBefore k a b → IsBefore (k + 1) a b
later-IsBefore k a b (le, inl p) = (le, inl (omega (arith, p)))
later-IsBefore k a b (le, inr (inl p)) = (le, inr (inl (p.0, omega (arith, p))))
later-IsBefore k a b (le, inr (inr p)) = (le, inr (inr (p.0, omega (arith, p))))

module _ ⦃c : Crates⦄ where
  length-commit_seed :
      (committer : SeedCommitter) (seed : List U8)
      → length seed ≡ 16
      → length (commit_seed committer seed) ≡ commitment_size
  unfolding commit_seed
  length-commit_seed committer seed e =
      length-write_at half seed_size (derive committer.second seed)
        (omega (arith, half_size, length-derive committer.second seed, e))
      ∙ half_size
    where
      half : List U8
      half = write_at (filled commitment_size zero_byte) 0 (derive committer.first seed)

      half_size : length half ≡ commitment_size
      half_size =
          length-write_at (filled commitment_size zero_byte) 0 (derive committer.first seed) (
            omega (
              arith,
              length-filled commitment_size zero_byte,
              length-derive committer.first seed,
              e,
            ))
          ∙ length-filled commitment_size zero_byte

  -- A commitment of the sizes of the profile.
  pub record IsSized (self : SigningCommitment) : Type 0 where
    pub delta_block : length self.delta ≡ 16
    pub root_blocks : (k : ℕ) → k < tau → length (get_or self.root_seeds k []) ≡ 16
    pub partial_sizes :
        (k : ℕ) → k < tau → length (get_or self.partial_deltas k []) ≡ partial_delta_size

  module _ (self : SigningCommitment) (sized : IsSized self) where
    abbrev pub root : ℕ → List U8
    root k = get_or self.root_seeds k []

    -- The hidden leaf of an execution.
    abbrev pub hidden_seed : ℕ → ℕ → List U8
    hidden_seed k h = tree_node self.salt (root k) self.delta k 11 (above (nb_evals + h) 0)

    abbrev pub path_of : (k : ℕ) → k < tau → ℕ → List U8
    path_of k lt h =
        path_to self.salt (root k) self.delta k (sized.root_blocks k lt) sized.delta_block
          (nb_evals + h) 0 11

    abbrev commitment_of : ℕ → ℕ → List U8
    commitment_of k h = commit_seed (new_committer self.salt k) (hidden_seed k h)

    -- The three parts of an execution.
    abbrev pub Written : (k : ℕ) → k < tau → ℕ → List U8 → Type 0
    Written k lt h opening =
        (slice (k * path_size_per_execution) (k * path_size_per_execution + path_size_per_execution)
            opening
          ≡ path_of k lt h)
        × (slice (paths_size + k * commitment_size)
              (paths_size + k * commitment_size + commitment_size) opening
            ≡ commitment_of k h)
        × (slice (partial_deltas_offset + k * partial_delta_size)
              (partial_deltas_offset + k * partial_delta_size + partial_delta_size) opening
            ≡ get_or self.partial_deltas k [])

    abbrev with_path : (k : ℕ) → k < tau → ℕ → List U8 → List U8
    with_path k lt h opening = write_at opening (k * path_size_per_execution) (path_of k lt h)

    abbrev with_commitment : (k : ℕ) → k < tau → ℕ → List U8 → List U8
    with_commitment k lt h opening =
        write_at (with_path k lt h opening) (paths_size + k * commitment_size) (commitment_of k h)

    abbrev pub with_all : (k : ℕ) → k < tau → ℕ → List U8 → List U8
    with_all k lt h opening =
        write_at (with_commitment k lt h opening) (partial_deltas_offset + k * partial_delta_size)
          (get_or self.partial_deltas k [])

    module _ (k : ℕ) (lt : k < tau) (h : ℕ) (opening : List U8)
        (size : length opening ≡ opening_size) where
      path_size : length (path_of k lt h) ≡ 176
      path_size =
          length-path_to self.salt (root k) self.delta k (sized.root_blocks k lt) sized.delta_block
            (nb_evals + h) 0 11

      hidden_size : length (commitment_of k h) ≡ 32
      hidden_size = length-commit_seed (new_committer self.salt k) (hidden_seed k h) (
          length-tree_node self.salt (root k) self.delta k (sized.root_blocks k lt)
            sized.delta_block 11 (above (nb_evals + h) 0))

      path_fits : k * path_size_per_execution + length (path_of k lt h) ≤ length opening
      path_fits = omega (arith, lt, size, path_size)

      size₁ : length (with_path k lt h opening) ≡ opening_size
      size₁ =
          length-write_at opening (k * path_size_per_execution) (path_of k lt h) path_fits ∙ size

      hidden_fits :
          paths_size + k * commitment_size + length (commitment_of k h)
          ≤ length (with_path k lt h opening)
      hidden_fits = omega (arith, lt, size₁, hidden_size)

      size₂ : length (with_commitment k lt h opening) ≡ opening_size
      size₂ =
          length-write_at (with_path k lt h opening) (paths_size + k * commitment_size)
            (commitment_of k h) hidden_fits
          ∙ size₁

      partial_fits :
          partial_deltas_offset + k * partial_delta_size + length (get_or self.partial_deltas k [])
          ≤ length (with_commitment k lt h opening)
      partial_fits = omega (arith, lt, size₂, sized.partial_sizes k lt)

      pub with_all_size : length (with_all k lt h opening) ≡ opening_size
      with_all_size =
          length-write_at (with_commitment k lt h opening)
            (partial_deltas_offset + k * partial_delta_size) (get_or self.partial_deltas k [])
            partial_fits
          ∙ size₂

      -- A slice that lies before the parts of this execution is kept.
      pub keeps :
          (a b : ℕ) → IsBefore k a b → slice a b (with_all k lt h opening) ≡ slice a b opening
      keeps a b (le, place) =
          slice_other (with_commitment k lt h opening) (get_or self.partial_deltas k [])
            (partial_deltas_offset + k * partial_delta_size) partial_fits a b le
            (past_partial place)
          ∙ slice_other (with_path k lt h opening) (commitment_of k h)
              (paths_size + k * commitment_size) hidden_fits a b le (past_hidden place)
          ∙ slice_other opening (path_of k lt h) (k * path_size_per_execution) path_fits a b le
              (past_path place)
        where
          past_path :
              (b ≤ k * 176)
                ⊎ ((2112 ≤ a) × (b ≤ 2112 + k * 32))
                ⊎ ((2496 ≤ a) × (b ≤ 2496 + k * 12))
              → (b ≤ k * path_size_per_execution)
                ⊎ (k * path_size_per_execution + length (path_of k lt h) ≤ a)
          past_path (inl p) = inl (omega (arith, p))
          past_path (inr (inl p)) = inr (omega (arith, p, path_size, lt))
          past_path (inr (inr p)) = inr (omega (arith, p, path_size, lt))

          past_hidden :
              (b ≤ k * 176)
                ⊎ ((2112 ≤ a) × (b ≤ 2112 + k * 32))
                ⊎ ((2496 ≤ a) × (b ≤ 2496 + k * 12))
              → (b ≤ paths_size + k * commitment_size)
                ⊎ (paths_size + k * commitment_size + length (commitment_of k h) ≤ a)
          past_hidden (inl p) = inl (omega (arith, p, lt))
          past_hidden (inr (inl p)) = inl (omega (arith, p))
          past_hidden (inr (inr p)) = inr (omega (arith, p, hidden_size, lt))

          past_partial :
              (b ≤ k * 176)
                ⊎ ((2112 ≤ a) × (b ≤ 2112 + k * 32))
                ⊎ ((2496 ≤ a) × (b ≤ 2496 + k * 12))
              → (b ≤ partial_deltas_offset + k * partial_delta_size)
                ⊎ (partial_deltas_offset
                      + k * partial_delta_size
                      + length (get_or self.partial_deltas k [])
                    ≤ a)
          past_partial (inl p) = inl (omega (arith, p, lt))
          past_partial (inr (inl p)) = inl (omega (arith, p, lt))
          past_partial (inr (inr p)) = inl (omega (arith, p))

      pub written : Written k lt h (with_all k lt h opening)
      written = (
        slice_other (with_commitment k lt h opening) (get_or self.partial_deltas k [])
              (partial_deltas_offset + k * partial_delta_size) partial_fits
              (k * path_size_per_execution) (k * path_size_per_execution + path_size_per_execution)
              (omega arith) (inl (omega (arith, lt)))
            ∙ slice_other (with_path k lt h opening) (commitment_of k h)
                (paths_size + k * commitment_size) hidden_fits (k * path_size_per_execution)
                (k * path_size_per_execution + path_size_per_execution) (omega arith)
                (inl (omega (arith, lt)))
            ∙ slice_same opening (path_of k lt h) (k * path_size_per_execution) path_fits
                path_size_per_execution path_size,
        slice_other (with_commitment k lt h opening) (get_or self.partial_deltas k [])
              (partial_deltas_offset + k * partial_delta_size) partial_fits
              (paths_size + k * commitment_size)
              (paths_size + k * commitment_size + commitment_size) (omega arith)
              (inl (omega (arith, lt)))
            ∙ slice_same (with_path k lt h opening) (commitment_of k h)
                (paths_size + k * commitment_size) hidden_fits commitment_size hidden_size,
        slice_same (with_commitment k lt h opening) (get_or self.partial_deltas k [])
            (partial_deltas_offset + k * partial_delta_size) partial_fits partial_delta_size
            (sized.partial_sizes k lt),
      )
