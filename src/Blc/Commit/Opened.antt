-- ===== src/Blc/Commit/Opened.antt =====
-- `SigningCommitment::open` on a commitment of the sizes of the profile: it succeeds, and each part of
-- the opening stands at its place.
use mqom_rs.Base.{
  ℕ, zero, suc, ◌+◌, ◌-◌, ◌*◌, ◌^◌, ◌≤◌, ◌<◌, ◌≡◌, inl, inr, refl, ◌∙◌, arith, U8, some, List, [],
  ◌∷◌, length, drop, slice, get_or, lt→ltb, length-take, length-drop,
}
use mathlib.Core.Path.{subst}
use native.Mathlib.Bridge.{le_prop}
use mqom_rs.Bytes.{filled, length-filled}
use mqom_rs.Params.{tau, nb_evals, opening_size}
use mqom_rs.Crates.{Crates}
use mqom_rs.Field.Packing.{zero_byte}
use mqom_rs.Blc.{commitment_size, partial_delta_size, path_size_per_execution}
use mqom_rs.Blc.Tree.Path.{opening_path_total}
use mqom_rs.Blc.Commit.{
  SigningCommitment, open_loop, open_commitment, paths_size, partial_deltas_offset,
}
use mqom_rs.Blc.Commit.Written.{
  IsBefore, later-IsBefore, IsSized, root, Written, with_all, with_all_size, keeps, written,
}

module _ ⦃c : Crates⦄ (self : SigningCommitment) (sized : IsSized self) where
  -- What the loop gives from `execution` on: the parts of its executions, and the rest as it was.
  abbrev Opened : ℕ → List ℕ → List U8 → List U8 → Type 0
  Opened execution indices before after =
      (length after ≡ opening_size)
      × ((a b : ℕ) → IsBefore execution a b → slice a b after ≡ slice a b before)
      × ((j : ℕ)
          → j < length indices
          → (lt : execution + j < tau)
          → Written self sized (execution + j) lt (get_or indices j 0) after)

  -- The parts of an execution lie before those of the next.
  kept :
      (k : ℕ) (lt : k < tau) (h : ℕ) (before after : List U8)
      → ((a b : ℕ) → IsBefore (k + 1) a b → slice a b after ≡ slice a b before)
      → Written self sized k lt h before
      → Written self sized k lt h after
  kept k lt h before after same (path, hidden, partial) = (
    same (k * path_size_per_execution) (k * path_size_per_execution + path_size_per_execution)
          (omega arith, inl (omega arith))
        ∙ path,
    same (paths_size + k * commitment_size) (paths_size + k * commitment_size + commitment_size)
          (omega arith, inr (inl (omega arith, omega arith)))
        ∙ hidden,
    same (partial_deltas_offset + k * partial_delta_size)
          (partial_deltas_offset + k * partial_delta_size + partial_delta_size)
          (omega arith, inr (inr (omega arith, omega arith)))
        ∙ partial,
  )

  combine :
      (execution : ℕ) (lt : execution < tau) (h : ℕ) (rest : List ℕ) (opening after : List U8)
      → length opening ≡ opening_size
      → Opened (execution + 1) rest (with_all self sized execution lt h opening) after
      → Opened execution (h ∷ rest) opening after
  combine execution lt h rest opening after size (end, same, parts) = (
    end,
    λ a b before.
        same a b (later-IsBefore execution a b before)
        ∙ keeps self sized execution lt h opening size a b before,
    each,
  )
    where
      first : (other : execution < tau) → Written self sized execution other h after
      first other =
          subst (λ p. Written self sized execution p h after) (le_prop lt other)
            (kept execution lt h (with_all self sized execution lt h opening) after same
              (written self sized execution lt h opening size))

      each :
          (j : ℕ)
          → j < length (h ∷ rest)
          → (below : execution + j < tau)
          → Written self sized (execution + j) below (get_or (h ∷ rest) j 0) after
      each zero inside =
          subst (λ k. (below : k < tau) → Written self sized k below h after) {x = execution}
            {y = execution + 0} (omega arith) first
      each (suc j) inside =
          subst (λ k. (below : k < tau) → Written self sized k below (get_or rest j 0) after)
            {x = execution + 1 + j} {y = execution + suc j} (omega arith) (parts j (omega arith))

  open_loop_lem :
      (execution : ℕ) (indices : List ℕ) (opening : List U8)
      → length opening ≡ opening_size
      → execution + length indices ≤ tau
      → ((j : ℕ) → j < length indices → get_or indices j 0 < nb_evals)
      → (after : List U8) × (open_loop self execution indices opening ≡ some after)
        × Opened execution indices opening after
  unfolding open_loop
  open_loop_lem execution [] opening size fits small =
      (opening, refl, (size, λ a b before. refl, λ j lt. absurd (omega arith)))
  open_loop_lem execution (h ∷ rest) opening size fits small =
      let lt : execution < tau = omega arith in
      let (after, run, done) =
        open_loop_lem (execution + 1) rest (with_all self sized execution lt h opening)
          (with_all_size self sized execution lt h opening size) (omega arith)
          (λ j below. small (suc j) (omega arith)) in
      (
        after,
        rw
            (
              lt→ltb execution (2 ^ 8) (omega arith),
              open_loop,
              opening_path_total self.salt (root self sized execution) self.delta execution
                  (sized.root_blocks execution lt) sized.delta_block h
                  (slice (execution * path_size_per_execution)
                    (execution * path_size_per_execution + path_size_per_execution) opening)
                  (small 0 (omega arith)) (slice_size execution lt opening size),
            )
            run,
        combine execution lt h rest opening after size done,
      )
    where
      slice_size :
          (k : ℕ)
          → k < tau
          → (before : List U8) → length before ≡ opening_size
          → length (
              slice
                (k * path_size_per_execution)
                (k * path_size_per_execution + path_size_per_execution)
                before)
            ≡ path_size_per_execution
      slice_size k lt before e = omega (
        arith,
        lt,
        e,
        length-take
            (k * path_size_per_execution + path_size_per_execution - k * path_size_per_execution)
            (drop (k * path_size_per_execution) before),
        length-drop (k * path_size_per_execution) before,
      )

  pub open_commitment_lem :
      (indices : List ℕ)
      → length indices ≡ tau
      → ((j : ℕ) → j < tau → get_or indices j 0 < nb_evals)
      → (opening : List U8) × (open_commitment self indices ≡ some opening)
        × (length opening ≡ opening_size)
        × ((k : ℕ) → (lt : k < tau) → Written self sized k lt (get_or indices k 0) opening)
  unfolding open_commitment
  open_commitment_lem indices size small =
      let (opening, run, done) =
        open_loop_lem 0 indices (filled opening_size zero_byte)
          (length-filled opening_size zero_byte) (omega arith) (λ j lt. small j (omega arith)) in
      (
        opening,
        run,
        done.0,
        λ k.
            subst (λ n. (lt : n < tau) → Written self sized n lt (get_or indices k 0) opening)
              {x = 0 + k} {y = k} (omega arith) (λ lt. done.2 k (omega (arith, lt, size)) lt),
      )
