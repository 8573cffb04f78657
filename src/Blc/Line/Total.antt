-- ===== src/Blc/Line/Total.antt =====
-- `commit`, `open` and `evaluate_opening` together: the verifier accepts an honest opening, and evaluates
-- the committed lines at the points of the hidden leaves.
use mqom_rs.Base.{
  ℕ, ◌<◌, ◌≡◌, sym, ap, ◌∙◌, arith, U8, some, List, [], ◌∷◌, map, length, drop, get_or, ==_iff,
  true, length-map,
}
use mqom_rs.Params.{tau, nb_evals, opening_size}
use mqom_rs.Crates.{Crates}
use mqom_rs.Field.Packing.Laws.{halves}
use mqom_rs.Field.Gf256x2.Laws.{gf256x2_ring}
use mqom_rs.Field.Gf256x2.Lift.{lift}
use mqom_rs.Blc.Commit.{Committed, open_commitment, outer_hash, partial_deltas_offset}
use mqom_rs.Blc.Commit.Written.{Written}
use mqom_rs.Blc.Commit.Opened.{open_commitment_lem}
use mqom_rs.Blc.Evaluate.{Evaluated, OpenedEvaluations, evaluate_opening}
use mqom_rs.Blc.Line.All.{evaluate_executions_lem}
use mqom_rs.Blc.Line.Lists.{x_lines, u_lines, outer_hash-drop, OnLines-maps, length-committed_all}
use mqom_rs.Blc.Line.Batch.{Batch, fits, all, self, self-IsSized, all_honest}

module _ ⦃c : Crates⦄ (batch : Batch) where
  -- The whole of `open` and `evaluate_opening`.
  pub opened_lem :
      (indices : List ℕ)
      → length indices ≡ tau
      → ((j : ℕ) → j < tau → get_or indices j 0 < nb_evals)
      → (opening : List U8) × (opened : OpenedEvaluations) × (open_commitment (self batch) indices
          ≡ some opening)
        × (length opening ≡ opening_size)
        × (evaluate_opening batch.salt (self batch).commitment opening indices ≡ some opened)
        × (opened.x ≡ x_lines (map lift (halves batch.serialized)) indices (self batch).x_zero)
        × (opened.u ≡ u_lines indices (self batch).u_zero (self batch).u_one)
  unfolding evaluate_opening
  opened_lem indices size small =
      let (opening, run, length_opening, written) =
        open_commitment_lem (self batch) (self-IsSized batch) indices size small in
      let (found, evaluates, lines) =
        evaluate_executions_lem batch.salt batch.serialized batch.serialized_size 0 batch.root_seeds
          batch.seeds (fits batch) indices opening (size ∙ sym batch.count)
          (λ j lt. small j (omega (arith, lt, size))) (all_honest batch indices opening written) in
      let (hashes, xs, us) =
        OnLines-maps (map lift (halves batch.serialized)) indices (all batch) found lines in
      (
        opening,
        record { x = map (λ (v : Evaluated). v.x) found; u = map (λ (v : Evaluated). v.u) found },
        run,
        length_opening,
        rw (
          (==_iff (length opening) opening_size).1 length_opening,
          evaluate_opening,
          evaluates,
          accepts opening found hashes length_opening written,
        ),
        xs,
        us,
      )
    where
      accepts :
          (opening : List U8) (found : List Evaluated)
          → map (λ (v : Evaluated). v.leaf_commitment_hash) found
            ≡ map (λ (k : Committed). k.leaf_commitment_hash) (all batch)
          → length opening ≡ opening_size
          → ((k : ℕ)
              → (lt : k < tau)
              → Written (self batch) (self-IsSized batch) k lt (get_or indices k 0) opening)
          → c.ct_eq
              (outer_hash
                (map (λ (v : Evaluated). v.leaf_commitment_hash) found)
                (drop partial_deltas_offset opening ∷ []))
              (self batch).commitment
            ≡ true
      accepts opening found hashes e written = (c.ct_eq_iff _ _).1 (
          ap (λ hs. outer_hash hs (drop partial_deltas_offset opening ∷ [])) hashes
          ∙ outer_hash-drop (map (λ (k : Committed). k.leaf_commitment_hash) (all batch))
              (self batch).partial_deltas opening
              (length-map _ (all batch)
                ∙ length-committed_all batch.salt batch.serialized batch.serialized_size 0
                    batch.root_seeds batch.seeds (fits batch)
                ∙ batch.count)
              e (λ j lt. (written j lt).2))
