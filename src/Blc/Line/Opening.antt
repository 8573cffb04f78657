-- ===== src/Blc/Line/Opening.antt =====
-- One execution of `evaluate_opening` on an honest opening: it evaluates the committed line.
use mqom_rs.Base.{
  ℕ, ◌+◌, ◌*◌, ◌^◌, ◌<◌, ◌≡◌, sym, ap, ◌∙◌, arith, U8, some, List, ◌++◌, map, length, take, drop,
  slice, lt→ltb, length-take, length-drop,
}
use mqom_rs.Bytes.{filled, length-filled, xor_zip, length-xor_zip, xor_zip_cancel}
use mqom_rs.Params.{mq_n, eta, nb_evals, seed_size}
use mqom_rs.Crates.{Crates}
use mqom_rs.Xof.{squeeze}
use mqom_rs.Keygen.Generate.{unpack_secret}
use mqom_rs.Field.Packing.Laws.{halves, length-halves}
use mqom_rs.Field.Gf256x2.Element.{Gf256x2}
use mqom_rs.Field.Gf256x2.Element as Gf256x2
use mqom_rs.Field.Gf256x2.Laws.{gf256x2_ring}
use mqom_rs.Field.Gf256x2.Lift.{lift}
use mqom_rs.Mq.Vectors.{vadd, vscale, vadd_assoc, vadd_comm, vscale-vadd}
use mqom_rs.Blc.{commitment_size, base_vector_size, partial_delta_size, path_size_per_execution}
use mqom_rs.Blc.Gray.{gray, gray_code-some}
use mqom_rs.Blc.Tree.{node, commit_seed}
use mqom_rs.Blc.Fold.{LeafState, add_base, add_mask, point_of}
use mqom_rs.Blc.Fold.Total.{parse_extension_vector_total, xor_bytes_total}
use mqom_rs.Blc.Commit.{paths_size, partial_deltas_offset}
use mqom_rs.Blc.Evaluate.{Evaluated, evaluate_execution}
use mqom_rs.Verify.Line.{add_mask-vadd}
use mqom_rs.Blc.Line.Functional.{
  base_part, mask_part, base_part-IsLinear, mask_part-IsLinear, halves-xor, add_base-vadd,
}
use mqom_rs.Blc.Line.Folding.{fold_onto, length-fold_onto, add_folded-fold_onto}
use mqom_rs.Blc.Line.Rounds.{run_acc, Ran, expansions}
use mqom_rs.Blc.Line.Seeds.{accumulated_seeds}
use mqom_rs.Blc.Line.Adjusted.{adjusted_bytes}
use mqom_rs.Blc.Line.Execution.{
  Run, delta, delta_block, committer, made, leaves, rounds, start, honest, committed,
}
use mqom_rs.Blc.Line.Shown.{
  shown_rounds, shown, taken, taken_size, start-zeros, accumulators, sums, hash_lem, path, restored,
  evaluate_shown,
}

module _ ⦃c : Crates⦄ (run : Run) (h : ℕ) (in_range : h < nb_evals) where
  -- What the verifier's loop over the leaves returns.
  abbrev done : LeafState
  done = (shown run h in_range).0

  laws : Ran 0 (shown_rounds run h in_range) (start run) done
  laws = (shown run h in_range).2

  abbrev no_x : List Gf256x2
  no_x = filled mq_n Gf256x2.zero

  abbrev no_u : List Gf256x2
  no_u = filled eta Gf256x2.zero

  abbrev shown_x : List Gf256x2
  shown_x = fold_onto base_part done.folding 0 no_x

  abbrev shown_u : List Gf256x2
  shown_u = fold_onto mask_part done.folding 0 no_u

  abbrev base_bytes : List U8
  base_bytes = take base_vector_size done.accumulator

  abbrev adjusted : List U8
  adjusted =
      take seed_size base_bytes ++ xor_zip (drop seed_size base_bytes) (committed run).partial_delta

  adjusted_lem : adjusted ≡ xor_zip run.serialized (take base_vector_size (taken run h in_range))
  adjusted_lem =
      adjusted_bytes run.serialized (honest run).0.accumulator done.accumulator
        (taken run h in_range) run.serialized_size laws.0.0 (taken_size run h in_range)
        (accumulators run h in_range)
        (ap (take seed_size)
            ((honest run).2.2 ∙ ap (run_acc (expansions (rounds run))) (start-zeros run h in_range))
          ∙ accumulated_seeds (committer run) (made run).0 (made run).2 run.salt run.root_seed
              (delta run) run.execution run.root_block (delta_block run))

  adjusted_size : length adjusted ≡ 28
  adjusted_size =
      ap length adjusted_lem
      ∙ length-xor_zip run.serialized (take base_vector_size (taken run h in_range))
      ∙ run.serialized_size

  -- The point at which the line is evaluated.
  abbrev pub point : Gf256x2
  point = point_of (gray h)

  x_lem :
      add_base shown_x (halves adjusted) point
      ≡ vadd (committed run).x_zero (vscale point (map lift (halves run.serialized)))
  x_lem =
      add_base-vadd shown_x (halves adjusted) point (
        length-fold_onto base_part mq_n base_part-IsLinear done.folding 0 no_x laws.0.2
          (length-filled mq_n Gf256x2.zero)
        ∙ omega (arith, length-halves adjusted, adjusted_size))
      ∙ ap (λ b. vadd shown_x (vscale point (map lift (halves b)))) adjusted_lem
      ∙ ap (λ v. vadd shown_x (vscale point v))
          (halves-xor run.serialized (take base_vector_size (taken run h in_range)) (
            omega (
              arith,
              run.serialized_size,
              length-take base_vector_size (taken run h in_range),
              (taken_size run h in_range),
            )))
      ∙ ap (vadd shown_x) (
          vscale-vadd point secret (base_part (taken run h in_range))
          ∙ vadd_comm (vscale point secret) (vscale point (base_part (taken run h in_range))))
      ∙ sym (
          vadd_assoc shown_x (vscale point (base_part (taken run h in_range)))
            (vscale point secret))
      ∙ ap (λ v. vadd v (vscale point secret))
          (sym (
            sums run h in_range mq_n base_part no_x base_part-IsLinear
              (length-filled mq_n Gf256x2.zero)))
    where
      secret : List Gf256x2
      secret = map lift (halves run.serialized)

  u_lem :
      add_mask shown_u (mask_part done.accumulator) point
      ≡ vadd (committed run).u_zero (vscale point (committed run).u_one)
  u_lem =
      add_mask-vadd shown_u (mask_part done.accumulator) point (
        length-fold_onto mask_part eta mask_part-IsLinear done.folding 0 no_u laws.0.2
          (length-filled eta Gf256x2.zero)
        ∙ sym (mask_part-IsLinear.sized done.accumulator laws.0.0))
      ∙ ap (λ v. vadd shown_u (vscale point v)) without
      ∙ ap (vadd shown_u) (
          vscale-vadd point (mask_part (honest run).0.accumulator)
            (mask_part (taken run h in_range))
          ∙ vadd_comm (vscale point (mask_part (honest run).0.accumulator))
              (vscale point (mask_part (taken run h in_range))))
      ∙ sym (
          vadd_assoc shown_u (vscale point (mask_part (taken run h in_range)))
            (vscale point (mask_part (honest run).0.accumulator)))
      ∙ ap (λ v. vadd v (vscale point (mask_part (honest run).0.accumulator)))
          (sym (
            sums run h in_range eta mask_part no_u mask_part-IsLinear
              (length-filled eta Gf256x2.zero)))
    where
      without :
          mask_part done.accumulator
          ≡ vadd (mask_part (honest run).0.accumulator) (mask_part (taken run h in_range))
      without =
          ap mask_part (
            sym (xor_zip_cancel done.accumulator (taken run h in_range))
            ∙ ap (λ a. xor_zip a (taken run h in_range)) (sym (accumulators run h in_range)))
          ∙ mask_part-IsLinear.additive (honest run).0.accumulator (taken run h in_range)
              (honest run).2.0.0 (taken_size run h in_range)

  -- What `evaluate_opening` makes of the execution.
  abbrev evaluated : Evaluated
  evaluated = record {
    x = add_base shown_x (halves adjusted) point;
    u = add_mask shown_u (mask_part done.accumulator) point;
    leaf_commitment_hash = squeeze done.commitment_hash commitment_size;
  }

  -- The parts of the opening that belong to this execution.
  abbrev pub IsHonest : List U8 → Type 0
  IsHonest opening =
      (slice (run.execution * path_size_per_execution)
          (run.execution * path_size_per_execution + path_size_per_execution) opening
        ≡ (path run h in_range))
      × (slice (paths_size + run.execution * commitment_size)
            (paths_size + run.execution * commitment_size + commitment_size) opening
          ≡ commit_seed (committer run) (node (leaves run) h))
      × (slice (partial_deltas_offset + run.execution * partial_delta_size)
            (partial_deltas_offset + run.execution * partial_delta_size + partial_delta_size)
            opening
          ≡ (committed run).partial_delta)

  evaluate_lem :
      (opening : List U8)
      → IsHonest opening
      → evaluate_execution run.salt opening run.execution h ≡ some evaluated
  unfolding evaluate_execution
  evaluate_lem opening parts = rw (
    parts.0,
    evaluate_execution,
    parts.1,
    parts.2,
    lt→ltb run.execution (2 ^ 8) run.small,
    lt→ltb h nb_evals in_range,
    (restored run h in_range).1,
    (made run).1,
    (evaluate_shown run h in_range),
    add_folded-fold_onto done.folding 0 no_x no_u laws.0.2 (length-filled mq_n Gf256x2.zero)
        (length-filled eta Gf256x2.zero),
    gray_code-some h (omega arith),
    xor_bytes_total (drop seed_size base_bytes) (committed run).partial_delta partial_size,
    unpack_secret adjusted adjusted_size,
    parse_extension_vector_total eta (drop base_vector_size done.accumulator)
        (omega (arith, laws.0.0, length-drop base_vector_size done.accumulator)),
  )
    where
      partial_size : length (drop seed_size base_bytes) ≡ length (committed run).partial_delta
      partial_size = omega (
        arith,
        length-drop seed_size base_bytes,
        length-take base_vector_size done.accumulator,
        laws.0.0,
        length-drop seed_size run.serialized,
        run.serialized_size,
        length-xor_zip (drop seed_size run.serialized)
            (slice seed_size base_vector_size (honest run).0.accumulator),
      )

  -- On the parts of an honest opening, the execution is evaluated at the point of its hidden leaf on the
  -- committed line, and its leaves are hashed to what `commit` hashed.
  pub evaluate_execution-line :
      (opening : List U8)
      → IsHonest opening
      → (found : Evaluated) × (evaluate_execution run.salt opening run.execution h ≡ some found)
        × (found.leaf_commitment_hash ≡ (committed run).leaf_commitment_hash)
        × (found.x ≡ vadd (committed run).x_zero (vscale point (map lift (halves run.serialized))))
        × (found.u ≡ vadd (committed run).u_zero (vscale point (committed run).u_one))
  evaluate_execution-line opening parts = (
    evaluated,
    evaluate_lem opening parts,
    ap (λ s. squeeze s commitment_size) (hash_lem run h in_range),
    x_lem,
    u_lem,
  )
