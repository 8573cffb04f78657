-- ===== src/Blc/Line/Shown.antt =====
-- The leaves that an honest opening shows: `evaluate_opening` runs over them as `commit` does, but for the
-- hidden one.
use mqom_rs.Base.{
  ℕ, ◌+◌, ◌<◌, ◌≡◌, ◌≢◌, refl, sym, ap, ap₂, ◌∙◌, arith, U8, some, List, [], length, get_or,
  length-map, get_or-drop,
}
use mathlib.Core.Path.{subst}
use mqom_rs.Bytes.{length-filled, xor_zip}
use mqom_rs.Params.{nb_evals}
use mqom_rs.Crates.{Crates}
use mqom_rs.Xof.{new_state, absorb, absorb_all}
use mqom_rs.Mq.{domain}
use mqom_rs.Field.Packing.{zero_byte}
use mqom_rs.Field.Gf256x2.Element.{Gf256x2}
use mqom_rs.Field.Gf256x2.Laws.{gf256x2_ring}
use mqom_rs.Mq.Vectors.{vadd, vscale}
use mqom_rs.Blc.{zero_seed, expanded_leaf_size, leaf_offset}
use mqom_rs.Blc.Gray.{gray}
use mqom_rs.Blc.Tree.{Nodes, node, commit_seed, fully_expand_tree, partially_expand_tree}
use mqom_rs.Blc.Tree.Node.{tree_node}
use mqom_rs.Blc.Tree.Full.{fully_expand_tree-Agrees}
use mqom_rs.Blc.Tree.Opened.{opened_path, partially_expand_tree_lem}
use mqom_rs.Blc.Fold.{LeafState, initial_state, point_of}
use mqom_rs.Blc.Fold.Total.{AllLeafSized, IsSized, initial_state-IsSized}
use mqom_rs.Blc.Evaluate.{evaluate_leaves}
use mqom_rs.Blc.Line.Functional.{IsLinear}
use mqom_rs.Blc.Line.Folding.{fold_onto, length-fold_onto}
use mqom_rs.Blc.Line.Rounds.{run_acc, run_sum, fold_rounds, Ran, fold_rounds_lem, expansions}
use mqom_rs.Blc.Line.Hidden.{zeros, hide, hide-sized, Differ, hide-Differ}
use mqom_rs.Blc.Line.Leaves.{
  hide_round, length-hide_round, hashes-hide_round, expansions-hide_round,
  evaluate_leaves-fold_rounds,
}
use mqom_rs.Blc.Line.Execution.{
  Run, delta, delta_block, committer, made, leaves, leaves_laws, rounds, length-rounds,
  rounds_sized, start, honest,
}

module _ ⦃c : Crates⦄ (run : Run) (h : ℕ) (in_range : h < nb_evals) where
  abbrev pub shown_rounds : List (List U8 × List U8)
  shown_rounds = hide_round 0 h (rounds run)

  shown_sizes : AllLeafSized (expansions shown_rounds)
  shown_sizes =
      subst AllLeafSized (sym (expansions-hide_round 0 h (rounds run)))
        (hide-sized 0 h (expansions (rounds run)) (rounds_sized run))

  pub shown :
      (done : LeafState) × (fold_rounds 0 shown_rounds (start run) ≡ some done)
      × Ran 0 shown_rounds (start run) done
  shown =
      fold_rounds_lem 0 shown_rounds (start run)
        (omega (arith, length-hide_round 0 h (rounds run), (length-rounds run))) shown_sizes
        (initial_state-IsSized (absorb new_state (domain 0x06)))

  -- What the hidden leaf expands to.
  abbrev pub taken : List U8
  taken = get_or (expansions (rounds run)) h []

  pub taken_size : length taken ≡ expanded_leaf_size
  taken_size = (rounds_sized run) h (
      omega (
        arith,
        in_range,
        length-map (λ (r : List U8 × List U8). r.1) (rounds run),
        (length-rounds run),
      ))

  runs :
      Differ h taken in_range taken_size 0
        (expansions (rounds run))
        (hide 0 h (expansions (rounds run)))
        zeros
  runs =
      hide-Differ h taken in_range taken_size 0 (expansions (rounds run)) zeros (omega arith)
        (omega
          (arith, length-map (λ (r : List U8 × List U8). r.1) (rounds run), (length-rounds run)))
        (rounds_sized run) (length-filled expanded_leaf_size zero_byte)
        (λ j lt same. ap (λ k. get_or (expansions (rounds run)) k []) {x = j} {y = h} (omega arith))

  pub start-zeros : (start run).accumulator ≡ zeros
  unfolding initial_state
  start-zeros = refl

  -- The accumulators differ by the hidden leaf.
  pub accumulators : (honest run).0.accumulator ≡ xor_zip shown.0.accumulator taken
  accumulators =
      (honest run).2.2
      ∙ ap (run_acc (expansions (rounds run))) start-zeros
      ∙ runs.0
      ∙ ap (λ a. xor_zip a taken)
          (sym (shown.2.2 ∙ ap₂ run_acc (expansions-hide_round 0 h (rounds run)) start-zeros))

  -- The sums over the basis differ by the hidden leaf times its point.
  pub sums :
      (n : ℕ) (part : List U8 → List Gf256x2) (x : List Gf256x2)
      → IsLinear n part
      → length x ≡ n
      → fold_onto part (honest run).0.folding 0 x
        ≡ vadd (fold_onto part shown.0.folding 0 x) (vscale (point_of (gray h)) (part taken))
  sums n part x linear e =
      (honest run).2.3 n part x linear
      ∙ ap (λ a. run_sum part 0 (expansions (rounds run)) a x0) start-zeros
      ∙ runs.1 n part x0 linear
          (length-fold_onto part n linear (start run).folding 0 x start_sized.2 e)
      ∙ ap (λ t. vadd t (vscale (point_of (gray h)) (part taken)))
          (sym (
            shown.2.3 n part x linear
            ∙ ap₂ (λ es a. run_sum part 0 es a x0) (expansions-hide_round 0 h (rounds run))
                start-zeros))
    where
      x0 : List Gf256x2
      x0 = fold_onto part (start run).folding 0 x

      start_sized : IsSized (start run)
      start_sized = initial_state-IsSized (absorb new_state (domain 0x06))

  pub hash_lem : shown.0.commitment_hash ≡ (honest run).0.commitment_hash
  hash_lem =
      shown.2.1
      ∙ ap (absorb_all (start run).commitment_hash) (hashes-hide_round 0 h (rounds run))
      ∙ sym (honest run).2.1

  abbrev pub path : List U8
  path =
      opened_path run.salt run.root_seed (delta run) run.execution run.root_block (delta_block run)
        h in_range

  abbrev pub restored :
      (opened : Nodes) × (partially_expand_tree run.salt path run.execution h ≡ some opened)
      × (length opened ≡ nb_evals)
      × ((j : ℕ)
          → j < nb_evals
          → j ≢ h
          → node opened j
            ≡ tree_node run.salt run.root_seed (delta run) run.execution 11 (nb_evals + j))
  restored =
      partially_expand_tree_lem run.salt run.root_seed (delta run) run.execution run.root_block
        (delta_block run) h in_range

  pub leaf_lem :
      (j : ℕ)
      → j < nb_evals
      → node (leaves run) j
        ≡ tree_node run.salt run.root_seed (delta run) run.execution 11 (nb_evals + j)
  leaf_lem j lt =
      get_or-drop leaf_offset (fully_expand_tree run.salt run.root_seed (delta run) run.execution) j
        zero_seed
      ∙ fully_expand_tree-Agrees run.salt run.root_seed (delta run) run.execution (nb_evals + j)
          (omega arith) (omega (arith, lt))

  pub evaluate_shown :
      evaluate_leaves
        (committer run)
        (made run).0
        (commit_seed (committer run) (node (leaves run) h))
        h
        0
        restored.0
        (start run)
      ≡ some shown.0
  evaluate_shown =
      evaluate_leaves-fold_rounds (committer run) (made run).0 (made run).2
        (commit_seed (committer run) (node (leaves run) h)) h 0 (leaves run) restored.0 (start run)
        (restored.2 ∙ sym (leaves_laws run).0) (leaves_laws run).1
        (λ j lt ne.
          restored.3 j (omega (arith, lt, (leaves_laws run).0)) (λ q. ne (omega (arith, q)))
          ∙ sym (leaf_lem j (omega (arith, lt, (leaves_laws run).0))))
        (λ j lt same.
          ap (λ k. commit_seed (committer run) (node (leaves run) k)) {x = h} {y = j} (omega arith))
      ∙ shown.1
