-- ===== src/Blc/Line/Leaves.antt =====
-- The loops of `commit` and `evaluate_opening` over the leaves are the loop over rounds, with the same
-- rounds but for the hidden leaf.
use mqom_rs.Base.{
  ℕ, zero, suc, ◌+◌, ◌<◌, ◌≡◌, ◌≢◌, inl, inr, fun_ext, Bool-cases, refl, sym, ap, ◌∙◌, arith, U8,
  Option, none, some, List, [], ◌∷◌, map, length, ◌==◌, ==_iff, if◌then◌else◌, ◌>>=◌,
}
use mqom_rs.Crates.{Crates}
use mqom_rs.Xof.{absorb}
use mqom_rs.Prg.{Generator}
use mqom_rs.Blc.{expanded_leaf_size}
use mqom_rs.Blc.Tree.{Nodes, node, SeedCommitter, commit_seed}
use mqom_rs.Blc.Fold.{LeafState, fold_leaf}
use mqom_rs.Blc.Fold.Total.{AllLeafSized}
use mqom_rs.Blc.Commit.{expand_leaf, commit_leaves}
use mqom_rs.Blc.Commit.Leaves.{AllSeeds, Fills, expand_leaf_total}
use mqom_rs.Blc.Evaluate.{opened_leaf, evaluate_leaves}
use mqom_rs.Verify.Reject.{true≢false}
use mqom_rs.Blc.Line.Rounds.{hashes, expansions, fold_rounds}
use mqom_rs.Blc.Line.Hidden.{zeros, hide}

-- The rounds from `index` on, with zeros for the hidden leaf.
abbrev pub hide_round : ℕ → ℕ → List (List U8 × List U8) → List (List U8 × List U8)
hide_round index hidden [] = []
hide_round index hidden (r ∷ rounds) =
    (r.0, if index == hidden then zeros else r.1) ∷ hide_round (index + 1) hidden rounds

pub hashes-hide_round :
    (index hidden : ℕ) (rounds : List (List U8 × List U8))
    → hashes (hide_round index hidden rounds) ≡ hashes rounds
hashes-hide_round index hidden [] = refl
hashes-hide_round index hidden (r ∷ rounds) =
    ap (◌∷◌ r.0) (hashes-hide_round (index + 1) hidden rounds)

pub length-hide_round :
    (index hidden : ℕ) (rounds : List (List U8 × List U8))
    → length (hide_round index hidden rounds) ≡ length rounds
length-hide_round index hidden [] = refl
length-hide_round index hidden (r ∷ rounds) = ap suc (length-hide_round (index + 1) hidden rounds)

pub expansions-hide_round :
    (index hidden : ℕ) (rounds : List (List U8 × List U8))
    → expansions (hide_round index hidden rounds) ≡ hide index hidden (expansions rounds)
expansions-hide_round index hidden [] = refl
expansions-hide_round index hidden (r ∷ rounds) =
    ap (◌∷◌ (if index == hidden then zeros else r.1))
      (expansions-hide_round (index + 1) hidden rounds)

module _ ⦃c : Crates⦄ (committer : SeedCommitter) (generator : Generator)
    (fills : Fills generator) where
  -- What a leaf expands to.
  abbrev pub expanded_of : List U8 → List U8
  expanded_of seed = elim (expand_leaf generator seed) [ none ↦ [] | some expanded ↦ expanded ]

  pub expanded_of_lem :
      (seed : List U8)
      → length seed ≡ 16
      → (expand_leaf generator seed ≡ some (expanded_of seed))
        × (length (expanded_of seed) ≡ expanded_leaf_size)
  expanded_of_lem seed e =
      let (expanded, run, size) = expand_leaf_total generator seed fills e in
      let same : expanded_of seed ≡ expanded =
        ap (λ (o : Option (List U8)). elim o [ none ↦ [] | some x ↦ x ]) run in
      (run ∙ ap some (sym same), ap length same ∙ size)

  abbrev pub rounds_of : Nodes → List (List U8 × List U8)
  rounds_of leaves = map (λ seed. (commit_seed committer seed, expanded_of seed)) leaves

  pub rounds_of-sized :
      (leaves : Nodes) → AllSeeds leaves → AllLeafSized (expansions (rounds_of leaves))
  rounds_of-sized [] seeds k lt = absurd (omega arith)
  rounds_of-sized (seed ∷ leaves) seeds zero lt = (expanded_of_lem seed (seeds 0 (omega arith))).1
  rounds_of-sized (seed ∷ leaves) seeds (suc k) lt =
      rounds_of-sized leaves (λ j below. seeds (suc j) (omega arith)) k (omega arith)

  pub commit_leaves-fold_rounds :
      (index : ℕ) (leaves : Nodes) (state : LeafState)
      → AllSeeds leaves
      → commit_leaves committer generator index leaves state
        ≡ fold_rounds index (rounds_of leaves) state
  unfolding commit_leaves fold_rounds
  commit_leaves-fold_rounds index [] state seeds = refl
  commit_leaves-fold_rounds index (seed ∷ leaves) state seeds =
      rw ((expanded_of_lem seed (seeds 0 (omega arith))).0, commit_leaves)
        (ap
          (◌>>=◌ (
            fold_leaf index (expanded_of seed)
              (absorb state.commitment_hash (commit_seed committer seed)) state))
          (fun_ext λ folded.
            commit_leaves-fold_rounds (index + 1) leaves folded
              (λ j lt. seeds (suc j) (omega arith))))

  -- One round of the verifier: the hidden leaf is hashed to its commitment, and expanded to zeros.
  opened_leaf_lem :
      (hidden_commitment : List U8) (hidden index : ℕ) (seed opened : List U8)
      → length seed ≡ 16
      → (index ≢ hidden → opened ≡ seed)
      → (index ≡ hidden → hidden_commitment ≡ commit_seed committer seed)
      → opened_leaf committer generator hidden_commitment hidden index opened
        ≡ some (commit_seed committer seed, if index == hidden then zeros else expanded_of seed)
  unfolding opened_leaf
  opened_leaf_lem hidden_commitment hidden index seed opened e shown known =
      elim (Bool-cases (index == hidden)) [
        | inl now ↦ rw (now) (ap (λ t. some (t, zeros)) (known ((==_iff index hidden).0 now)))
        | inr other ↦
            let same : opened ≡ seed =
              shown (λ q. true≢false (sym ((==_iff index hidden).1 q) ∙ other)) in
            rw (other, same, (expanded_of_lem seed e).0)
      ]

  pub evaluate_leaves-fold_rounds :
      (hidden_commitment : List U8) (hidden index : ℕ) (leaves opened : Nodes) (state : LeafState)
      → length opened ≡ length leaves
      → AllSeeds leaves
      → ((j : ℕ) → j < length leaves → index + j ≢ hidden → node opened j ≡ node leaves j)
      → ((j : ℕ)
          → j < length leaves
          → index + j ≡ hidden
          → hidden_commitment ≡ commit_seed committer (node leaves j))
      → evaluate_leaves committer generator hidden_commitment hidden index opened state
        ≡ fold_rounds index (hide_round index hidden (rounds_of leaves)) state
  unfolding evaluate_leaves fold_rounds
  evaluate_leaves-fold_rounds hc hidden index [] [] state size seeds shown known = refl
  evaluate_leaves-fold_rounds hc hidden index [] (o ∷ opened) state size seeds shown known =
      absurd (omega arith)
  evaluate_leaves-fold_rounds hc hidden index (seed ∷ leaves) [] state size seeds shown known =
      absurd (omega arith)
  evaluate_leaves-fold_rounds hc hidden index (seed ∷ leaves) (o ∷ opened) state size seeds shown
        known =
      rw
        (
          opened_leaf_lem hc hidden index seed o (seeds 0 (omega arith))
              (λ ne. shown 0 (omega arith) (λ q. ne (omega arith)))
              (λ q. known 0 (omega arith) (omega arith)),
          evaluate_leaves,
        )
        (ap
          (◌>>=◌ (
            fold_leaf index (if index == hidden then zeros else expanded_of seed)
              (absorb state.commitment_hash (commit_seed committer seed)) state))
          (fun_ext λ folded.
            evaluate_leaves-fold_rounds hc hidden (index + 1) leaves opened folded (omega arith)
              (λ j lt. seeds (suc j) (omega arith))
              (λ j lt ne. shown (suc j) (omega arith) (λ q. ne (omega arith)))
              (λ j lt q. known (suc j) (omega arith) (omega arith))))
