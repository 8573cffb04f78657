-- ===== src/Blc/Line/Rounds.antt =====
-- The loops of `commit` and `evaluate_opening` over the leaves as one loop over what each leaf is hashed
-- to and expanded to, and its result as a sum.
use mqom_rs.Base.{
  ℕ, suc, ◌+◌, ◌≤◌, ◌≡◌, refl, ap, ap₂, ◌∙◌, arith, U8, Option, some, List, [], ◌∷◌, map, length,
  ◌>>=◌,
}
use mqom_rs.Bytes.{xor_zip}
use mqom_rs.Params.{nb_evals}
use mqom_rs.Crates.{Crates}
use mqom_rs.Xof.{absorb, absorb_all}
use mqom_rs.Field.Gf256x2.Element.{Gf256x2}
use mqom_rs.Field.Gf256x2.Laws.{gf256x2_ring}
use mqom_rs.Mq.Vectors.{vadd, vscale}
use mqom_rs.Blc.Fold.{LeafState, fold_leaf}
use mqom_rs.Blc.Fold.Total.{AllLeafSized, IsSized}
use mqom_rs.Blc.Line.Functional.{IsLinear}
use mqom_rs.Blc.Line.Folding.{fold_onto, step, fold_leaf-step}

-- The accumulator after the expanded leaves.
abbrev pub run_acc : List (List U8) → List U8 → List U8
run_acc [] accumulator = accumulator
run_acc (e ∷ expanded) accumulator = run_acc expanded (xor_zip accumulator e)

-- The sum over the basis after the expanded leaves, from `index` on.
abbrev pub run_sum :
    (List U8 → List Gf256x2) → ℕ → List (List U8) → List U8 → List Gf256x2 → List Gf256x2
run_sum part index [] accumulator x = x
run_sum part index (e ∷ expanded) accumulator x =
    run_sum part (index + 1) expanded (xor_zip accumulator e)
      (vadd x (vscale (step index) (part (xor_zip accumulator e))))

abbrev pub hashes : List (List U8 × List U8) → List (List U8)
hashes rounds = map (λ (r : List U8 × List U8). r.0) rounds

abbrev pub expansions : List (List U8 × List U8) → List (List U8)
expansions rounds = map (λ (r : List U8 × List U8). r.1) rounds

module _ ⦃c : Crates⦄ where
  unfoldable pub fold_rounds : ℕ → List (List U8 × List U8) → LeafState → Option LeafState
  fold_rounds index [] state = some state
  fold_rounds index (r ∷ rounds) state = do
    folded ← fold_leaf index r.1 (absorb state.commitment_hash r.0) state
    fold_rounds (index + 1) rounds folded

  -- What the loop gives.
  abbrev pub Ran : ℕ → List (List U8 × List U8) → LeafState → LeafState → Type 0
  Ran index rounds state done =
      IsSized done
      × (done.commitment_hash ≡ absorb_all state.commitment_hash (hashes rounds))
      × (done.accumulator ≡ run_acc (expansions rounds) state.accumulator)
      × ((n : ℕ) (part : List U8 → List Gf256x2) (x : List Gf256x2)
          → IsLinear n part
          → fold_onto part done.folding 0 x
            ≡ run_sum part index (expansions rounds) state.accumulator
                (fold_onto part state.folding 0 x))

  pub fold_rounds_lem :
      (index : ℕ) (rounds : List (List U8 × List U8)) (state : LeafState)
      → index + length rounds ≤ nb_evals
      → AllLeafSized (expansions rounds)
      → IsSized state
      → (done : LeafState) × (fold_rounds index rounds state ≡ some done)
        × Ran index rounds state done
  unfolding fold_rounds absorb_all
  fold_rounds_lem index [] state fits sizes sized =
      (state, refl, (sized, refl, refl, λ n part x linear. refl))
  fold_rounds_lem index (r ∷ rounds) state fits sizes sized =
      let (next, folds, kept, hash, acc, sums) =
        fold_leaf-step index r.1 (absorb state.commitment_hash r.0) state (omega arith)
          (sizes 0 (omega arith)) sized in
      let (done, run, ran) =
        fold_rounds_lem (index + 1) rounds next (omega arith) (λ k lt. sizes (suc k) (omega arith))
          kept in
      (
        done,
        rw (folds, fold_rounds) run,
        (
          ran.0,
          ran.1 ∙ ap (λ h. absorb_all h (hashes rounds)) hash,
          ran.2 ∙ ap (run_acc (expansions rounds)) acc,
          λ n part x linear.
              ran.3 n part x linear
              ∙ ap₂ (run_sum part (index + 1) (expansions rounds)) acc (sums n part x linear),
        ),
      )
