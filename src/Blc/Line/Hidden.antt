-- ===== src/Blc/Line/Hidden.antt =====
-- What the hidden leaf takes from the accumulator and from the sum over the basis: itself, and itself
-- times its evaluation point.
use mqom_rs.Base.{
  ℕ, zero, suc, ◌+◌, ◌≤◌, ◌<◌, ◌≡◌, refl, sym, ap, ◌∙◌, arith, U8, List, [], ◌∷◌, length, get_or,
  Bool, true, false, ◌==◌, ==_iff, if◌then◌else◌,
}
use mathlib.Core.Path.{subst}
use native.Mathlib.Decide.{dec_lt}
use mqom_rs.Bytes.{filled, length-filled, xor_zip, length-xor_zip}
use mqom_rs.Params.{nb_evals}
use mqom_rs.Field.Packing.{zero_byte}
use mqom_rs.Field.Gf256x2.Element.{Gf256x2}
use mqom_rs.Field.Gf256x2.Laws.{gf256x2_ring}
use mqom_rs.Mq.Vectors.{vadd, vscale}
use mqom_rs.Blc.{expanded_leaf_size}
use mqom_rs.Blc.Gray.{gray}
use mqom_rs.Blc.Fold.{point_of}
use mqom_rs.Blc.Fold.Total.{AllLeafSized}
use mqom_rs.Blc.Tree.Opened.{differs}
use mqom_rs.Blc.Tree.Sum.{xor_zip-zeros}
use mqom_rs.Blc.Line.Functional.{IsLinear}
use mqom_rs.Blc.Line.Folding.{step}
use mqom_rs.Blc.Line.Rounds.{run_acc, run_sum}
use mqom_rs.Blc.Line.Shifted.{code_leaf, run_acc-xor, next_sized, run_sum-xor}

abbrev pub zeros : List U8
zeros = filled expanded_leaf_size zero_byte

-- The expanded leaves from `index` on, with zeros for the hidden one.
abbrev pub hide : ℕ → ℕ → List (List U8) → List (List U8)
hide index hidden [] = []
hide index hidden (e ∷ expanded) =
    (if index == hidden then zeros else e) ∷ hide (index + 1) hidden expanded

pub hide-sized :
    (index hidden : ℕ) (expanded : List (List U8))
    → AllLeafSized expanded
    → AllLeafSized (hide index hidden expanded)
hide-sized index hidden [] sizes k lt = absurd (omega arith)
hide-sized index hidden (e ∷ expanded) sizes zero lt =
    pick (index == hidden) (length-filled expanded_leaf_size zero_byte) (sizes 0 (omega arith))
  where
    pick :
        (b : Bool)
        → length zeros ≡ expanded_leaf_size
        → length e ≡ expanded_leaf_size
        → length (if b then zeros else e) ≡ expanded_leaf_size
    pick true p q = p
    pick false p q = q
hide-sized index hidden (e ∷ expanded) sizes (suc k) lt =
    hide-sized (index + 1) hidden expanded (λ j below. sizes (suc j) (omega arith)) k (omega arith)

hide_past :
    (index hidden : ℕ) (expanded : List (List U8))
    → hidden < index
    → hide index hidden expanded ≡ expanded
hide_past index hidden [] lt = refl
hide_past index hidden (e ∷ expanded) lt =
    rw (differs index hidden (λ same. absurd (omega arith)))
      (ap (◌∷◌ e) (hide_past (index + 1) hidden expanded (omega arith)))

hide_now :
    (index hidden : ℕ) (e : List U8) (expanded : List (List U8))
    → index ≡ hidden
    → hide index hidden (e ∷ expanded) ≡ zeros ∷ expanded
hide_now index hidden e expanded same =
    rw ((==_iff index hidden).1 same)
      (ap (◌∷◌ zeros) (hide_past (index + 1) hidden expanded (omega arith)))

module _ (hidden : ℕ) (taken : List U8) (in_range : hidden < nb_evals)
    (taken_size : length taken ≡ expanded_leaf_size) where
  -- The hidden leaf, in the leaves from `index` on.
  abbrev pub Holds : ℕ → List (List U8) → Type 0
  Holds index expanded =
      (j : ℕ) → j < length expanded → index + j ≡ hidden → get_or expanded j [] ≡ taken

  -- Two runs, of which the second has zeros for the hidden leaf.
  abbrev pub Differ : ℕ → List (List U8) → List (List U8) → List U8 → Type 0
  Differ index expanded shown accumulator =
      (run_acc expanded accumulator ≡ xor_zip (run_acc shown accumulator) taken)
      × ((n : ℕ) (part : List U8 → List Gf256x2) (x : List Gf256x2)
          → IsLinear n part
          → length x ≡ n
          → run_sum part index expanded accumulator x
            ≡ vadd (run_sum part index shown accumulator x)
                (vscale (point_of (gray hidden)) (part taken)))

  here :
      (expanded : List (List U8)) (accumulator : List U8)
      → hidden + suc (length expanded) ≡ nb_evals
      → AllLeafSized expanded
      → length accumulator ≡ expanded_leaf_size
      → Differ hidden (taken ∷ expanded) (zeros ∷ expanded) accumulator
  here expanded accumulator whole sizes ea = (
    ap (run_acc expanded) (sym (past (xor_zip accumulator taken) taken_sum))
        ∙ run_acc-xor (zeros ∷ expanded) accumulator taken all_sizes taken_size,
    λ n part x linear ex.
        ap (λ a. run_sum part (hidden + 1) expanded a (vadd x (vscale (step hidden) (part a))))
          (sym (past (xor_zip accumulator taken) taken_sum))
        ∙ run_sum-xor n part linear hidden (zeros ∷ expanded) accumulator taken x whole all_sizes ea
            taken_size ex
        ∙ ap
            (λ k.
              vadd (run_sum part hidden (zeros ∷ expanded) accumulator x)
                (vscale (point_of k) (part taken)))
            (code_leaf hidden in_range),
  )
    where
      past : (a : List U8) → length a ≡ expanded_leaf_size → xor_zip a zeros ≡ a
      past a e = xor_zip-zeros a expanded_leaf_size e

      taken_sum : length (xor_zip accumulator taken) ≡ expanded_leaf_size
      taken_sum = length-xor_zip accumulator taken ∙ ea

      all_sizes : AllLeafSized (zeros ∷ expanded)
      all_sizes zero lt = length-filled expanded_leaf_size zero_byte
      all_sizes (suc k) lt = sizes k (omega arith)

  pub hide-Differ :
      (index : ℕ) (expanded : List (List U8)) (accumulator : List U8)
      → index ≤ hidden
      → index + length expanded ≡ nb_evals
      → AllLeafSized expanded
      → length accumulator ≡ expanded_leaf_size
      → Holds index expanded
      → Differ index expanded (hide index hidden expanded) accumulator
  hide-Differ index [] accumulator low whole sizes ea holds = absurd (omega arith)
  hide-Differ index (e ∷ expanded) accumulator low whole sizes ea holds =
      elim (dec_lt index hidden) [
        | yes before ↦
            let later =
              hide-Differ (index + 1) expanded (xor_zip accumulator e) (omega arith) (omega arith)
                (λ k lt. sizes (suc k) (omega arith)) (length-xor_zip accumulator e ∙ ea)
                (λ j lt same. holds (suc j) (omega arith) (omega arith)) in
            rw (differs index hidden (λ same. absurd (omega arith))) (
              later.0,
              λ n part x linear ex. later.1 n part _ linear (
                  next_sized n part linear index x (xor_zip accumulator e) ex
                    (length-xor_zip accumulator e ∙ ea)),
            )
        | no reached ↦
            let same : index ≡ hidden = omega arith in
            let first : e ≡ taken = holds 0 (omega arith) (omega arith) in
            subst (λ (shown : List (List U8)). Differ index (e ∷ expanded) shown accumulator)
              (sym (hide_now index hidden e expanded same))
              (subst (λ (t : List U8). Differ index (t ∷ expanded) (zeros ∷ expanded) accumulator)
                (sym first)
                (subst (λ k. Differ k (taken ∷ expanded) (zeros ∷ expanded) accumulator) (sym same)
                  (here expanded accumulator (omega arith) (λ k lt. sizes (suc k) (omega arith))
                    ea)))
      ]
