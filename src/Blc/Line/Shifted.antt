-- ===== src/Blc/Line/Shifted.antt =====
-- The loops of src/blc.rs over the leaves, after something is added to the accumulator or to the sum.
use mqom_rs.Base.{
  ℕ, suc, ◌+◌, ◌<◌, bit_xor, ◌≡◌, refl, sym, ap, ◌∙◌, arith, U8, to_u8, List, [], ◌∷◌, length, ltb,
  lt→ltb, if◌then◌else◌, xor_assoc, xor_self, xor-zero,
}
use mqom_rs.Bytes.{xor_zip, length-xor_zip, xor_zip_assoc, xor_zip_comm}
use mqom_rs.Params.{nb_evals}
use mqom_rs.Field.Ring.{◌⊕◌}
use mqom_rs.Field.Gf256x2.Element.{Gf256x2}
use mqom_rs.Field.Gf256x2.Element as Gf256x2
use mqom_rs.Field.Gf256.Element as Gf256
use mqom_rs.Field.Gf256x2.Laws.{gf256x2_ring}
use mqom_rs.Mq.Vectors.{
  vadd, vscale, vadd_assoc, vadd_comm, vadd_right_comm, vscale-vadd, vscale-add, vadd-vscale_zero,
  length-vadd, length-vscale,
}
use mqom_rs.Blc.{expanded_leaf_size}
use mqom_rs.Blc.Gray.{gray}
use mqom_rs.Blc.Fold.{point_of}
use mqom_rs.Blc.Fold.Total.{AllLeafSized}
use mqom_rs.Blc.Line.Functional.{IsLinear, point_of-xor}
use mqom_rs.Blc.Line.Folding.{step}
use mqom_rs.Blc.Line.Rounds.{run_acc, run_sum}

-- The code of a leaf, where the first leaf follows the last.
abbrev pub code : ℕ → ℕ
code index = gray (if ltb index nb_evals then index else 0)

pub code_leaf : (index : ℕ) → index < nb_evals → code index ≡ gray index
code_leaf index lt = rw (lt→ltb index nb_evals lt)

step-code :
    (index : ℕ)
    → index < nb_evals
    → step index ⊕ point_of (code (index + 1)) ≡ point_of (code index)
step-code index lt =
    sym (point_of-xor (bit_xor (gray index) (code (index + 1))) (code (index + 1)))
    ∙ ap point_of (
        xor_assoc (gray index) (code (index + 1)) (code (index + 1))
        ∙ ap (bit_xor (gray index)) (xor_self (code (index + 1)))
        ∙ xor-zero (gray index)
        ∙ sym (code_leaf index lt))

last_point : point_of (code nb_evals) ≡ Gf256x2.zero
unfolding to_u8 Gf256.zero
last_point = refl

xor_right_comm :
    (a b c : List U8) → length b ≡ length c → xor_zip (xor_zip a b) c ≡ xor_zip (xor_zip a c) b
xor_right_comm a b c e =
    xor_zip_assoc a b c e ∙ ap (xor_zip a) (xor_zip_comm b c e) ∙ sym (xor_zip_assoc a c b (sym e))

pub run_acc-xor :
    (expanded : List (List U8)) (accumulator d : List U8)
    → AllLeafSized expanded
    → length d ≡ expanded_leaf_size
    → run_acc expanded (xor_zip accumulator d) ≡ xor_zip (run_acc expanded accumulator) d
run_acc-xor [] accumulator d sizes e = refl
run_acc-xor (x ∷ expanded) accumulator d sizes e =
    ap (run_acc expanded) (xor_right_comm accumulator d x (e ∙ sym (sizes 0 (omega arith))))
    ∙ run_acc-xor expanded (xor_zip accumulator x) d (λ k lt. sizes (suc k) (omega arith)) e

run_sum-vadd :
    (part : List U8 → List Gf256x2) (index : ℕ) (expanded : List (List U8)) (accumulator : List U8)
    (x y : List Gf256x2)
    → run_sum part index expanded accumulator (vadd x y)
      ≡ vadd (run_sum part index expanded accumulator x) y
run_sum-vadd part index [] accumulator x y = refl
run_sum-vadd part index (e ∷ expanded) accumulator x y =
    let summed = xor_zip accumulator e in
    ap (run_sum part (index + 1) expanded summed)
      (vadd_right_comm x y (vscale (step index) (part summed)))
    ∙ run_sum-vadd part (index + 1) expanded summed (vadd x (vscale (step index) (part summed))) y

module _ (n : ℕ) (part : List U8 → List Gf256x2) (linear : IsLinear n part) where
  pub next_sized :
      (index : ℕ) (x : List Gf256x2) (a : List U8)
      → length x ≡ n
      → length a ≡ expanded_leaf_size
      → length (vadd x (vscale (step index) (part a))) ≡ n
  next_sized index x a e f =
      length-vadd x (vscale (step index) (part a))
        (e ∙ sym (length-vscale (step index) (part a) ∙ linear.sized a f))
      ∙ e

  -- What is added to the accumulator before a leaf is added to the sum with the point of the leaf.
  pub run_sum-xor :
      (index : ℕ) (expanded : List (List U8)) (accumulator d : List U8) (x : List Gf256x2)
      → index + length expanded ≡ nb_evals
      → AllLeafSized expanded
      → length accumulator ≡ expanded_leaf_size
      → length d ≡ expanded_leaf_size
      → length x ≡ n
      → run_sum part index expanded (xor_zip accumulator d) x
        ≡ vadd (run_sum part index expanded accumulator x) (vscale (point_of (code index)) (part d))
  run_sum-xor index [] accumulator d x whole sizes ea ed ex = sym (
      ap (λ p. vadd x (vscale p (part d)))
        (ap (λ k. point_of (code k)) {x = index} {y = nb_evals} (omega arith) ∙ last_point)
      ∙ vadd-vscale_zero x (part d) (ex ∙ sym (linear.sized d ed)))
  run_sum-xor index (e ∷ expanded) accumulator d x whole sizes ea ed ex =
      ap (λ a. run_sum part (index + 1) expanded a (vadd x (vscale s (part a)))) swap
      ∙ ap (run_sum part (index + 1) expanded (xor_zip summed d)) (
          ap (λ t. vadd x (vscale s t)) (linear.additive summed d summed_size ed)
          ∙ ap (vadd x) (vscale-vadd s (part summed) (part d))
          ∙ sym (vadd_assoc x (vscale s (part summed)) (vscale s (part d))))
      ∙ run_sum-vadd part (index + 1) expanded (xor_zip summed d) next (vscale s (part d))
      ∙ ap (λ t. vadd t (vscale s (part d)))
          (run_sum-xor (index + 1) expanded summed d next (omega arith)
            (λ k lt. sizes (suc k) (omega arith)) summed_size ed
            (next_sized index x summed ex summed_size))
      ∙ vadd_assoc rest (vscale (point_of (code (index + 1))) (part d)) (vscale s (part d))
      ∙ ap (vadd rest) (
          vadd_comm (vscale (point_of (code (index + 1))) (part d)) (vscale s (part d))
          ∙ sym (vscale-add s (point_of (code (index + 1))) (part d))
          ∙ ap (λ p. vscale p (part d)) (step-code index (omega arith)))
    where
      s : Gf256x2
      s = step index

      summed : List U8
      summed = xor_zip accumulator e

      summed_size : length summed ≡ expanded_leaf_size
      summed_size = length-xor_zip accumulator e ∙ ea

      swap : xor_zip (xor_zip accumulator d) e ≡ xor_zip summed d
      swap = xor_right_comm accumulator d e (ed ∙ sym (sizes 0 (omega arith)))

      next : List Gf256x2
      next = vadd x (vscale s (part summed))

      rest : List Gf256x2
      rest = run_sum part (index + 1) expanded summed next
