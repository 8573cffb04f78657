-- ===== src/Mq/Linear.antt =====
-- The matrix products of src/mq.rs as inner products: they are linear, and the base-field product
-- is the extension-field product at the embedded vector.
use mqom_rs.Base.{
  ℕ, zero, suc, ◌+◌, ◌≡◌, refl, sym, ap, ap₂, ◌∙◌, arith, List, [], ◌∷◌, map, length, take, slice,
  length-take,
}
use mqom_rs.Field.Ring.{◌⊕◌, ◌⊗◌, zero-add, add_interchange}
use mqom_rs.Field.Gf16.Element.{Gf16}
use mqom_rs.Field.Gf256x2.Element.{Gf256x2}
use mqom_rs.Field.Gf256x2.Element as Gf256x2
use mqom_rs.Field.Gf256x2.Laws.{gf256x2_ring}
use mqom_rs.Field.Gf256x2.Lift.{lift, scale-eq_mul}
use mqom_rs.Mq.{
  PackedEquation, row_base, rows_base, multiply_base, row_extension, rows_extension,
  multiply_extension, evaluate_loop, evaluate_base,
}
use mqom_rs.Params.{mq_n}
use mqom_rs.Mq.Vectors.{
  length-vscale, vadd, vscale, dot, dot-nil, dot-vadd_right, dot-vscale_right, take-vadd,
  take-vscale,
}

pub row_extension-dot :
    (output : Gf256x2) (coefficients vector : List Gf256x2)
    → row_extension output coefficients vector ≡ output ⊕ dot coefficients vector
unfolding row_extension dot
row_extension-dot output [] vector = sym (gf256x2_ring.add-zero output)
row_extension-dot output (c ∷ coefficients) [] = sym (gf256x2_ring.add-zero output)
row_extension-dot output (c ∷ coefficients) (v ∷ vector) =
    row_extension-dot (output ⊕ c ⊗ v) coefficients vector
    ∙ gf256x2_ring.add_assoc output (c ⊗ v) (dot coefficients vector)

pub row_extension-zero :
    (coefficients vector : List Gf256x2)
    → row_extension Gf256x2.zero coefficients vector ≡ dot coefficients vector
row_extension-zero coefficients vector =
    row_extension-dot Gf256x2.zero coefficients vector ∙ zero-add (dot coefficients vector)

take-map : (n : ℕ) (vector : List Gf16) → take n (map lift vector) ≡ map lift (take n vector)
take-map zero vector = refl
take-map (suc n) [] = refl
take-map (suc n) (v ∷ vector) = ap (◌∷◌ (lift v)) (take-map n vector)

row_base-row_extension :
    (output : Gf256x2) (coefficients : List Gf256x2) (vector : List Gf16)
    → row_base output coefficients vector ≡ row_extension output coefficients (map lift vector)
unfolding row_base row_extension
row_base-row_extension output [] vector = refl
row_base-row_extension output (c ∷ coefficients) [] = refl
row_base-row_extension output (c ∷ coefficients) (v ∷ vector) =
    ap (λ t. row_base (output ⊕ t) coefficients vector)
      (scale-eq_mul v c ∙ gf256x2_ring.mul_comm (lift v) c)
    ∙ row_base-row_extension (output ⊕ c ⊗ lift v) coefficients vector

rows_base-rows_extension :
    (quadratic : List Gf256x2) (vector : List Gf16) (row_index offset left : ℕ)
    → rows_base quadratic vector row_index offset left
      ≡ rows_extension quadratic (map lift vector) row_index offset left
unfolding rows_base rows_extension
rows_base-rows_extension quadratic vector row_index offset zero = refl
rows_base-rows_extension quadratic vector row_index offset (suc left) =
    ap₂ ◌∷◌
      (row_base-row_extension Gf256x2.zero row (take (row_index + 1) vector)
        ∙ ap (row_extension Gf256x2.zero row) (sym (take-map (row_index + 1) vector)))
      (rows_base-rows_extension quadratic vector (row_index + 1) (offset + row_index + 1) left)
  where
    row : List Gf256x2
    row = slice offset (offset + row_index + 1) quadratic

-- Multiplying by a base-field vector is multiplying by its image in the extension field.
pub multiply_base-multiply_extension :
    (equation : PackedEquation) (vector : List Gf16)
    → multiply_base equation vector ≡ multiply_extension equation (map lift vector)
unfolding multiply_base multiply_extension
multiply_base-multiply_extension equation vector =
    rows_base-rows_extension equation.quadratic vector 0 0 mq_n

same_take :
    (n : ℕ) (x y : List Gf256x2) → length x ≡ length y → length (take n x) ≡ length (take n y)
same_take n x y e = omega (arith, length-take n x, length-take n y)

rows_extension-vadd :
    (quadratic x y : List Gf256x2) (row_index offset left : ℕ)
    → length x ≡ length y
    → rows_extension quadratic (vadd x y) row_index offset left
      ≡ vadd
          (rows_extension quadratic x row_index offset left)
          (rows_extension quadratic y row_index offset left)
unfolding rows_extension vadd
rows_extension-vadd quadratic x y row_index offset zero e = refl
rows_extension-vadd quadratic x y row_index offset (suc left) e =
    ap₂ ◌∷◌
      (row_extension-zero row (take (row_index + 1) (vadd x y))
        ∙ ap (dot row) (take-vadd (row_index + 1) x y)
        ∙ dot-vadd_right row (take (row_index + 1) x) (take (row_index + 1) y)
            (same_take (row_index + 1) x y e)
        ∙ sym (
            ap₂ Gf256x2.add (row_extension-zero row (take (row_index + 1) x))
              (row_extension-zero row (take (row_index + 1) y))))
      (rows_extension-vadd quadratic x y (row_index + 1) (offset + row_index + 1) left e)
  where
    row : List Gf256x2
    row = slice offset (offset + row_index + 1) quadratic

rows_extension-vscale :
    (quadratic x : List Gf256x2) (a : Gf256x2) (row_index offset left : ℕ)
    → rows_extension quadratic (vscale a x) row_index offset left
      ≡ vscale a (rows_extension quadratic x row_index offset left)
unfolding rows_extension vscale
rows_extension-vscale quadratic x a row_index offset zero = refl
rows_extension-vscale quadratic x a row_index offset (suc left) =
    ap₂ ◌∷◌
      (row_extension-zero row (take (row_index + 1) (vscale a x))
        ∙ ap (dot row) (take-vscale (row_index + 1) a x)
        ∙ dot-vscale_right a row (take (row_index + 1) x)
        ∙ ap (gf256x2_ring.mul a) (sym (row_extension-zero row (take (row_index + 1) x))))
      (rows_extension-vscale quadratic x a (row_index + 1) (offset + row_index + 1) left)
  where
    row : List Gf256x2
    row = slice offset (offset + row_index + 1) quadratic

pub multiply_extension-vadd :
    (equation : PackedEquation) (x y : List Gf256x2)
    → length x ≡ length y
    → multiply_extension equation (vadd x y)
      ≡ vadd (multiply_extension equation x) (multiply_extension equation y)
unfolding multiply_extension
multiply_extension-vadd equation x y e = rows_extension-vadd equation.quadratic x y 0 0 mq_n e

pub multiply_extension-vscale :
    (equation : PackedEquation) (a : Gf256x2) (x : List Gf256x2)
    → multiply_extension equation (vscale a x) ≡ vscale a (multiply_extension equation x)
unfolding multiply_extension
multiply_extension-vscale equation a x = rows_extension-vscale equation.quadratic x a 0 0 mq_n

length-rows_extension :
    (quadratic vector : List Gf256x2) (row_index offset left : ℕ)
    → length (rows_extension quadratic vector row_index offset left) ≡ left
unfolding rows_extension
length-rows_extension quadratic vector row_index offset zero = refl
length-rows_extension quadratic vector row_index offset (suc left) =
    ap suc (length-rows_extension quadratic vector (row_index + 1) (offset + row_index + 1) left)

pub length-multiply_extension :
    (equation : PackedEquation) (vector : List Gf256x2)
    → length (multiply_extension equation vector) ≡ mq_n
unfolding multiply_extension
length-multiply_extension equation vector = length-rows_extension equation.quadratic vector 0 0 mq_n

evaluate_loop-dot :
    (result : Gf256x2) (vector : List Gf16) (product linear : List Gf256x2)
    → length vector ≡ length product
    → length vector ≡ length linear
    → evaluate_loop result vector product linear
      ≡ result ⊕ (dot product (map lift vector) ⊕ dot linear (map lift vector))
unfolding evaluate_loop dot
evaluate_loop-dot result [] product linear e f =
    sym (gf256x2_ring.add-zero result)
    ∙ ap (gf256x2_ring.add result) (
        sym (gf256x2_ring.add_self Gf256x2.zero)
        ∙ ap₂ gf256x2_ring.add (sym (dot-nil product)) (sym (dot-nil linear)))
evaluate_loop-dot result (v ∷ vector) [] linear e f = absurd (omega arith)
evaluate_loop-dot result (v ∷ vector) (m ∷ product) [] e f = absurd (omega arith)
evaluate_loop-dot result (v ∷ vector) (m ∷ product) (l ∷ linear) e f =
    ap (λ t. evaluate_loop t vector product linear)
      (ap₂ (λ s t. result ⊕ s ⊕ t) (scaled m) (scaled l))
    ∙ evaluate_loop-dot (result ⊕ m ⊗ lift v ⊕ l ⊗ lift v) vector product linear (omega arith)
        (omega arith)
    ∙ ap (λ t. t ⊕ (rest_m ⊕ rest_l)) (gf256x2_ring.add_assoc result (m ⊗ lift v) (l ⊗ lift v))
    ∙ gf256x2_ring.add_assoc result (m ⊗ lift v ⊕ l ⊗ lift v) (rest_m ⊕ rest_l)
    ∙ ap (gf256x2_ring.add result) (add_interchange (m ⊗ lift v) (l ⊗ lift v) rest_m rest_l)
  where
    scaled : (a : Gf256x2) → Gf256x2.scale v a ≡ a ⊗ lift v
    scaled a = scale-eq_mul v a ∙ gf256x2_ring.mul_comm (lift v) a

    rest_m : Gf256x2
    rest_m = dot product (map lift vector)

    rest_l : Gf256x2
    rest_l = dot linear (map lift vector)

-- `evaluate_base` is the inner product of x with A x + b, at the embedded vector.
pub evaluate_base-dot :
    (equation : PackedEquation) (vector : List Gf16)
    → length vector ≡ mq_n
    → length equation.linear ≡ mq_n
    → evaluate_base equation vector
      ≡ dot (multiply_extension equation (map lift vector)) (map lift vector)
        ⊕ dot equation.linear (map lift vector)
unfolding evaluate_base
evaluate_base-dot equation vector e f =
    ap (λ m. evaluate_loop Gf256x2.zero vector m equation.linear)
      (multiply_base-multiply_extension equation vector)
    ∙ evaluate_loop-dot Gf256x2.zero vector (multiply_extension equation (map lift vector))
        equation.linear (e ∙ sym (length-multiply_extension equation (map lift vector))) (e ∙ sym f)
    ∙ zero-add _

-- The extension-field product is linear: for vectors of one length it takes a sum with a scaled vector
-- to the sum with the scaled product.
pub multiply_extension_linear :
    (equation : PackedEquation) (a : Gf256x2) (x y : List Gf256x2)
    → length x ≡ length y
    → multiply_extension equation (vadd x (vscale a y))
      ≡ vadd (multiply_extension equation x) (vscale a (multiply_extension equation y))
multiply_extension_linear equation a x y e =
    multiply_extension-vadd equation x (vscale a y) (e ∙ sym (length-vscale a y))
    ∙ ap (vadd (multiply_extension equation x)) (multiply_extension-vscale equation a y)
