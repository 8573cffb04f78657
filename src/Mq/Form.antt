-- ===== src/Mq/Form.antt =====
-- `evaluate_base` against an index-by-index reading of x^T A x + b^T x, where A is the
-- lower-triangular matrix stored row by row.
use mqom_rs.Base.{
  ℕ, zero, suc, ◌+◌, ◌-◌, ◌*◌, ◌/◌, ◌<◌, ◌≡◌, refl, sym, ap, ap₂, ◌∙◌, arith, List, [], ◌∷◌, map,
  length, take, drop, slice, get_or, take_all, length-map,
}
use mqom_rs.Field.Ring.{◌⊕◌, ◌⊗◌, mul-zero, zero-mul}
use mqom_rs.Field.Gf16.Element.{Gf16}
use mqom_rs.Field.Gf256x2.Element.{Gf256x2}
use mqom_rs.Field.Gf256x2.Element as Gf256x2
use mqom_rs.Field.Gf256x2.Laws.{gf256x2_ring}
use mqom_rs.Field.Gf256x2.Lift.{lift}
use mqom_rs.Params.{mq_n}
use mqom_rs.Mq.{PackedEquation, rows_extension, row_extension, multiply_extension, evaluate_base}
use mqom_rs.Mq.Vectors.{dot}
use mqom_rs.Mq.Linear.{evaluate_base-dot, row_extension-zero, length-multiply_extension}

-- f 0 + … + f (n - 1).
abbrev pub sum : ℕ → (ℕ → Gf256x2) → Gf256x2
sum zero f = Gf256x2.zero
sum (suc n) f = f 0 ⊕ sum n (λ j. f (suc j))

abbrev pub at : List Gf256x2 → ℕ → Gf256x2
at xs i = get_or xs i Gf256x2.zero

-- The entry in row `i` and column `j ≤ i` of the matrix.
abbrev pub entry : PackedEquation → ℕ → ℕ → Gf256x2
entry equation i j = at equation.quadratic (i * (i + 1) / 2 + j)

-- x^T A x + b^T x, by indices.
abbrev pub quadratic_form : PackedEquation → (ℕ → Gf256x2) → Gf256x2
quadratic_form equation x =
    sum mq_n (λ i. sum (i + 1) (λ j. entry equation i j ⊗ x j) ⊗ x i)
    ⊕ sum mq_n (λ i. at equation.linear i ⊗ x i)

sum-zero : (n : ℕ) (f : ℕ → Gf256x2) → ((j : ℕ) → f j ≡ Gf256x2.zero) → sum n f ≡ Gf256x2.zero
sum-zero zero f h = refl
sum-zero (suc n) f h =
    ap₂ Gf256x2.add (h 0) (sum-zero n (λ j. f (suc j)) (λ j. h (suc j)))
    ∙ gf256x2_ring.add_self Gf256x2.zero

sum_congr : (n : ℕ) (f g : ℕ → Gf256x2) → ((j : ℕ) → j < n → f j ≡ g j) → sum n f ≡ sum n g
sum_congr zero f g h = refl
sum_congr (suc n) f g h =
    ap₂ Gf256x2.add (h 0 (omega arith))
      (sum_congr n (λ j. f (suc j)) (λ j. g (suc j)) (λ j lt. h (suc j) (omega arith)))

dot-sum : (n : ℕ) (a b : List Gf256x2) → dot (take n a) (take n b) ≡ sum n (λ j. at a j ⊗ at b j)
unfolding dot
dot-sum zero a b = refl
dot-sum (suc n) [] b = sym (sum-zero (suc n) (λ j. Gf256x2.zero ⊗ at b j) (λ j. zero-mul (at b j)))
dot-sum (suc n) (x ∷ a) [] =
    sym (sum-zero (suc n) (λ j. at (x ∷ a) j ⊗ Gf256x2.zero) (λ j. mul-zero (at (x ∷ a) j)))
dot-sum (suc n) (x ∷ a) (y ∷ b) = ap (Gf256x2.add (x ⊗ y)) (dot-sum n a b)

at-drop : (k : ℕ) (a : List Gf256x2) (j : ℕ) → at (drop k a) j ≡ at a (k + j)
at-drop zero a j = ap (at a) {x = j} {y = 0 + j} (omega arith)
at-drop (suc k) [] j = refl
at-drop (suc k) (x ∷ a) j =
    at-drop k a j ∙ ap (at (x ∷ a)) {x = suc (k + j)} {y = suc k + j} (omega arith)

-- Row `i` of the product.
abbrev row_sum : List Gf256x2 → List Gf256x2 → ℕ → Gf256x2
row_sum quadratic x i = sum (i + 1) (λ j. at quadratic (i * (i + 1) / 2 + j) ⊗ at x j)

first_row :
    (quadratic x : List Gf256x2) (i offset : ℕ)
    → offset ≡ i * (i + 1) / 2
    → row_extension Gf256x2.zero (slice offset (offset + i + 1) quadratic) (take (i + 1) x)
      ≡ row_sum quadratic x i
first_row quadratic x i offset e =
    row_extension-zero (slice offset (offset + i + 1) quadratic) (take (i + 1) x)
    ∙ ap (λ k. dot (take k (drop offset quadratic)) (take (i + 1) x)) {x = offset + i + 1 - offset}
        {y = i + 1} (omega arith)
    ∙ dot-sum (i + 1) (drop offset quadratic) x
    ∙ sum_congr (i + 1) (λ j. at (drop offset quadratic) j ⊗ at x j)
        (λ j. at quadratic (i * (i + 1) / 2 + j) ⊗ at x j)
        (λ j lt.
          ap (λ t. t ⊗ at x j) (at-drop offset quadratic j ∙ ap (λ o. at quadratic (o + j)) e))

at-rows_extension :
    (quadratic x : List Gf256x2) (row_index offset left i : ℕ)
    → offset ≡ row_index * (row_index + 1) / 2
    → i < left
    → at (rows_extension quadratic x row_index offset left) i ≡ row_sum quadratic x (row_index + i)
unfolding rows_extension
at-rows_extension quadratic x row_index offset zero i e h = absurd (omega arith)
at-rows_extension quadratic x row_index offset (suc left) zero e h =
    first_row quadratic x row_index offset e
    ∙ ap (row_sum quadratic x) {x = row_index} {y = row_index + 0} (omega arith)
at-rows_extension quadratic x row_index offset (suc left) (suc i) e h =
    at-rows_extension quadratic x (row_index + 1) (offset + row_index + 1) left i (omega arith)
      (omega arith)
    ∙ ap (row_sum quadratic x) {x = row_index + 1 + i} {y = row_index + suc i} (omega arith)

dot_all :
    (a b : List Gf256x2) (n : ℕ)
    → length a ≡ n
    → length b ≡ n
    → dot a b ≡ sum n (λ j. at a j ⊗ at b j)
dot_all a b n e f =
    ap₂ dot (sym (take_all n a (omega arith))) (sym (take_all n b (omega arith))) ∙ dot-sum n a b

-- For a vector and a linear part of the length of the profile, `evaluate_base` computes
-- x^T A x + b^T x, with entry (i, j) of A read at i (i + 1) / 2 + j of the packed triangle.
pub evaluate_base-quadratic_form :
    (equation : PackedEquation) (vector : List Gf16)
    → length vector ≡ mq_n
    → length equation.linear ≡ mq_n
    → evaluate_base equation vector ≡ quadratic_form equation (at (map lift vector))
evaluate_base-quadratic_form equation vector e f =
    evaluate_base-dot equation vector e f
    ∙ ap₂ Gf256x2.add
        (dot_all (multiply_extension equation x) x mq_n (length-multiply_extension equation x)
            (length-map lift vector ∙ e)
          ∙ sum_congr mq_n (λ i. at (multiply_extension equation x) i ⊗ at x i)
              (λ i. row_sum equation.quadratic x i ⊗ at x i)
              (λ i lt. ap (λ t. t ⊗ at x i) (row i lt)))
        (dot_all equation.linear x mq_n f (length-map lift vector ∙ e))
  where
    x : List Gf256x2
    x = map lift vector

    row : (i : ℕ) → i < mq_n → at (multiply_extension equation x) i ≡ row_sum equation.quadratic x i
    row i lt =
        unfold multiply_extension in
        at-rows_extension equation.quadratic x 0 0 mq_n i (omega arith) lt
        ∙ ap (row_sum equation.quadratic x) {x = 0 + i} {y = i} (omega arith)
