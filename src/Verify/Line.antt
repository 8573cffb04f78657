-- ===== src/Verify/Line.antt =====
-- The check of one equation in `recompute_alpha_zero`, at a point of an honest line: the value is a
-- polynomial of degree one in the point, because the square term cancels.
use mqom_rs.Base.{◌≡◌, refl, sym, ap, ap₂, ◌∙◌, arith, List, [], ◌∷◌, map, length, length-map}
use mqom_rs.Params.{mq_n}
use mqom_rs.Field.Ring.{BinaryRing, ◌⊕◌, ◌⊗◌, add_interchange}
use mqom_rs.Field.Gf16.Element.{Gf16}
use mqom_rs.Field.Gf256x2.Element.{Gf256x2, square}
use mqom_rs.Field.Gf256x2.Element as Gf256x2
use mqom_rs.Field.Gf256x2.Laws.{gf256x2_ring}
use mqom_rs.Field.Gf256x2.Lift.{lift}
use mqom_rs.Mq.{PackedEquation, multiply_extension, evaluate_base}
use mqom_rs.Mq.Vectors.{
  vadd, vscale, dot, length-vscale, dot-vadd_left, dot-vadd_right, dot-vscale_left,
  dot-vscale_right,
}
use mqom_rs.Mq.Linear.{
  row_extension-zero, multiply_extension_linear, length-multiply_extension, evaluate_base-dot,
}
use mqom_rs.Blc.Fold.{add_mask}
use mqom_rs.Verify.{z_evaluation}

pub add_mask-vadd :
    (evaluations vector : List Gf256x2) (point : Gf256x2)
    → length evaluations ≡ length vector
    → add_mask evaluations vector point ≡ vadd evaluations (vscale point vector)
unfolding add_mask vadd vscale
add_mask-vadd [] vector point e = refl
add_mask-vadd (x ∷ evaluations) [] point e = absurd (omega arith)
add_mask-vadd (x ∷ evaluations) (v ∷ vector) point e =
    ap (◌∷◌ (x ⊕ point ⊗ v)) (add_mask-vadd evaluations vector point (omega arith))

module _ {ℓ} {A : Type ℓ} ⦃r : BinaryRing A⦄ where
  pub add_twice : (x y : A) → x ⊕ y ⊕ y ≡ x
  add_twice x y = r.add_assoc x y y ∙ ap (r.add x) (r.add_self y) ∙ r.add-zero x

  -- The terms in the square of the point cancel.
  squares_cancel :
      (a p q v w y t : A)
      → a ⊕ t ⊗ p ⊕ t ⊗ (q ⊕ t ⊗ w) ⊕ t ⊗ (v ⊕ t ⊗ y) ⊕ t ⊗ t ⊗ (w ⊕ y) ≡ a ⊕ t ⊗ (p ⊕ q ⊕ v)
  squares_cancel a p q v w y t =
      ap₂ r.add (ap₂ r.add (ap (r.add (a ⊕ t ⊗ p)) (r.mul-add t q (t ⊗ w))) (r.mul-add t v (t ⊗ y)))
        (r.mul-add (t ⊗ t) w y ∙ ap₂ r.add (r.mul_assoc t t w) (r.mul_assoc t t y))
      ∙ add_interchange (a ⊕ t ⊗ p ⊕ (t ⊗ q ⊕ t ⊗ (t ⊗ w))) (t ⊗ v ⊕ t ⊗ (t ⊗ y)) (t ⊗ (t ⊗ w))
          (t ⊗ (t ⊗ y))
      ∙ ap₂ r.add
          (ap (λ s. s ⊕ t ⊗ (t ⊗ w)) (sym (r.add_assoc (a ⊕ t ⊗ p) (t ⊗ q) (t ⊗ (t ⊗ w))))
            ∙ add_twice (a ⊕ t ⊗ p ⊕ t ⊗ q) (t ⊗ (t ⊗ w)))
          (add_twice (t ⊗ v) (t ⊗ (t ⊗ y)))
      ∙ ap (λ s. s ⊕ t ⊗ v) (r.add_assoc a (t ⊗ p) (t ⊗ q) ∙ ap (r.add a) (sym (r.mul-add t p q)))
      ∙ r.add_assoc a (t ⊗ (p ⊕ q)) (t ⊗ v)
      ∙ ap (r.add a) (sym (r.mul-add t (p ⊕ q) v))

-- For vectors of the length of the profile, and at a point r of the line x_zero + r secret, the value
-- that the verifier computes for an equation with the public output of the secret is z_zero + r z_one,
-- where z_zero = x_zero^T A x_zero and z_one = secret^T A x_zero + x_zero^T A secret + b^T x_zero do not
-- depend on r.
pub z_evaluation-line :
    (equation : PackedEquation) (x_zero : List Gf256x2) (secret : List Gf16) (point : Gf256x2)
    → length x_zero ≡ mq_n
    → length secret ≡ mq_n
    → length equation.linear ≡ mq_n
    → z_evaluation equation
        (vadd x_zero (vscale point (map lift secret)))
        point
        (evaluate_base equation secret)
      ≡ dot (multiply_extension equation x_zero) x_zero
        ⊕ point
          ⊗ (dot (multiply_extension equation x_zero) (map lift secret)
              ⊕ dot (multiply_extension equation (map lift secret)) x_zero
              ⊕ dot equation.linear x_zero)
unfolding z_evaluation square
z_evaluation-line equation x_zero secret point e f g =
    ap₂ Gf256x2.add
      (row_extension-zero (add_mask (product x) linear point) x
        ∙ ap (λ t. dot t x)
            (add_mask-vadd (product x) linear point (length-multiply_extension equation x ∙ sym g))
        ∙ dot-vadd_left (product x) (vscale point linear) x
            (length-multiply_extension equation x ∙ sym (length-vscale point linear ∙ g))
        ∙ ap₂ Gf256x2.add product_at_x
            (dot-vscale_left point linear x ∙ ap (Gf256x2.mul point) (split linear)))
      (ap (λ t. point ⊗ point ⊗ t) (evaluate_base-dot equation secret f g))
    ∙ squares_cancel (dot (product x_zero) x_zero) (dot (product x_zero) s) (dot (product s) x_zero)
        (dot linear x_zero) (dot (product s) s) (dot linear s) point
  where
    s : List Gf256x2
    s = map lift secret

    x : List Gf256x2
    x = vadd x_zero (vscale point s)

    linear : List Gf256x2
    linear = equation.linear

    product : List Gf256x2 → List Gf256x2
    product v = multiply_extension equation v

    sizes : length x_zero ≡ length (vscale point s)
    sizes = e ∙ sym (length-vscale point s ∙ length-map lift secret ∙ f)

    split : (c : List Gf256x2) → dot c x ≡ dot c x_zero ⊕ point ⊗ dot c s
    split c =
        dot-vadd_right c x_zero (vscale point s) sizes
        ∙ ap (Gf256x2.add (dot c x_zero)) (dot-vscale_right point c s)

    product_at_x :
        dot (product x) x
        ≡ dot (product x_zero) x_zero
          ⊕ point ⊗ dot (product x_zero) s
          ⊕ point ⊗ (dot (product s) x_zero ⊕ point ⊗ dot (product s) s)
    product_at_x =
        ap (λ t. dot t x)
          (multiply_extension_linear equation point x_zero s (e ∙ sym (length-map lift secret ∙ f)))
        ∙ dot-vadd_left (product x_zero) (vscale point (product s)) x (
            length-multiply_extension equation x_zero
            ∙ sym (length-vscale point (product s) ∙ length-multiply_extension equation s))
        ∙ ap₂ Gf256x2.add (split (product x_zero))
            (dot-vscale_left point (product s) x ∙ ap (Gf256x2.mul point) (split (product s)))
