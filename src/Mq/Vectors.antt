-- ===== src/Mq/Vectors.antt =====
-- Vectors over a ring of characteristic two as lists: sum, scalar multiple and inner product.
use mqom_rs.Base.{ℕ, zero, suc, ◌≡◌, refl, sym, ap, ap₂, ◌∙◌, arith, List, [], ◌∷◌, length, take}
use mqom_rs.Field.Ring.{
  BinaryRing, ◌⊕◌, ◌⊗◌, add_interchange, add-mul, mul-zero, zero-mul, mul_left_comm,
}

module _ {ℓ} {A : Type ℓ} ⦃r : BinaryRing A⦄ where
  unfoldable pub vadd : List A → List A → List A
  vadd [] ys = []
  vadd (x ∷ xs) [] = []
  vadd (x ∷ xs) (y ∷ ys) = (x ⊕ y) ∷ vadd xs ys

  unfoldable pub vscale : A → List A → List A
  vscale a [] = []
  vscale a (x ∷ xs) = a ⊗ x ∷ vscale a xs

  unfoldable pub dot : List A → List A → A
  dot [] ys = r.zero
  dot (x ∷ xs) [] = r.zero
  dot (x ∷ xs) (y ∷ ys) = x ⊗ y ⊕ dot xs ys

  pub length-vadd : (x y : List A) → length x ≡ length y → length (vadd x y) ≡ length x
  unfolding vadd
  length-vadd [] y e = refl
  length-vadd (a ∷ x) [] e = absurd (omega arith)
  length-vadd (a ∷ x) (b ∷ y) e = ap suc (length-vadd x y (omega arith))

  pub length-vscale : (a : A) (x : List A) → length (vscale a x) ≡ length x
  unfolding vscale
  length-vscale a [] = refl
  length-vscale a (b ∷ x) = ap suc (length-vscale a x)

  pub dot-nil : (x : List A) → dot x [] ≡ r.zero
  unfolding dot
  dot-nil [] = refl
  dot-nil (a ∷ x) = refl

  pub dot_comm : (x y : List A) → dot x y ≡ dot y x
  unfolding dot
  dot_comm [] [] = refl
  dot_comm [] (b ∷ y) = refl
  dot_comm (a ∷ x) [] = refl
  dot_comm (a ∷ x) (b ∷ y) = ap₂ r.add (r.mul_comm a b) (dot_comm x y)

  pub dot-vadd_right : (x y z : List A) → length y ≡ length z → dot x (vadd y z) ≡ dot x y ⊕ dot x z
  unfolding dot vadd
  dot-vadd_right [] y z e = sym (r.add_self r.zero)
  dot-vadd_right (a ∷ x) [] [] e = sym (r.add_self r.zero)
  dot-vadd_right (a ∷ x) [] (c ∷ z) e = absurd (omega arith)
  dot-vadd_right (a ∷ x) (b ∷ y) [] e = absurd (omega arith)
  dot-vadd_right (a ∷ x) (b ∷ y) (c ∷ z) e =
      ap₂ r.add (r.mul-add a b c) (dot-vadd_right x y z (omega arith))
      ∙ add_interchange (a ⊗ b) (a ⊗ c) (dot x y) (dot x z)

  pub dot-vadd_left : (x y z : List A) → length x ≡ length y → dot (vadd x y) z ≡ dot x z ⊕ dot y z
  dot-vadd_left x y z e =
      dot_comm (vadd x y) z ∙ dot-vadd_right z x y e ∙ ap₂ r.add (dot_comm z x) (dot_comm z y)

  pub dot-vscale_right : (a : A) (x y : List A) → dot x (vscale a y) ≡ a ⊗ dot x y
  unfolding dot vscale
  dot-vscale_right a [] y = sym (mul-zero a)
  dot-vscale_right a (b ∷ x) [] = sym (mul-zero a)
  dot-vscale_right a (b ∷ x) (d ∷ y) =
      ap₂ r.add (mul_left_comm b a d) (dot-vscale_right a x y) ∙ sym (r.mul-add a (b ⊗ d) (dot x y))

  pub dot-vscale_left : (a : A) (x y : List A) → dot (vscale a x) y ≡ a ⊗ dot x y
  dot-vscale_left a x y =
      dot_comm (vscale a x) y ∙ dot-vscale_right a y x ∙ ap (r.mul a) (dot_comm y x)

  pub take-vadd : (n : ℕ) (x y : List A) → take n (vadd x y) ≡ vadd (take n x) (take n y)
  unfolding vadd
  take-vadd zero x y = refl
  take-vadd (suc n) [] y = refl
  take-vadd (suc n) (a ∷ x) [] = refl
  take-vadd (suc n) (a ∷ x) (b ∷ y) = ap (◌∷◌ (a ⊕ b)) (take-vadd n x y)

  pub take-vscale : (n : ℕ) (a : A) (x : List A) → take n (vscale a x) ≡ vscale a (take n x)
  unfolding vscale
  take-vscale zero a x = refl
  take-vscale (suc n) a [] = refl
  take-vscale (suc n) a (b ∷ x) = ap (◌∷◌ (a ⊗ b)) (take-vscale n a x)

  pub vadd_comm : (x y : List A) → vadd x y ≡ vadd y x
  unfolding vadd
  vadd_comm [] [] = refl
  vadd_comm [] (b ∷ y) = refl
  vadd_comm (a ∷ x) [] = refl
  vadd_comm (a ∷ x) (b ∷ y) = ap₂ ◌∷◌ (r.add_comm a b) (vadd_comm x y)

  pub vadd_assoc : (x y z : List A) → vadd (vadd x y) z ≡ vadd x (vadd y z)
  unfolding vadd
  vadd_assoc [] y z = refl
  vadd_assoc (a ∷ x) [] z = refl
  vadd_assoc (a ∷ x) (b ∷ y) [] = refl
  vadd_assoc (a ∷ x) (b ∷ y) (c ∷ z) = ap₂ ◌∷◌ (r.add_assoc a b c) (vadd_assoc x y z)

  pub vadd_right_comm : (x y z : List A) → vadd (vadd x y) z ≡ vadd (vadd x z) y
  vadd_right_comm x y z = vadd_assoc x y z ∙ ap (vadd x) (vadd_comm y z) ∙ sym (vadd_assoc x z y)

  pub vscale-vadd : (a : A) (x y : List A) → vscale a (vadd x y) ≡ vadd (vscale a x) (vscale a y)
  unfolding vadd vscale
  vscale-vadd a [] y = refl
  vscale-vadd a (b ∷ x) [] = refl
  vscale-vadd a (b ∷ x) (c ∷ y) = ap₂ ◌∷◌ (r.mul-add a b c) (vscale-vadd a x y)

  pub vscale-add : (a b : A) (x : List A) → vscale (a ⊕ b) x ≡ vadd (vscale a x) (vscale b x)
  unfolding vadd vscale
  vscale-add a b [] = refl
  vscale-add a b (c ∷ x) = ap₂ ◌∷◌ (add-mul a b c) (vscale-add a b x)

  pub vadd-vscale_zero : (x y : List A) → length x ≡ length y → vadd x (vscale r.zero y) ≡ x
  unfolding vadd vscale
  vadd-vscale_zero [] y e = refl
  vadd-vscale_zero (a ∷ x) [] e = absurd (omega arith)
  vadd-vscale_zero (a ∷ x) (b ∷ y) e =
      ap₂ ◌∷◌ (ap (r.add a) (zero-mul b) ∙ r.add-zero a) (vadd-vscale_zero x y (omega arith))
