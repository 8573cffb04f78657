-- ===== src/Sign/Masked.antt =====
-- alpha on both sides: the verifier recomputes alpha_zero of the signer from alpha_one.
use mqom_rs.Base.{
  ℕ, zero, suc, ◌+◌, ◌≡◌, refl, sym, ap, ap₂, ◌∙◌, arith, List, [], ◌∷◌, length, drop, drop_all,
  get_or, get_or-drop,
}
use mqom_rs.Field.Ring.{◌⊕◌, ◌⊗◌, add_interchange}
use mqom_rs.Field.Gf256x2.Element.{Gf256x2}
use mqom_rs.Field.Gf256x2.Element as Gf256x2
use mqom_rs.Field.Gf256x2.Laws.{gf256x2_ring}
use mqom_rs.Mq.{row_extension}
use mqom_rs.Mq.Vectors.{vadd, vscale, dot, dot-vadd_right, dot-vscale_right, length-vscale}
use mqom_rs.Mq.Linear.{row_extension-dot}
use mqom_rs.Verify.{alpha_components}
use mqom_rs.Verify.Line.{add_twice}
use mqom_rs.Sign.{alpha_row}
use mqom_rs.Sign.Equations.{drop-get_or}

-- alpha of one execution, over the rows of the batching matrix.
abbrev pub alpha_of : List (List Gf256x2) → List Gf256x2 → List Gf256x2 → List Gf256x2
alpha_of [] masks values = []
alpha_of (row ∷ batching) masks values =
    (get_or masks 0 Gf256x2.zero ⊕ dot row values) ∷ alpha_of batching (drop 1 masks) values

drop-suc {ℓ} : {A : Type ℓ} (xs : List A) (i : ℕ) → drop 1 (drop i xs) ≡ drop (i + 1) xs
drop-suc [] zero = refl
drop-suc [] (suc i) = sym (drop_all (suc i + 1) [] (omega arith))
drop-suc (x ∷ xs) zero = refl
drop-suc (x ∷ xs) (suc i) =
    drop-suc xs i ∙ ap (λ k. drop k (x ∷ xs)) {x = suc (i + 1)} {y = suc i + 1} (omega arith)

pub alpha_row-alpha_of :
    (batching : List (List Gf256x2)) (masks values : List Gf256x2) (component left : ℕ)
    → length batching ≡ component + left
    → alpha_row batching masks values component left
      ≡ alpha_of (drop component batching) (drop component masks) values
unfolding alpha_row
alpha_row-alpha_of batching masks values component zero e =
    ap (λ (b : List (List Gf256x2)). alpha_of b (drop component masks) values)
      (sym (drop_all component batching (omega arith)))
alpha_row-alpha_of batching masks values component (suc left) e =
    ap₂ ◌∷◌
      (row_extension-dot (get_or masks component Gf256x2.zero) (get_or batching component []) values
        ∙ ap (λ m. m ⊕ dot (get_or batching component []) values)
            (ap (λ k. get_or masks k Gf256x2.zero) {x = component} {y = component + 0} (omega arith)
              ∙ sym (get_or-drop component masks 0 Gf256x2.zero)))
      (alpha_row-alpha_of batching masks values (component + 1) left (omega arith)
        ∙ ap (λ m. alpha_of (drop (component + 1) batching) m values)
            (sym (drop-suc masks component)))
    ∙ ap (λ (b : List (List Gf256x2)). alpha_of b (drop component masks) values)
        (sym (drop-get_or batching component [] (omega arith)))

-- At a point of the lines of the masks and of the equations, alpha_one takes alpha to alpha_zero.
pub alpha_components-alpha_of :
    (batching : List (List Gf256x2)) (u_zero u_one z_zero z_one : List Gf256x2) (point : Gf256x2)
    → length u_zero ≡ length batching
    → length u_one ≡ length batching
    → length z_zero ≡ length z_one
    → alpha_components batching
        (vadd u_zero (vscale point u_one))
        (alpha_of batching u_one z_one)
        (vadd z_zero (vscale point z_one))
        point
      ≡ alpha_of batching u_zero z_zero
unfolding alpha_components vadd vscale
alpha_components-alpha_of [] u_zero u_one z_zero z_one point e f g = refl
alpha_components-alpha_of (row ∷ batching) [] u_one z_zero z_one point e f g = absurd (omega arith)
alpha_components-alpha_of (row ∷ batching) (a ∷ u_zero) [] z_zero z_one point e f g =
    absurd (omega arith)
alpha_components-alpha_of (row ∷ batching) (a ∷ u_zero) (b ∷ u_one) z_zero z_one point e f g =
    ap₂ ◌∷◌ component (
      alpha_components-alpha_of batching u_zero u_one z_zero z_one point (omega arith) (omega arith)
        g)
  where
    split : dot row (vadd z_zero (vscale point z_one)) ≡ dot row z_zero ⊕ point ⊗ dot row z_one
    split =
        dot-vadd_right row z_zero (vscale point z_one) (g ∙ sym (length-vscale point z_one))
        ∙ ap (Gf256x2.add (dot row z_zero)) (dot-vscale_right point row z_one)

    component :
        Gf256x2.add
          (row_extension (a ⊕ point ⊗ b) row (vadd z_zero (vscale point z_one)))
          (point ⊗ (b ⊕ dot row z_one))
        ≡ a ⊕ dot row z_zero
    component =
        ap₂ Gf256x2.add
          (row_extension-dot (a ⊕ point ⊗ b) row (vadd z_zero (vscale point z_one))
            ∙ ap (Gf256x2.add (a ⊕ point ⊗ b)) split
            ∙ add_interchange a (point ⊗ b) (dot row z_zero) (point ⊗ dot row z_one))
          (gf256x2_ring.mul-add point b (dot row z_one))
        ∙ add_twice (a ⊕ dot row z_zero) (point ⊗ b ⊕ point ⊗ dot row z_one)
