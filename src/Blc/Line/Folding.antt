-- ===== src/Blc/Line/Folding.antt =====
-- The sum over the basis of src/blc.rs as a sum of vectors, and what one leaf adds to it.
use mqom_rs.Base.{
  ℕ, zero, suc, ◌+◌, ◌*◌, ◌%◌, ◌<◌, ◌^◌, bit_xor, ◌≡◌, refl, sym, ap, ◌∙◌, arith, U8, some, List,
  [], ◌∷◌, length, take, drop, set, get_or, length-take, length-drop,
}
use native.Mathlib.Nat.{pow-le-pow_right}
use mqom_rs.Bytes.{xor_zip}
use mqom_rs.Params.{mq_n, eta, nb_evals}
use mqom_rs.Crates.{Crates}
use mqom_rs.Xof.{Shake128State}
use mqom_rs.Field.Packing.Laws.{halves, length-halves}
use mqom_rs.Keygen.Generate.{unpack_secret}
use mqom_rs.Field.Gf256x2.Element.{Gf256x2}
use mqom_rs.Field.Gf256x2.Laws.{gf256x2_ring}
use mqom_rs.Mq.Vectors.{
  vadd, vscale, vadd_assoc, vadd_right_comm, vscale-vadd, length-vadd, length-vscale,
}
use mqom_rs.Blc.{base_vector_size, expanded_leaf_size}
use mqom_rs.Blc.Gray.{gray, next_index}
use mqom_rs.Blc.Fold.{point_of, basis, add_folded, LeafState, fold_leaf}
use mqom_rs.Blc.Fold.Total.{
  AllLeafSized, IsSized, fold_leaf_at, folded_at, parse_extension_vector_total,
}
use mqom_rs.Blc.Line.Functional.{
  IsLinear, base_part, mask_part, base_part-IsLinear, mask_part-IsLinear, add_base-vadd,
  length-read_elements,
}
use mqom_rs.Verify.Line.{add_mask-vadd}

-- The sum over the basis of a part of each vector, onto a start, from `index` on.
module _ (part : List U8 → List Gf256x2) where
  abbrev pub fold_onto : List (List U8) → ℕ → List Gf256x2 → List Gf256x2
  fold_onto [] index x = x
  fold_onto (v ∷ folding) index x =
      fold_onto folding (index + 1) (vadd x (vscale (basis index) (part v)))

  -- A summand of the start is a summand of the result.
  fold_onto-vadd :
      (folding : List (List U8)) (index : ℕ) (x y : List Gf256x2)
      → fold_onto folding index (vadd x y) ≡ vadd (fold_onto folding index x) y
  fold_onto-vadd [] index x y = refl
  fold_onto-vadd (v ∷ folding) index x y =
      ap (fold_onto folding (index + 1)) (vadd_right_comm x y (vscale (basis index) (part v)))
      ∙ fold_onto-vadd folding (index + 1) (vadd x (vscale (basis index) (part v))) y

  module _ (n : ℕ) (linear : IsLinear n part) where
    length-vadd-basis :
        (index : ℕ) (v : List U8) (x : List Gf256x2)
        → length v ≡ expanded_leaf_size
        → length x ≡ n
        → length (vadd x (vscale (basis index) (part v))) ≡ n
    length-vadd-basis index v x e f =
        length-vadd x (vscale (basis index) (part v))
          (f ∙ sym (length-vscale (basis index) (part v) ∙ linear.sized v e))
        ∙ f

    pub length-fold_onto :
        (folding : List (List U8)) (index : ℕ) (x : List Gf256x2)
        → AllLeafSized folding
        → length x ≡ n
        → length (fold_onto folding index x) ≡ n
    length-fold_onto [] index x sized e = e
    length-fold_onto (v ∷ folding) index x sized e =
        length-fold_onto folding (index + 1) (vadd x (vscale (basis index) (part v)))
          (λ k lt. sized (suc k) (omega arith))
          (length-vadd-basis index v x (sized 0 (omega arith)) e)

    -- What is added to one vector is added to the sum, with its element of the basis.
    pub fold_onto-set :
        (folding : List (List U8)) (position index : ℕ) (x : List Gf256x2) (d : List U8)
        → AllLeafSized folding
        → position < length folding
        → length d ≡ expanded_leaf_size
        → fold_onto (set folding position (xor_zip (get_or folding position []) d)) index x
          ≡ vadd (fold_onto folding index x) (vscale (basis (index + position)) (part d))
    fold_onto-set [] position index x d sized lt e = absurd (omega arith)
    fold_onto-set (v ∷ folding) zero index x d sized lt e =
        ap (λ t. fold_onto folding (index + 1) (vadd x (vscale (basis index) t)))
          (linear.additive v d (sized 0 (omega arith)) e)
        ∙ ap (λ t. fold_onto folding (index + 1) (vadd x t))
            (vscale-vadd (basis index) (part v) (part d))
        ∙ ap (fold_onto folding (index + 1))
            (sym (vadd_assoc x (vscale (basis index) (part v)) (vscale (basis index) (part d))))
        ∙ fold_onto-vadd folding (index + 1) (vadd x (vscale (basis index) (part v)))
            (vscale (basis index) (part d))
        ∙ ap
            (λ k.
              vadd (fold_onto folding (index + 1) (vadd x (vscale (basis index) (part v))))
                (vscale (basis k) (part d)))
            {x = index} {y = index + 0} (omega arith)
    fold_onto-set (v ∷ folding) (suc position) index x d sized lt e =
        fold_onto-set folding position (index + 1) (vadd x (vscale (basis index) (part v))) d
          (λ k below. sized (suc k) (omega arith)) (omega arith) e
        ∙ ap
            (λ k.
              vadd (fold_onto folding (index + 1) (vadd x (vscale (basis index) (part v))))
                (vscale (basis k) (part d)))
            {x = index + 1 + position} {y = index + suc position} (omega arith)

-- Both results of `add_folded` are such sums.
pub add_folded-fold_onto :
    (folding : List (List U8)) (index : ℕ) (x u : List Gf256x2)
    → AllLeafSized folding
    → length x ≡ mq_n
    → length u ≡ eta
    → add_folded folding index x u
      ≡ some (fold_onto base_part folding index x, fold_onto mask_part folding index u)
unfolding add_folded
add_folded-fold_onto [] index x u sized lx lu = refl
add_folded-fold_onto (v ∷ folding) index x u sized lx lu =
    rw
      (
        unpack_secret (take base_vector_size v)
            (omega (arith, length-take base_vector_size v, sized 0 (omega arith))),
        add_folded,
        parse_extension_vector_total eta (drop base_vector_size v)
            (omega (arith, length-drop base_vector_size v, sized 0 (omega arith))),
        add_base-vadd x (halves (take base_vector_size v)) (basis index) (
            omega (
              arith,
              lx,
              length-halves (take base_vector_size v),
              length-take base_vector_size v,
              sized 0 (omega arith),
            )),
        add_mask-vadd u (mask_part v) (basis index)
            (lu ∙ sym (length-read_elements (drop base_vector_size v) 0 eta)),
      )
      (add_folded-fold_onto folding (index + 1) (vadd x (vscale (basis index) (base_part v)))
        (vadd u (vscale (basis index) (mask_part v))) (λ k lt. sized (suc k) (omega arith))
        (length-vadd-basis base_part mq_n base_part-IsLinear index v x (sized 0 (omega arith)) lx)
        (length-vadd-basis mask_part eta mask_part-IsLinear index v u (sized 0 (omega arith)) lu))

-- The change of the evaluation point from a leaf to the next.
abbrev pub step : ℕ → Gf256x2
step index = point_of (bit_xor (gray index) (gray (next_index index)))

basis-point : (position : ℕ) → position < 11 → basis position ≡ point_of (2 ^ position)
basis-point position h =
    ap point_of {x = 1 * 2 ^ position % 2 ^ 16} {y = 2 ^ position}
      (omega (arith, pow-le-pow_right {n = 2} (omega arith) {i = position} {j = 11} (omega arith)))

module _ ⦃c : Crates⦄ where
  -- What one leaf does: it is added to the accumulator, and the accumulator, times the change of the
  -- evaluation point, to the sum over the basis.
  pub fold_leaf-step :
      (index : ℕ) (expanded : List U8) (hash : Shake128State) (state : LeafState)
      → index < nb_evals
      → length expanded ≡ expanded_leaf_size
      → IsSized state
      → (next : LeafState) × (fold_leaf index expanded hash state ≡ some next)
        × IsSized next
        × (next.commitment_hash ≡ hash)
        × (next.accumulator ≡ xor_zip state.accumulator expanded)
        × ((n : ℕ) (part : List U8 → List Gf256x2) (x : List Gf256x2)
            → IsLinear n part
            → fold_onto part next.folding 0 x
              ≡ vadd
                  (fold_onto part state.folding 0 x)
                  (vscale (step index) (part (xor_zip state.accumulator expanded))))
  fold_leaf-step index expanded hash state lt size sized =
      let (position, small, bit, run, kept) =
        fold_leaf_at index expanded hash state lt size sized in
      (
        folded_at position expanded hash state,
        run,
        kept,
        refl,
        refl,
        λ n part x linear.
            fold_onto-set part n linear state.folding position 0 x
              (xor_zip state.accumulator expanded) sized.2 (omega (arith, small, sized.1)) kept.0
            ∙ ap
                (λ p.
                  vadd (fold_onto part state.folding 0 x)
                    (vscale p (part (xor_zip state.accumulator expanded))))
                (ap basis {x = 0 + position} {y = position} (omega arith)
                  ∙ basis-point position small
                  ∙ ap point_of (sym bit)),
      )
