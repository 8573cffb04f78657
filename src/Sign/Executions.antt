-- ===== src/Sign/Executions.antt =====
-- The loops over the executions on both sides: alpha of the signer, and alpha_zero of the verifier.
use mqom_rs.Base.{
  ℕ, zero, suc, ◌+◌, ◌<◌, ◌≡◌, refl, sym, ap, ap₂, ◌∙◌, arith, List, [], ◌∷◌, map, length, drop,
  drop_all, get_or, length-map,
}
use mqom_rs.Crates.{Crates}
use mqom_rs.Params.{mq_n, eta, tau}
use mqom_rs.Field.Gf16.Element.{Gf16}
use mqom_rs.Field.Gf256x2.Element.{Gf256x2}
use mqom_rs.Field.Gf256x2.Laws.{gf256x2_ring}
use mqom_rs.Field.Gf256x2.Lift.{lift}
use mqom_rs.Mq.{PackedEquation, equation_count}
use mqom_rs.Mq.Vectors.{vadd, vscale}
use mqom_rs.Blc.Commit.{SigningCommitment}
use mqom_rs.Blc.Line.Sizes.{AllRows}
use mqom_rs.Blc.Line.Lists.{x_lines, u_lines}
use mqom_rs.Verify.{evaluation_point, alpha_components, alpha_executions}
use mqom_rs.Sign.{t_ones, z_lists, alpha_row, alpha_rows}
use mqom_rs.Sign.Equations.{
  AllLinear, z_zero_of, z_one_of, z_zeros, z_ones, outputs_of, z_lists-z_of, z_evaluations-line,
  drop-get_or, pair,
}
use mqom_rs.Sign.Masked.{alpha_of, alpha_row-alpha_of, alpha_components-alpha_of}

-- alpha of all executions, for values of the equations that a function gives at x_zero.
abbrev pub alphas :
    List (List Gf256x2)
    → (List Gf256x2 → List Gf256x2)
    → List (List Gf256x2)
    → List (List Gf256x2)
    → List (List Gf256x2)
alphas batching values [] x_zero = []
alphas batching values (u ∷ masks) [] = []
alphas batching values (u ∷ masks) (x ∷ x_zero) =
    alpha_of batching u (values x) ∷ alphas batching values masks x_zero

length-alpha_of :
    (rows : List (List Gf256x2)) (masks values : List Gf256x2)
    → length (alpha_of rows masks values) ≡ length rows
length-alpha_of [] masks values = refl
length-alpha_of (row ∷ rows) masks values = ap suc (length-alpha_of rows (drop 1 masks) values)

module _ (rows : List (List Gf256x2)) (values : List Gf256x2 → List Gf256x2) where
  pub length-alphas :
      (masks x_zero : List (List Gf256x2))
      → length masks ≡ length x_zero
      → length (alphas rows values masks x_zero) ≡ length x_zero
  length-alphas [] [] e = refl
  length-alphas [] (x ∷ x_zero) e = absurd (omega arith)
  length-alphas (u ∷ masks) [] e = refl
  length-alphas (u ∷ masks) (x ∷ x_zero) e = ap suc (length-alphas masks x_zero (omega arith))

  pub alphas-AllRows :
      (masks x_zero : List (List Gf256x2)) → AllRows (length rows) (alphas rows values masks x_zero)
  alphas-AllRows [] x_zero j lt = absurd (omega arith)
  alphas-AllRows (u ∷ masks) [] j lt = absurd (omega arith)
  alphas-AllRows (u ∷ masks) (x ∷ x_zero) zero lt = length-alpha_of rows u (values x)
  alphas-AllRows (u ∷ masks) (x ∷ x_zero) (suc j) lt = alphas-AllRows masks x_zero j (omega arith)

module _ (equations : List PackedEquation) (batching : List (List Gf256x2)) (secret : List Gf16)
    (equations_size : length equations ≡ equation_count) (linear : AllLinear equations)
    (batching_size : length batching ≡ eta) (secret_size : length secret ≡ mq_n) where
  abbrev pub zeros_at : List Gf256x2 → List Gf256x2
  zeros_at x = z_zeros equations x

  abbrev pub ones_at : List Gf256x2 → List Gf256x2
  ones_at x = z_ones equations x secret

  module _ ⦃c : Crates⦄ (commitment : SigningCommitment) (x_size : length commitment.x_zero ≡ tau)
      (zero_size : length commitment.u_zero ≡ tau) (one_size : length commitment.u_one ≡ tau)
      (x_rows : AllRows mq_n commitment.x_zero) where
    -- Both values of one execution.
    rows_at :
        (execution : ℕ) (u : List Gf256x2)
        → execution < tau
        → (alpha_row batching u
              (z_lists equations
                (t_ones equations secret)
                (get_or commitment.x_zero execution [])
                secret
                0
                equation_count).0
              0
              eta
            ≡ alpha_of batching u (zeros_at (get_or commitment.x_zero execution [])))
          × (alpha_row batching u
                (z_lists equations
                  (t_ones equations secret)
                  (get_or commitment.x_zero execution [])
                  secret
                  0
                  equation_count).1
                0
                eta
              ≡ alpha_of batching u (ones_at (get_or commitment.x_zero execution [])))
    rows_at execution u lt =
        let values =
          z_lists-z_of equations (get_or commitment.x_zero execution []) secret
            (x_rows execution (omega (arith, lt, x_size))) secret_size linear 0 equation_count
            equations_size in
        (
          ap (λ (p : List Gf256x2 × List Gf256x2). alpha_row batching u p.0 0 eta) values
              ∙ alpha_row-alpha_of batching u (zeros_at (get_or commitment.x_zero execution [])) 0
                  eta batching_size,
          ap (λ (p : List Gf256x2 × List Gf256x2). alpha_row batching u p.1 0 eta) values
              ∙ alpha_row-alpha_of batching u (ones_at (get_or commitment.x_zero execution [])) 0
                  eta batching_size,
        )

    -- The first masks and x_zero from an execution on.
    alphas-drop :
        (values : List Gf256x2 → List Gf256x2) (masks : List (List Gf256x2)) (execution : ℕ)
        → execution < tau
        → length masks ≡ tau
        → alphas batching values (drop execution masks) (drop execution commitment.x_zero)
          ≡ alpha_of batching
              (get_or masks execution [])
              (values (get_or commitment.x_zero execution []))
            ∷ alphas batching values
                (drop (execution + 1) masks)
                (drop (execution + 1) commitment.x_zero)
    alphas-drop values masks execution lt size =
        ap₂ (alphas batching values) (drop-get_or masks execution [] (omega (arith, lt, size)))
          (drop-get_or commitment.x_zero execution [] (omega (arith, lt, x_size)))

    pub alpha_rows-alphas :
        (execution left : ℕ)
        → execution + left ≡ tau
        → alpha_rows equations (t_ones equations secret) batching commitment secret execution left
          ≡ (
            alphas batching zeros_at
                (drop execution commitment.u_zero)
                (drop execution commitment.x_zero),
            alphas batching ones_at
                (drop execution commitment.u_one)
                (drop execution commitment.x_zero),
          )
    unfolding alpha_rows
    alpha_rows-alphas execution zero e = rw (
      drop_all execution commitment.u_zero (omega (arith, e, zero_size)),
      drop_all execution commitment.u_one (omega (arith, e, one_size)),
    )
    alpha_rows-alphas execution (suc left) e =
        let later = alpha_rows-alphas (execution + 1) left (omega (arith, e)) in
        let lt : execution < tau = omega (arith, e) in
        pair
          (ap₂ ◌∷◌ (rows_at execution (get_or commitment.u_zero execution []) lt).0
              (ap (λ p. p.0) later)
            ∙ sym (alphas-drop zeros_at commitment.u_zero execution lt zero_size))
          (ap₂ ◌∷◌ (rows_at execution (get_or commitment.u_one execution []) lt).1
              (ap (λ p. p.1) later)
            ∙ sym (alphas-drop ones_at commitment.u_one execution lt one_size))

  -- The verifier recomputes alpha_zero of every execution from the points of the lines.
  pub alpha_executions-alphas :
      (indices : List ℕ) (x_zero u_zero u_one : List (List Gf256x2))
      → length x_zero ≡ length indices
      → length u_zero ≡ length indices
      → length u_one ≡ length indices
      → AllRows mq_n x_zero
      → AllRows eta u_zero
      → AllRows eta u_one
      → alpha_executions equations batching
          (outputs_of equations secret)
          indices
          (x_lines (map lift secret) indices x_zero)
          (u_lines indices u_zero u_one)
          (alphas batching ones_at u_one x_zero)
        ≡ alphas batching zeros_at u_zero x_zero
  unfolding alpha_executions
  alpha_executions-alphas [] [] [] u_one ex ez eo xs zs os = refl
  alpha_executions-alphas [] (x ∷ x_zero) u_zero u_one ex ez eo xs zs os = absurd (omega arith)
  alpha_executions-alphas [] [] (u ∷ u_zero) u_one ex ez eo xs zs os = absurd (omega arith)
  alpha_executions-alphas (h ∷ indices) [] u_zero u_one ex ez eo xs zs os = absurd (omega arith)
  alpha_executions-alphas (h ∷ indices) (x ∷ x_zero) [] u_one ex ez eo xs zs os =
      absurd (omega arith)
  alpha_executions-alphas (h ∷ indices) (x ∷ x_zero) (u ∷ u_zero) [] ex ez eo xs zs os =
      absurd (omega arith)
  alpha_executions-alphas (h ∷ indices) (x ∷ x_zero) (u ∷ u_zero) (v ∷ u_one) ex ez eo xs zs os =
      let point = evaluation_point h in
      ap₂ ◌∷◌
        (ap
            (λ z.
              alpha_components batching (vadd u (vscale point v)) (alpha_of batching v (ones_at x))
                z point)
            (z_evaluations-line equations x secret point (xs 0 (omega arith)) secret_size linear)
          ∙ alpha_components-alpha_of batching u v (zeros_at x) (ones_at x) point
              (zs 0 (omega arith) ∙ sym batching_size) (os 0 (omega arith) ∙ sym batching_size)
              (length-map (λ q. z_zero_of q x) equations
                ∙ sym (length-map (λ q. z_one_of q x secret) equations)))
        (alpha_executions-alphas indices x_zero u_zero u_one (omega arith) (omega arith)
          (omega arith) (λ j lt. xs (suc j) (omega (arith, lt)))
          (λ j lt. zs (suc j) (omega (arith, lt))) (λ j lt. os (suc j) (omega (arith, lt))))
