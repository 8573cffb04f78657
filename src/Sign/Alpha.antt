-- ===== src/Sign/Alpha.antt =====
-- alpha of the signer (src/sign.rs) against the recomputation of the verifier (src/verify.rs), over the
-- line commitment of src/blc.rs.
use mqom_rs.Base.{
  ℕ, zero, suc, ◌+◌, ◌*◌, ◌<◌, ◌≡◌, refl, sym, ap, ◌∙◌, arith, U8, some, List, [], ◌∷◌, map, length,
  get_or, some_inj,
}
use mqom_rs.Params.{mq_n, eta, tau, nb_evals, seed_size}
use mqom_rs.Crates.{Crates}
use mqom_rs.Xof.{shake128, length-shake128}
use mqom_rs.Field.Gf16.Element.{Gf16}
use mqom_rs.Field.Gf256x2.Element.{Gf256x2, encoded_len}
use mqom_rs.Field.Gf256x2.Lift.{lift}
use mqom_rs.Mq.{PackedEquation, equation_count, evaluate_base, domain}
use mqom_rs.Mq.Expand.{equation_at, no_equation, length-linear}
use mqom_rs.Blc.Commit.{SigningCommitment, commit, open_commitment}
use mqom_rs.Blc.Evaluate.{OpenedEvaluations, evaluate_opening}
use mqom_rs.Blc.Line.Sizes.{IsLineSized}
use mqom_rs.Blc.Line.Lists.{x_lines, u_lines}
use mqom_rs.Blc.Line.Accepted.{evaluate_opening-line, commit-IsLineSized}
use mqom_rs.Blc.Tree.{chunks}
use mqom_rs.Verify.{parse_rows, expand_equations, recompute_alpha_zero}
use mqom_rs.Verify.Reject.{equations_from, collect_equations_total, expand_equations_total}
use mqom_rs.Sign.{compute_alpha}
use mqom_rs.Sign as Sign
use mqom_rs.Sign.Batching.{rows_of, length-rows_of, parse_rows_total}
use mqom_rs.Sign.Equations.{AllLinear, z_zeros, z_ones, outputs_of}
use mqom_rs.Sign.Executions.{alphas, alpha_rows-alphas, alpha_executions-alphas}

module _ ⦃c : Crates⦄ where
  pub get_or-equations_from :
      (equation_seed : List U8) (index left j : ℕ)
      → j < left
      → get_or (equations_from equation_seed index left) j no_equation
        ≡ equation_at equation_seed (index + j)
  get_or-equations_from equation_seed index zero j lt = absurd (omega arith)
  get_or-equations_from equation_seed index (suc left) zero lt =
      ap (equation_at equation_seed) {x = index} {y = index + 0} (omega arith)
  get_or-equations_from equation_seed index (suc left) (suc j) lt =
      get_or-equations_from equation_seed (index + 1) left j (omega arith)
      ∙ ap (equation_at equation_seed) {x = index + 1 + j} {y = index + suc j} (omega arith)

  pub length-equations_from :
      (equation_seed : List U8) (index left : ℕ)
      → length (equations_from equation_seed index left) ≡ left
  length-equations_from equation_seed index zero = refl
  length-equations_from equation_seed index (suc left) =
      ap suc (length-equations_from equation_seed (index + 1) left)

  abbrev pub equations_of : List U8 → List PackedEquation
  equations_of equation_seed = equations_from equation_seed 0 equation_count

  equations_of-AllLinear : (equation_seed : List U8) → AllLinear (equations_of equation_seed)
  equations_of-AllLinear equation_seed j lt =
      ap (λ (q : PackedEquation). length q.linear)
        (get_or-equations_from equation_seed 0 equation_count j lt)
      ∙ length-linear equation_seed (0 + j) (omega (arith, lt))

  pub sign-expand_equations :
      (equation_seed : List U8)
      → Sign.expand_equations equation_seed ≡ some (equations_of equation_seed)
  unfolding Sign.expand_equations
  sign-expand_equations equation_seed =
      collect_equations_total equation_seed 0 equation_count (omega arith)

  -- The batching matrix that both sides read from the first commitment.
  abbrev batching_stream : List U8 → List U8
  batching_stream first_commitment =
      shake128 (domain 0x08 ∷ (first_commitment ∷ [])) (eta * equation_count * encoded_len)

  abbrev pub batching : List U8 → List (List Gf256x2)
  batching first_commitment = rows_of equation_count eta (batching_stream first_commitment)

  pub length-batching : (first_commitment : List U8) → length (batching first_commitment) ≡ eta
  length-batching first_commitment =
      length-rows_of equation_count eta (batching_stream first_commitment)

  parse_batching :
      (first_commitment : List U8)
      → parse_rows equation_count
          (chunks (equation_count * encoded_len) eta (batching_stream first_commitment))
        ≡ some (batching first_commitment)
  parse_batching first_commitment =
      parse_rows_total equation_count eta (batching_stream first_commitment) (
        length-shake128 (domain 0x08 ∷ (first_commitment ∷ []))
          (eta * equation_count * encoded_len))

  module _ (first_commitment equation_seed : List U8) (commitment : SigningCommitment)
      (secret : List Gf16) (secret_size : length secret ≡ mq_n)
      (sizes : IsLineSized commitment) where
    pub compute_alpha_lem :
        compute_alpha first_commitment commitment secret equation_seed
        ≡ some (
          alphas
              (batching first_commitment)
              (λ x. z_zeros (equations_of equation_seed) x)
              commitment.u_zero
              commitment.x_zero,
          alphas
              (batching first_commitment)
              (λ x. z_ones (equations_of equation_seed) x secret)
              commitment.u_one
              commitment.x_zero,
        )
    unfolding compute_alpha
    compute_alpha_lem = rw (
      parse_batching first_commitment,
      compute_alpha,
      sign-expand_equations equation_seed,
      alpha_rows-alphas (equations_of equation_seed) (batching first_commitment) secret
          (length-equations_from equation_seed 0 equation_count)
          (equations_of-AllLinear equation_seed) (length-batching first_commitment) secret_size
          commitment sizes.0 sizes.1 sizes.2 sizes.3 0 tau refl,
    )

    -- The verifier's recomputation at the points of the lines.
    pub recompute_alpha_zero_lem :
        (indices : List ℕ) (opened : OpenedEvaluations)
        → length indices ≡ tau
        → opened.x ≡ x_lines (map lift secret) indices commitment.x_zero
        → opened.u ≡ u_lines indices commitment.u_zero commitment.u_one
        → recompute_alpha_zero first_commitment
            (alphas
              (batching first_commitment)
              (λ x. z_ones (equations_of equation_seed) x secret)
              commitment.u_one
              commitment.x_zero)
            indices
            opened
            equation_seed
            (outputs_of (equations_of equation_seed) secret)
          ≡ some (
              alphas
                (batching first_commitment)
                (λ x. z_zeros (equations_of equation_seed) x)
                commitment.u_zero
                commitment.x_zero)
    unfolding recompute_alpha_zero
    recompute_alpha_zero_lem indices opened count x u = rw (
      parse_batching first_commitment,
      recompute_alpha_zero,
      expand_equations_total equation_seed,
      x,
      u,
      alpha_executions-alphas (equations_of equation_seed) (batching first_commitment) secret
          (length-equations_from equation_seed 0 equation_count)
          (equations_of-AllLinear equation_seed) (length-batching first_commitment) secret_size
          indices commitment.x_zero commitment.u_zero commitment.u_one (sizes.0 ∙ sym count)
          (sizes.1 ∙ sym count) (sizes.2 ∙ sym count) sizes.3 sizes.4 sizes.5,
    )

module _ ⦃c : Crates⦄ (master_seed salt : List U8) (secret : List Gf16)
    (master_size : length master_seed ≡ seed_size) (secret_size : length secret ≡ mq_n) where
  -- The signer computes alpha of whatever `commit` returns.
  pub compute_alpha_total :
      (equation_seed : List U8) (committed : SigningCommitment)
      → commit master_seed salt secret ≡ some committed
      → (alpha : List (List Gf256x2) × List (List Gf256x2)) × (compute_alpha committed.commitment
            committed secret equation_seed
          ≡ some alpha)
  compute_alpha_total equation_seed committed e = (
    _,
    compute_alpha_lem committed.commitment equation_seed committed secret secret_size
        (commit-IsLineSized master_seed salt secret master_size secret_size committed e),
  )

  -- For a master seed of 16 bytes, a secret vector of 56 elements, 12 hidden leaves, and the equations
  -- that the verifier expands from an equation seed: `compute_alpha` of the signer succeeds on what
  -- `commit` returns, `evaluate_opening` accepts the opening that `open` gives, and from these
  -- evaluations, the signer's alpha_one, and the outputs of the equations at the secret vector, the
  -- verifier's `recompute_alpha_zero` returns exactly the signer's alpha_zero.
  pub recompute_alpha_zero-compute_alpha :
      (equation_seed : List U8) (equations : List PackedEquation) (committed : SigningCommitment)
      (indices : List ℕ)
      → expand_equations equation_seed ≡ some equations
      → commit master_seed salt secret ≡ some committed
      → length indices ≡ tau
      → ((j : ℕ) → j < tau → get_or indices j 0 < nb_evals)
      → (opening : List U8) × (opened : OpenedEvaluations) × (alpha_zero : List (List Gf256x2))
        × (alpha_one : List (List Gf256x2)) × (open_commitment committed indices ≡ some opening)
        × (evaluate_opening salt committed.commitment opening indices ≡ some opened)
        × (compute_alpha committed.commitment committed secret equation_seed
            ≡ some (alpha_zero, alpha_one))
        × (recompute_alpha_zero committed.commitment alpha_one indices opened equation_seed
              (map (λ q. evaluate_base q secret) equations)
            ≡ some alpha_zero)
  recompute_alpha_zero-compute_alpha equation_seed equations committed indices expanded e size
        small =
      let (opening, opened, opens, _, evaluates, x, u) =
        evaluate_opening-line master_seed salt secret master_size secret_size committed indices e
          size small in
      let sizes = commit-IsLineSized master_seed salt secret master_size secret_size committed e in
      (
        opening,
        opened,
        alphas (batching committed.commitment) (λ x. z_zeros (equations_of equation_seed) x)
            committed.u_zero committed.x_zero,
        alphas (batching committed.commitment) (λ x. z_ones (equations_of equation_seed) x secret)
            committed.u_one committed.x_zero,
        opens,
        evaluates,
        compute_alpha_lem committed.commitment equation_seed committed secret secret_size sizes,
        ap
              (λ (qs : List PackedEquation).
                recompute_alpha_zero committed.commitment
                  (alphas (batching committed.commitment)
                    (λ x. z_ones (equations_of equation_seed) x secret) committed.u_one
                    committed.x_zero)
                  indices opened equation_seed (outputs_of qs secret))
              (some_inj (sym expanded ∙ expand_equations_total equation_seed))
            ∙ recompute_alpha_zero_lem committed.commitment equation_seed committed secret
                secret_size sizes indices opened size x u,
      )
