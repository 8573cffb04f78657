-- ===== src/Blc/Line/Accepted.antt =====
-- The contract of src/blc.rs between `commit`, `open` and `evaluate_opening`.
use mqom_rs.Base.{
  ℕ, ◌<◌, ◌≡◌, refl, sym, ap, ◌∙◌, arith, U8, some, List, map, length, take, get_or, some_inj,
}
use mathlib.Core.Path.{subst}
use mqom_rs.Bytes.{filled, length-filled}
use mqom_rs.Params.{mq_n, tau, nb_evals, seed_size, salt_size, opening_size}
use mqom_rs.Crates.{Crates}
use mqom_rs.Prg.Stream.{fill_total}
use mqom_rs.Field.Packing.{zero_byte}
use mqom_rs.Field.Packing.Laws.{
  packed, length-packed, pack_gf16-eq_packed, halves, unpack_gf16-packed, unpack_gf16-eq_halves,
}
use mqom_rs.Field.Gf16.Element.{Gf16}
use mqom_rs.Field.Gf16.Element as Gf16
use mqom_rs.Field.Gf256x2.Lift.{lift}
use mqom_rs.Blc.{base_vector_size}
use mqom_rs.Blc.Tree.{chunks}
use mqom_rs.Blc.Commit.{SigningCommitment, commit, open_commitment, root_seeds_size}
use mqom_rs.Blc.Commit.Leaves.{length-chunks, chunks-AllSeeds}
use mqom_rs.Blc.Evaluate.{OpenedEvaluations, evaluate_opening}
use mqom_rs.Blc.Line.All.{commit_executions_lem}
use mqom_rs.Blc.Line.Sizes.{IsLineSized}
use mqom_rs.Blc.Line.Lists.{x_lines, u_lines}
use mqom_rs.Blc.Line.Batch.{Batch, self, self-IsLineSized, fits}
use mqom_rs.Blc.Line.Total.{opened_lem}

halves-packed :
    (elements : List Gf16) → length elements ≡ mq_n → halves (packed elements) ≡ elements
halves-packed elements e =
    ap (λ p. p.1)
      (sym (
          unpack_gf16-eq_halves (packed elements) output (omega (arith, size))
            (omega (arith, size, e, length-packed elements)))
        ∙ unpack_gf16-packed elements output (omega (arith, size)) (size ∙ sym e))
  where
    output : List Gf16
    output = filled mq_n Gf16.zero

    size : length output ≡ mq_n
    size = length-filled mq_n Gf16.zero

module _ ⦃c : Crates⦄ (master_seed salt : List U8) (secret : List Gf16)
    (master_size : length master_seed ≡ seed_size) (secret_size : length secret ≡ mq_n) where
  -- What the claims about an opening say of one commitment.
  abbrev Contract : List Gf16 → SigningCommitment → List ℕ → Type 0
  Contract elements committed indices =
      (opening : List U8) × (opened : OpenedEvaluations) × (open_commitment committed indices
        ≡ some opening)
      × (length opening ≡ opening_size)
      × (evaluate_opening salt committed.commitment opening indices ≡ some opened)
      × (opened.x ≡ x_lines (map lift elements) indices committed.x_zero)
      × (opened.u ≡ u_lines indices committed.u_zero committed.u_one)

  -- The commitment, its sizes, and what it promises.
  pub committed_lem :
      (committed : SigningCommitment) × (commit master_seed salt secret ≡ some committed)
      × IsLineSized committed
      × ((committed.salt ≡ salt) × (committed.delta ≡ take seed_size (packed secret)))
      × ((indices : List ℕ)
          → length indices ≡ tau
          → ((j : ℕ) → j < tau → get_or indices j 0 < nb_evals)
          → Contract secret committed indices)
  unfolding commit
  committed_lem =
      let bytes = packed secret in
      let bytes_size : length bytes ≡ base_vector_size =
        omega (arith, length-packed secret, secret_size) in
      let (stream, filled_seeds, stream_size) =
        fill_total (filled salt_size zero_byte) 0 master_seed (filled root_seeds_size zero_byte)
          master_size (omega (arith, length-filled root_seeds_size zero_byte)) in
      let root_seeds = chunks seed_size tau stream in
      let seeds =
        chunks-AllSeeds tau stream
          (omega (arith, stream_size, length-filled root_seeds_size zero_byte)) in
      let batch : Batch = record {
        salt = salt;
        serialized = bytes;
        root_seeds = root_seeds;
        serialized_size = bytes_size;
        seeds = seeds;
        count = length-chunks seed_size tau stream;
      } in
      (
        self batch,
        rw (
          pack_gf16-eq_packed secret (filled base_vector_size zero_byte)
              (omega (arith, secret_size))
              (omega (arith, secret_size, length-filled base_vector_size zero_byte)),
          commit,
          filled_seeds,
          commit_executions_lem salt bytes bytes_size 0 root_seeds seeds (fits batch),
        ),
        self-IsLineSized batch,
        (refl, refl),
        λ indices size small.
            subst (λ (elements : List Gf16). Contract elements (self batch) indices)
              (halves-packed secret secret_size) (opened_lem batch indices size small),
      )

  -- For a master seed of 16 bytes and a secret vector of 56 elements, and for 12 hidden leaves, `open`
  -- succeeds on what `commit` returns, with an opening of the size of the profile, and
  -- `evaluate_opening` accepts it against the commitment. It evaluates the committed lines at the points
  -- of the hidden leaves: x is x_zero plus the point times the secret vector, and u is u_zero plus the
  -- point times u_one, in every execution.
  pub evaluate_opening-line :
      (committed : SigningCommitment) (indices : List ℕ)
      → commit master_seed salt secret ≡ some committed
      → length indices ≡ tau
      → ((j : ℕ) → j < tau → get_or indices j 0 < nb_evals)
      → (opening : List U8) × (opened : OpenedEvaluations) × (open_commitment committed indices
          ≡ some opening)
        × (length opening ≡ opening_size)
        × (evaluate_opening salt committed.commitment opening indices ≡ some opened)
        × (opened.x ≡ x_lines (map lift secret) indices committed.x_zero)
        × (opened.u ≡ u_lines indices committed.u_zero committed.u_one)
  evaluate_opening-line committed indices e size small =
      subst (λ (k : SigningCommitment). Contract secret k indices)
        (some_inj (sym committed_lem.1 ∙ e)) (committed_lem.4 indices size small)

  -- The sizes of what `commit` returns.
  pub commit-IsLineSized :
      (committed : SigningCommitment)
      → commit master_seed salt secret ≡ some committed
      → IsLineSized committed
  commit-IsLineSized committed e =
      subst (λ (k : SigningCommitment). IsLineSized k) (some_inj (sym committed_lem.1 ∙ e))
        committed_lem.2
