-- ===== src/Blc/Line/Sizes.antt =====
-- The sizes of what `commit` keeps of each execution.
use mqom_rs.Base.{ℕ, zero, suc, ◌+◌, ◌≤◌, ◌<◌, ◌≡◌, arith, U8, List, [], ◌∷◌, map, length, get_or}
use mqom_rs.Bytes.{length-filled}
use mqom_rs.Params.{digest_size, mq_n, eta, tau}
use mqom_rs.Crates.{Crates}
use mqom_rs.Field.Gf256x2.Element.{Gf256x2}
use mqom_rs.Field.Gf256x2.Element as Gf256x2
use mqom_rs.Blc.{base_vector_size}
use mqom_rs.Blc.Tree.{Nodes}
use mqom_rs.Blc.Commit.{Committed, SigningCommitment}
use mqom_rs.Blc.Commit.Leaves.{AllSeeds}
use mqom_rs.Blc.Line.Functional.{base_part, mask_part, base_part-IsLinear, mask_part-IsLinear}
use mqom_rs.Blc.Line.Folding.{length-fold_onto}
use mqom_rs.Blc.Line.Execution.{Run, run_at, committed, honest}
use mqom_rs.Blc.Line.All.{committed_all, later_seeds, later_fits, first_block, first_small}

-- All rows of a list have a given length.
abbrev pub AllRows : ℕ → List (List Gf256x2) → Type 0
AllRows n rows = (j : ℕ) → j < length rows → length (get_or rows j []) ≡ n

AllRows-cons :
    (n : ℕ) (row : List Gf256x2) (rows : List (List Gf256x2))
    → length row ≡ n
    → AllRows n rows
    → AllRows n (row ∷ rows)
AllRows-cons n row rows e sized zero lt = e
AllRows-cons n row rows e sized (suc j) lt = sized j (omega (arith, lt))

-- The sizes of a commitment.
abbrev pub IsLineSized : ⦃c : Crates⦄ → SigningCommitment → Type 0
IsLineSized commitment =
    (length commitment.x_zero ≡ tau)
    × (length commitment.u_zero ≡ tau)
    × (length commitment.u_one ≡ tau)
    × AllRows mq_n commitment.x_zero
    × AllRows eta commitment.u_zero
    × AllRows eta commitment.u_one
    × (length commitment.commitment ≡ digest_size)
    × (length commitment.root_seeds ≡ tau)
    × (length commitment.partial_deltas ≡ tau)

module _ ⦃c : Crates⦄ where
  committed-sizes :
      (run : Run)
      → (length (committed run).x_zero ≡ mq_n)
        × (length (committed run).u_zero ≡ eta)
        × (length (committed run).u_one ≡ eta)
  committed-sizes run =
      let done = honest run in
      (
        length-fold_onto base_part mq_n base_part-IsLinear done.0.folding 0 _ done.2.0.2
            (length-filled mq_n Gf256x2.zero),
        length-fold_onto mask_part eta mask_part-IsLinear done.0.folding 0 _ done.2.0.2
            (length-filled eta Gf256x2.zero),
        mask_part-IsLinear.sized done.0.accumulator done.2.0.0,
      )

module _ ⦃c : Crates⦄ (salt serialized : List U8)
    (serialized_size : length serialized ≡ base_vector_size) where
  pub committed_all-sizes :
      (execution : ℕ) (root_seeds : Nodes) (seeds : AllSeeds root_seeds)
      (fits : execution + length root_seeds ≤ tau)
      → AllRows mq_n (
          map
            (λ (k : Committed). k.x_zero)
            (committed_all salt serialized serialized_size execution root_seeds seeds fits))
        × AllRows eta (
            map
              (λ (k : Committed). k.u_zero)
              (committed_all salt serialized serialized_size execution root_seeds seeds fits))
        × AllRows eta (
            map
              (λ (k : Committed). k.u_one)
              (committed_all salt serialized serialized_size execution root_seeds seeds fits))
  committed_all-sizes execution [] seeds fits =
      (λ j lt. absurd (omega arith), λ j lt. absurd (omega arith), λ j lt. absurd (omega arith))
  committed_all-sizes execution (root ∷ root_seeds) seeds fits =
      let this = committed-sizes (
        run_at salt serialized serialized_size root execution (first_block root root_seeds seeds)
          (first_small execution (length root_seeds) fits)) in
      let later =
        committed_all-sizes (execution + 1) root_seeds (later_seeds root root_seeds seeds)
          (later_fits execution (length root_seeds) fits) in
      (
        AllRows-cons _ _ _ this.0 later.0,
        AllRows-cons _ _ _ this.1 later.1,
        AllRows-cons _ _ _ this.2 later.2,
      )
