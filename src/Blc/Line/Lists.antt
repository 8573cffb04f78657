-- ===== src/Blc/Line/Lists.antt =====
-- The lines of all executions as lists, and the digest over all executions on both sides.
use mqom_rs.Base.{
  ℕ, suc, ◌+◌, ◌-◌, ◌*◌, ◌≤◌, ◌<◌, ◌≡◌, refl, sym, ap, ap₂, ◌∙◌, arith, U8, List, [], ◌∷◌, ◌++◌,
  map, length, take, drop, slice, get_or, drop_all, take-append-drop,
}
use mqom_rs.Bytes.Slices.{drop-drop}
use mqom_rs.Params.{tau, opening_size}
use mqom_rs.Crates.{Crates}
use mqom_rs.Xof.{Shake128State, joined, absorb, absorb_all, absorb_all-joined, new_state, squeeze}
use mqom_rs.Mq.{domain}
use mqom_rs.Field.Gf256x2.Element.{Gf256x2}
use mqom_rs.Field.Gf256x2.Laws.{gf256x2_ring}
use mqom_rs.Mq.Vectors.{vadd, vscale}
use mqom_rs.Blc.{base_vector_size, commitment_size}
use mqom_rs.Blc.Tree.{Nodes}
use mqom_rs.Blc.Commit.{Committed, outer_hash, partial_deltas_offset}
use mqom_rs.Blc.Commit.Leaves.{AllSeeds}
use mqom_rs.Blc.Evaluate.{Evaluated}
use mqom_rs.Verify.{evaluation_point}
use mqom_rs.Blc.Line.All.{OnLines, committed_all, later_seeds, later_fits}

-- The lines of all executions, each at the point of its hidden index.
abbrev pub x_lines : List Gf256x2 → List ℕ → List (List Gf256x2) → List (List Gf256x2)
x_lines secret [] x_zero = []
x_lines secret (h ∷ indices) [] = []
x_lines secret (h ∷ indices) (x ∷ x_zero) =
    vadd x (vscale (evaluation_point h) secret) ∷ x_lines secret indices x_zero

abbrev pub u_lines : List ℕ → List (List Gf256x2) → List (List Gf256x2) → List (List Gf256x2)
u_lines [] u_zero u_one = []
u_lines (h ∷ indices) [] u_one = []
u_lines (h ∷ indices) (u ∷ u_zero) [] = []
u_lines (h ∷ indices) (u ∷ u_zero) (v ∷ u_one) =
    vadd u (vscale (evaluation_point h) v) ∷ u_lines indices u_zero u_one

module _ ⦃c : Crates⦄ where
  -- Consecutive slices of 12 bytes, up to the end.
  drop-joined :
      (parts : List (List U8)) (offset : ℕ) (bytes : List U8)
      → length bytes ≡ offset + length parts * 12
      → ((j : ℕ)
          → j < length parts
          → slice (offset + j * 12) (offset + j * 12 + 12) bytes ≡ get_or parts j [])
      → drop offset bytes ≡ joined parts
  drop-joined [] offset bytes e same = drop_all offset bytes (omega arith)
  drop-joined (p ∷ parts) offset bytes e same =
      sym (take-append-drop 12 (drop offset bytes))
      ∙ ap₂ ◌++◌
          (ap (λ k. take k (drop offset bytes)) {x = 12} {y = offset + 12 - offset} (omega arith)
            ∙ ap (λ o. slice o (o + 12) bytes) {x = offset} {y = offset + 0 * 12} (omega arith)
            ∙ same 0 (omega arith))
          (drop-drop 12 offset bytes
            ∙ drop-joined parts (offset + 12) bytes (omega arith) λ j lt.
              ap (λ o. slice o (o + 12) bytes) {x = offset + 12 + j * 12} {y = offset + suc j * 12}
                (omega arith)
              ∙ same (suc j) (omega arith))

  -- The end of an honest opening is hashed as the partial deltas are.
  pub outer_hash-drop :
      (leaf_hashes parts : List (List U8)) (opening : List U8)
      → length parts ≡ tau
      → length opening ≡ opening_size
      → ((j : ℕ)
          → j < tau
          → slice (partial_deltas_offset + j * 12) (partial_deltas_offset + j * 12 + 12) opening
            ≡ get_or parts j [])
      → outer_hash leaf_hashes (drop partial_deltas_offset opening ∷ [])
        ≡ outer_hash leaf_hashes parts
  unfolding outer_hash absorb_all
  outer_hash-drop leaf_hashes parts opening count size same =
      ap (λ s. squeeze s commitment_size)
        (ap (absorb state) (
            drop-joined parts partial_deltas_offset opening (omega (arith, count, size))
              λ j lt. same j (omega (arith, lt, count)))
          ∙ sym (absorb_all-joined state parts))
    where
      state : Shake128State
      state = absorb_all (absorb new_state (domain 0x07)) leaf_hashes

  pub OnLines-maps :
      (secret : List Gf256x2) (indices : List ℕ) (all : List Committed) (found : List Evaluated)
      → OnLines secret indices all found
      → (map (λ (v : Evaluated). v.leaf_commitment_hash) found
          ≡ map (λ (k : Committed). k.leaf_commitment_hash) all)
        × (map (λ (v : Evaluated). v.x) found
            ≡ x_lines secret indices (map (λ (k : Committed). k.x_zero) all))
        × (map (λ (v : Evaluated). v.u) found
            ≡ u_lines indices
                (map (λ (k : Committed). k.u_zero) all)
                (map (λ (k : Committed). k.u_one) all))
  unfolding evaluation_point
  OnLines-maps secret [] [] [] lines = (refl, refl, refl)
  OnLines-maps secret (h ∷ indices) (k ∷ all) (v ∷ found) lines =
      let later = OnLines-maps secret indices all found lines.3 in
      (ap₂ ◌∷◌ lines.0 later.0, ap₂ ◌∷◌ lines.1 later.1, ap₂ ◌∷◌ lines.2 later.2)
  OnLines-maps secret [] [] (v ∷ found) lines = absurd lines
  OnLines-maps secret [] (k ∷ all) found lines = absurd lines
  OnLines-maps secret (h ∷ indices) [] found lines = absurd lines
  OnLines-maps secret (h ∷ indices) (k ∷ all) [] lines = absurd lines

  pub length-committed_all :
      (salt serialized : List U8) (e : length serialized ≡ base_vector_size) (execution : ℕ)
      (root_seeds : Nodes) (seeds : AllSeeds root_seeds)
      (fits : execution + length root_seeds ≤ tau)
      → length (committed_all salt serialized e execution root_seeds seeds fits) ≡ length root_seeds
  length-committed_all salt serialized e execution [] seeds fits = refl
  length-committed_all salt serialized e execution (root ∷ root_seeds) seeds fits = ap suc (
      length-committed_all salt serialized e (execution + 1) root_seeds
        (later_seeds root root_seeds seeds) (later_fits execution (length root_seeds) fits))
