-- ===== src/Keygen/Outputs.antt =====
-- The loop of key generation writes the outputs of the equations, one after the other.
use mqom_rs.Base.{
  ℕ, zero, suc, ◌+◌, ◌*◌, ◌≤◌, ◌≡◌, refl, sym, ap, ◌∙◌, arith, U8, some, List, [], ◌∷◌, ◌++◌,
  length, take, drop, length-append, length-take, length-drop, drop-append,
}
use mathlib.Core.List.{append_assoc}
use mqom_rs.Bytes.{write_at-append}
use mqom_rs.Params.{public_key_size}
use mqom_rs.Crates.{Crates}
use mqom_rs.Xof.{shake128, length-shake128}
use mqom_rs.Field.Packing.Laws.{halves}
use mqom_rs.Field.Gf16.Element.{Gf16}
use mqom_rs.Mq.{equation_count, evaluate_base, domain}
use mqom_rs.Mq.Expand.{equation_at, expand_equation-some}
use mqom_rs.Keygen.{keygen_seed_size, secret_vector_size, expansion_size, byte_array, output_loop}

pub drop_exactly : (n : ℕ) (xs ys : List U8) → length xs ≡ n → drop n (xs ++ ys) ≡ ys
drop_exactly n xs ys e = ap (λ k. drop k (xs ++ ys)) (sym e) ∙ drop-append xs ys

module _ ⦃c : Crates⦄ where
  -- The encoded output of equation `i` at a secret vector.
  abbrev pub output_at : List U8 → List Gf16 → ℕ → List U8
  output_at master_seed secret i = byte_array (evaluate_base (equation_at master_seed i) secret)

  abbrev pub outputs : List U8 → List Gf16 → ℕ → ℕ → List U8
  outputs master_seed secret i zero = []
  outputs master_seed secret i (suc left) =
      output_at master_seed secret i ++ outputs master_seed secret (i + 1) left

  pub length-outputs :
      (master_seed : List U8) (secret : List Gf16) (i left : ℕ)
      → length (outputs master_seed secret i left) ≡ left + left
  length-outputs master_seed secret i zero = refl
  length-outputs master_seed secret i (suc left) =
      omega (arith, length-outputs master_seed secret (i + 1) left)

  pub output_loop-outputs :
      (master_seed : List U8) (secret : List Gf16) (i left : ℕ) (before after : List U8)
      → length before ≡ keygen_seed_size + i * 2
      → length after ≡ left + left
      → i + left ≤ equation_count
      → output_loop master_seed secret i left (before ++ after)
        ≡ some (before ++ outputs master_seed secret i left)
  unfolding output_loop
  output_loop-outputs master_seed secret i zero before [] e f h = refl
  output_loop-outputs master_seed secret i zero before (x ∷ after) e f h = absurd (omega arith)
  output_loop-outputs master_seed secret i (suc left) before [] e f h = absurd (omega arith)
  output_loop-outputs master_seed secret i (suc left) before (x ∷ []) e f h = absurd (omega arith)
  output_loop-outputs master_seed secret i (suc left) before (x ∷ (y ∷ after)) e f h =
      rw (expand_equation-some master_seed i (omega arith), output_loop, sym e)
        (ap (output_loop master_seed secret (i + 1) left) (
            write_at-append before (x ∷ y ∷ []) after (output_at master_seed secret i) refl
            ∙ sym (append_assoc before (output_at master_seed secret i) after))
          ∙ output_loop-outputs master_seed secret (i + 1) left
              (before ++ output_at master_seed secret i) after
              (omega (arith, length-append before (output_at master_seed secret i))) (omega arith)
              (omega arith)
          ∙ ap some (append_assoc before (output_at master_seed secret i) _))

  -- What a seed expands to.
  abbrev pub expansion_of : List U8 → List U8
  expansion_of seed = shake128 (domain 0x00 ∷ (seed ∷ [])) expansion_size

  abbrev pub packed_secret : List U8 → List U8
  packed_secret seed = take secret_vector_size (expansion_of seed)

  abbrev pub master_seed_of : List U8 → List U8
  master_seed_of seed = drop secret_vector_size (expansion_of seed)

  -- The master seed, and the outputs of all equations at the secret vector.
  abbrev pub public_key_of : List U8 → List U8
  public_key_of seed =
      master_seed_of seed
      ++ outputs (master_seed_of seed) (halves (packed_secret seed)) 0 equation_count

  pub sizes :
      (seed : List U8) → (length (packed_secret seed) ≡ 28) × (length (master_seed_of seed) ≡ 32)
  sizes seed = (
    omega (
      arith,
      length-take 28 (expansion_of seed),
      length-shake128 (domain 0x00 ∷ (seed ∷ [])) expansion_size,
    ),
    omega (
      arith,
      length-drop 28 (expansion_of seed),
      length-shake128 (domain 0x00 ∷ (seed ∷ [])) expansion_size,
    ),
  )

  pub length-public_key_of : (seed : List U8) → length (public_key_of seed) ≡ public_key_size
  length-public_key_of seed =
      length-append (master_seed_of seed) _
      ∙ omega (
        arith,
        sizes seed,
        length-outputs (master_seed_of seed) (halves (packed_secret seed)) 0 14,
      )
