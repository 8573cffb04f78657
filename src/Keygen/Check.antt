-- ===== src/Keygen/Check.antt =====
-- `secret_key_is_consistent`: what it decides, and that generated keys pass.
use mqom_rs.Base.{
  ℕ, zero, suc, ◌+◌, ◌*◌, ◌≤◌, ◌<◌, ◌≡◌, ◌↔◌, refl, sym, ap, ap₂, ◌∙◌, arith, U8, Option, none,
  some, List, ◌++◌, length, take, drop, slice, Bool, true, false, ◌&&◌, length-take, length-drop,
}
use mathlib.Core.Path.{subst}
use native.Mathlib.Decide.{dec_lt}
use mqom_rs.Bytes.{try_into-some}
use mqom_rs.Params.{public_key_size, secret_key_size}
use mqom_rs.Crates.{Crates}
use mqom_rs.Field.Packing.Laws.{halves}
use mqom_rs.Field.Gf16.Element.{Gf16}
use mqom_rs.Mq.{equation_count}
use mqom_rs.Mq.Expand.{expand_equation-some}
use mqom_rs.Keygen.{keygen_seed_size, matches_loop, secret_key_check, secret_key_is_consistent}
use mqom_rs.Keygen.Outputs.{output_at, outputs}
use mqom_rs.Keygen.Generate.{unpack_secret}

-- The two bytes of output `i` in a secret key.
abbrev pub observed_at : List U8 → ℕ → List U8
observed_at secret_key i =
    slice (keygen_seed_size + i * 2) (keygen_seed_size + i * 2 + 2) secret_key

unwrap : (b : Bool) → some b ≡ some true → b ≡ true
unwrap b e = ground arith

module _ ⦃c : Crates⦄ where
  -- The outputs from `i` on, `left` of them, are those in the key.
  abbrev Matches : List U8 → List U8 → List Gf16 → ℕ → ℕ → Type 0
  Matches secret_key master_seed secret i left =
      (j : ℕ) → i ≤ j → j < i + left → output_at master_seed secret j ≡ observed_at secret_key j

  Matches-suc :
      (secret_key master_seed : List U8) (secret : List Gf16) (i left : ℕ)
      → output_at master_seed secret i ≡ observed_at secret_key i
      → Matches secret_key master_seed secret (i + 1) left
      → Matches secret_key master_seed secret i (suc left)
  Matches-suc secret_key master_seed secret i left first rest j lo hi = elim (dec_lt i j) [
    | yes later ↦ rest j (omega arith) (omega arith)
    | no here ↦
        let e : i ≡ j = omega arith in
        subst (λ k. output_at master_seed secret k ≡ observed_at secret_key k) e first
  ]

  -- One round, given what the later rounds decide.
  one_round :
      (secret_key master_seed : List U8) (secret : List Gf16) (i left : ℕ) (matches : Bool)
      → let same = c.ct_eq (output_at master_seed secret i) (observed_at secret_key i) in
        let later = matches_loop secret_key master_seed secret (i + 1) left (matches && same) in
        ((later ≡ some true)
          ↔ ((matches && same ≡ true) × Matches secret_key master_seed secret (i + 1) left))
        → (later ≡ some true)
          ↔ ((matches ≡ true) × Matches secret_key master_seed secret i (suc left))
  one_round secret_key master_seed secret i left matches rest = (forth, back)
    where
      same : Bool
      same = c.ct_eq (output_at master_seed secret i) (observed_at secret_key i)

      same_iff : (same ≡ true) ↔ (output_at master_seed secret i ≡ observed_at secret_key i)
      same_iff = c.ct_eq_iff (output_at master_seed secret i) (observed_at secret_key i)

      forth :
          matches_loop secret_key master_seed secret (i + 1) left (matches && same) ≡ some true
          → (matches ≡ true) × Matches secret_key master_seed secret i (suc left)
      forth e =
          let (both, later) = rest.0 e in
          let parts : (matches ≡ true) × (same ≡ true) = ground arith in
          (parts.0, Matches-suc secret_key master_seed secret i left (same_iff.0 parts.1) later)

      back :
          (matches ≡ true) × Matches secret_key master_seed secret i (suc left)
          → matches_loop secret_key master_seed secret (i + 1) left (matches && same) ≡ some true
      back p =
          let this : same ≡ true = same_iff.1 (p.1 i (omega arith) (omega arith)) in
          rest.1 (ap₂ ◌&&◌ p.0 this, λ j lo hi. p.1 j (omega arith) (omega arith))

  matches_loop_iff :
      (secret_key master_seed : List U8) (secret : List Gf16) (i left : ℕ) (matches : Bool)
      → i + left ≤ equation_count
      → (matches_loop secret_key master_seed secret i left matches ≡ some true)
        ↔ ((matches ≡ true) × Matches secret_key master_seed secret i left)
  unfolding matches_loop
  matches_loop_iff secret_key master_seed secret i zero matches h =
      (λ e. (unwrap matches e, λ j lo hi. absurd (omega arith)), λ p. ap some p.0)
  matches_loop_iff secret_key master_seed secret i (suc left) matches h =
      rw (expand_equation-some master_seed i (omega arith), matches_loop)
        (one_round secret_key master_seed secret i left matches (
          matches_loop_iff secret_key master_seed secret (i + 1) left
            (matches && c.ct_eq (output_at master_seed secret i) (observed_at secret_key i))
            (omega arith)))

  -- The loop that the check of a key of the right length runs.
  check_loop :
      (secret_key : List U8)
      → length secret_key ≡ secret_key_size
      → secret_key_check secret_key
        ≡ matches_loop secret_key
            (take keygen_seed_size secret_key)
            (halves (drop public_key_size secret_key))
            0
            equation_count
            true
  unfolding secret_key_check
  check_loop secret_key e = rw (
    try_into-some keygen_seed_size (take keygen_seed_size secret_key)
        (omega (arith, length-take keygen_seed_size secret_key)),
    secret_key_check,
    unpack_secret (drop public_key_size secret_key)
        (omega (arith, length-drop public_key_size secret_key)),
  )

  is_true :
      (secret_key : List U8)
      → (secret_key_is_consistent secret_key ≡ true) ↔ (secret_key_check secret_key ≡ some true)
  unfolding secret_key_is_consistent
  is_true secret_key = go (secret_key_check secret_key)
    where
      go : (o : Option Bool) → (elim o [ none ↦ false | some b ↦ b ] ≡ true) ↔ (o ≡ some true)
      go none = (λ e. cc, λ e. cc)
      go (some b) = (λ e. ap some e, unwrap b)

  -- A secret key of the right length is consistent exactly when each encoded output in it is that
  -- of its equation at its secret vector.
  pub secret_key_is_consistent_iff :
      (secret_key : List U8)
      → length secret_key ≡ secret_key_size
      → (secret_key_is_consistent secret_key ≡ true) ↔ (
          (j : ℕ)
          → j < equation_count
          → output_at
              (take keygen_seed_size secret_key)
              (halves (drop public_key_size secret_key))
              j
            ≡ observed_at secret_key j)
  secret_key_is_consistent_iff secret_key e = (
    λ h j lt.
        (loop_iff.0 (sym (check_loop secret_key e) ∙ (is_true secret_key).0 h)).1 j (omega arith)
          (omega arith),
    λ h.
        (is_true secret_key).1
          (check_loop secret_key e ∙ loop_iff.1 (refl, λ j lo hi. h j (omega arith))),
  )
    where
      master_seed : List U8
      master_seed = take keygen_seed_size secret_key

      secret : List Gf16
      secret = halves (drop public_key_size secret_key)

      loop_iff :
          (matches_loop secret_key master_seed secret 0 equation_count true ≡ some true)
          ↔ ((true ≡ true) × Matches secret_key master_seed secret 0 equation_count)
      loop_iff = matches_loop_iff secret_key master_seed secret 0 equation_count true (omega arith)

  pub outputs-at :
      (master_seed : List U8) (secret : List Gf16) (i left j : ℕ) (rest : List U8)
      → j < left
      → take 2 (drop (j + j) (outputs master_seed secret i left ++ rest))
        ≡ output_at master_seed secret (i + j)
  outputs-at master_seed secret i zero j rest h = absurd (omega arith)
  outputs-at master_seed secret i (suc left) zero rest h =
      ap (output_at master_seed secret) {x = i} {y = i + 0} (omega arith)
  outputs-at master_seed secret i (suc left) (suc j) rest h =
      ap (λ k. take 2 (drop k (outputs master_seed secret i (suc left) ++ rest)))
        {x = suc j + suc j} {y = suc (suc (j + j))} (omega arith)
      ∙ outputs-at master_seed secret (i + 1) left j rest (omega arith)
      ∙ ap (output_at master_seed secret) {x = i + 1 + j} {y = i + suc j} (omega arith)
