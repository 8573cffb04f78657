-- ===== src/Keygen/Generated.antt =====
-- Generated secret keys pass the check that is made on import.
use mqom_rs.Base.{
  ℕ, ◌+◌, ◌-◌, ◌*◌, ◌<◌, ◌≡◌, sym, ap, ap₂, ◌∙◌, arith, U8, some, List, ◌++◌, length, take, drop,
  true, length-append,
}
use mathlib.Core.Path.{subst}
use mathlib.Core.List.{append_assoc}
use mqom_rs.Bytes.{drop_past}
use mqom_rs.Params.{public_key_size, secret_key_size}
use mqom_rs.Bytes.Slices.{take_exactly}
use mqom_rs.Crates.{Crates}
use mqom_rs.Field.Packing.Laws.{halves}
use mqom_rs.Mq.{equation_count}
use mqom_rs.Keygen.{keygen_seed_size, secret_key_is_consistent, keypair_from_seed}
use mqom_rs.Keygen.Outputs.{
  output_at, outputs, drop_exactly, packed_secret, master_seed_of, public_key_of, sizes,
  length-public_key_of,
}
use mqom_rs.Keygen.Generate.{keypair_from_seed_total}
use mqom_rs.Keygen.Check.{observed_at, secret_key_is_consistent_iff, outputs-at}

unwrap_pair {ℓ} : {A : Type ℓ} (x y : A) → some x ≡ some y → x ≡ y
unwrap_pair x y e = ground arith

module _ ⦃c : Crates⦄ (seed : List U8) where
  abbrev secret_key_of : List U8
  secret_key_of = public_key_of seed ++ packed_secret seed

  abbrev all_outputs : List U8
  all_outputs = outputs (master_seed_of seed) (halves (packed_secret seed)) 0 equation_count

  regroup : secret_key_of ≡ master_seed_of seed ++ (all_outputs ++ packed_secret seed)
  regroup = append_assoc (master_seed_of seed) all_outputs (packed_secret seed)

  observed-output :
      (j : ℕ)
      → j < equation_count
      → observed_at secret_key_of j
        ≡ output_at (master_seed_of seed) (halves (packed_secret seed)) j
  observed-output j h =
      ap (λ k. take k (drop (keygen_seed_size + j * 2) secret_key_of))
        {x = keygen_seed_size + j * 2 + 2 - (keygen_seed_size + j * 2)} {y = 2} (omega arith)
      ∙ ap₂ (λ k xs. take 2 (drop k xs)) {x = keygen_seed_size + j * 2}
          {y = length (master_seed_of seed) + (j + j)} (omega (arith, sizes seed)) regroup
      ∙ ap (take 2) (drop_past (master_seed_of seed) (all_outputs ++ packed_secret seed) (j + j))
      ∙ outputs-at (master_seed_of seed) (halves (packed_secret seed)) 0 equation_count j
          (packed_secret seed) h
      ∙ ap (output_at (master_seed_of seed) (halves (packed_secret seed))) {x = 0 + j} {y = j}
          (omega arith)

  length_secret : length secret_key_of ≡ secret_key_size
  length_secret =
      length-append (public_key_of seed) (packed_secret seed)
      ∙ omega (arith, length-public_key_of seed, sizes seed)

  consistent : secret_key_is_consistent secret_key_of ≡ true
  consistent = (secret_key_is_consistent_iff secret_key_of length_secret).1 λ j h.
      ap₂ (λ m s. output_at m (halves s) j)
        (ap (take keygen_seed_size) regroup
          ∙ take_exactly keygen_seed_size (master_seed_of seed) (all_outputs ++ packed_secret seed)
              (sizes seed).1)
        (drop_exactly public_key_size (public_key_of seed) (packed_secret seed)
          (length-public_key_of seed))
      ∙ sym (observed-output j h)

  -- Whenever `keypair_from_seed` returns a pair, both keys have the sizes of the profile, the secret
  -- key begins with the public key, and it passes `secret_key_is_consistent`.
  pub keypair_from_seed-IsConsistent :
      (secret_key public_key : List U8)
      → keypair_from_seed seed ≡ some (secret_key, public_key)
      → (length secret_key ≡ secret_key_size)
        × (length public_key ≡ public_key_size)
        × (take public_key_size secret_key ≡ public_key)
        × (secret_key_is_consistent secret_key ≡ true)
  keypair_from_seed-IsConsistent secret_key public_key e =
      subst
        (λ (p : List U8 × List U8).
          (length p.0 ≡ secret_key_size)
          × (length p.1 ≡ public_key_size)
          × (take public_key_size p.0 ≡ p.1)
          × (secret_key_is_consistent p.0 ≡ true))
        (unwrap_pair (secret_key_of, public_key_of seed) (secret_key, public_key)
          (sym (keypair_from_seed_total seed) ∙ e))
        (
          length_secret,
          length-public_key_of seed,
          take_exactly public_key_size (public_key_of seed) (packed_secret seed)
              (length-public_key_of seed),
          consistent,
        )
