-- ===== src/Keygen/Tests.antt =====
-- The theorems of src/keygen.rs at the concrete crates.
use mqom_rs.Base.{ℕ, ◌<◌, ◌≡◌, ◌↔◌, true, U8, to_u8, some, List, ◌++◌, length, take, drop}
use mqom_rs.Bytes.{filled, length-filled}
use mqom_rs.Params.{public_key_size, secret_key_size}
use mqom_rs.Toy.{toy}
use mqom_rs.Field.Packing.Laws.{halves}
use mqom_rs.Mq.{equation_count}
use mqom_rs.Keygen.{keygen_seed_size, keypair_from_seed, secret_key_is_consistent}
use mqom_rs.Keygen.Outputs.{output_at, packed_secret, public_key_of}
use mqom_rs.Keygen.Generate.{keypair_from_seed_total}
use mqom_rs.Keygen.Check.{observed_at, secret_key_is_consistent_iff}
use mqom_rs.Keygen.Generated.{keypair_from_seed-IsConsistent}

abbrev seed : List U8
seed = filled 32 (to_u8 7)

abbrev secret_key : List U8
secret_key = filled secret_key_size (to_u8 7)

keypair_from_seed_total_example :
    keypair_from_seed ⦃c = toy⦄ seed
    ≡ some
        (public_key_of ⦃c = toy⦄ seed ++ packed_secret ⦃c = toy⦄ seed, public_key_of ⦃c = toy⦄ seed)
keypair_from_seed_total_example = keypair_from_seed_total ⦃c = toy⦄ seed

secret_key_is_consistent_iff_example : (secret_key_is_consistent ⦃c = toy⦄ secret_key ≡ true) ↔ (
    (j : ℕ)
    → j < equation_count
    → output_at ⦃c = toy⦄
        (take keygen_seed_size secret_key)
        (halves (drop public_key_size secret_key))
        j
      ≡ observed_at secret_key j)
secret_key_is_consistent_iff_example =
    secret_key_is_consistent_iff ⦃c = toy⦄ secret_key (length-filled secret_key_size (to_u8 7))

abbrev generated_public : List U8
generated_public = public_key_of ⦃c = toy⦄ seed

abbrev generated_secret : List U8
generated_secret = generated_public ++ packed_secret ⦃c = toy⦄ seed

keypair_from_seed-IsConsistent_example :
    (length generated_secret ≡ secret_key_size)
    × (length generated_public ≡ public_key_size)
    × (take public_key_size generated_secret ≡ generated_public)
    × (secret_key_is_consistent ⦃c = toy⦄ generated_secret ≡ true)
keypair_from_seed-IsConsistent_example =
    keypair_from_seed-IsConsistent ⦃c = toy⦄ seed generated_secret generated_public
      (keypair_from_seed_total ⦃c = toy⦄ seed)
