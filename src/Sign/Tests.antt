-- ===== src/Sign/Tests.antt =====
-- The theorems of src/sign.rs at concrete keys and the concrete crates.
use mqom_rs.Base.{ℕ, ◌^◌, ◌<◌, ◌≡◌, ◌⊎◌, refl, U8, to_u8, none, some, true, List, ◌∷◌, take}
use mqom_rs.Bytes.{filled}
use mqom_rs.Params.{public_key_size, secret_key_size}
use mqom_rs.Toy.{toy}
use mqom_rs.Verify.{parse_challenge, read_indices, verify}
use mqom_rs.Sign.{nonce_bytes, sample_loop, sample_challenge, sign}
use mqom_rs.Sign.Challenge.{sample_challenge-IsFirst}
use mqom_rs.Sign.Checked.{sign-verify}

-- The toy sponge returns what it absorbed, here the selector, the hash and the nonce, and then zeros.
-- The first two bytes of the nonce are the grinding word behind a hash of 23 bytes.
abbrev hash : List U8
hash = filled 23 (to_u8 9)

abbrev found : List ℕ
found = read_indices (to_u8 5 ∷ filled 23 (to_u8 9)) 0 12

first_challenge : sample_challenge ⦃c = toy⦄ hash ≡ some (found, nonce_bytes 0)
unfolding sample_challenge sample_loop read_indices mqom_rs.Xof.shake128 mqom_rs.Xof.absorb_all
    mqom_rs.Xof.absorb mqom_rs.Xof.squeeze mqom_rs.Xof.new_state filled to_u8
first_challenge = refl

sample_challenge-IsFirst_example :
    (n : ℕ) × (n < 2 ^ 32)
    × (nonce_bytes 0 ≡ nonce_bytes n)
    × (parse_challenge ⦃c = toy⦄ hash (nonce_bytes n) ≡ some found)
    × ((earlier : ℕ) → earlier < n → parse_challenge ⦃c = toy⦄ hash (nonce_bytes earlier) ≡ none)
sample_challenge-IsFirst_example =
    sample_challenge-IsFirst ⦃c = toy⦄ hash (found, nonce_bytes 0) first_challenge

abbrev secret_key : List U8
secret_key = filled secret_key_size (to_u8 7)

abbrev seed : List U8
seed = filled 16 (to_u8 1)

sign-verify_example :
    (sign ⦃c = toy⦄ secret_key hash seed seed ≡ none)
    ⊎ ((signature : List U8) × (sign ⦃c = toy⦄ secret_key hash seed seed ≡ some signature)
        × (verify ⦃c = toy⦄ (take public_key_size secret_key) hash signature ≡ true))
sign-verify_example = sign-verify ⦃c = toy⦄ secret_key hash seed seed
