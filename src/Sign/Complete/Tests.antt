-- ===== src/Sign/Complete/Tests.antt =====
-- The signer at a generated key and the concrete crates.
use mqom_rs.Base.{
  ℕ, ◌^◌, ◌↔◌, none, ◌<◌, ◌≡◌, refl, arith, true, ltb, ltb→lt, all_below, all_below_sound, U8,
  to_u8, some, List, [], ◌∷◌, ◌++◌, map, length, take, drop, get_or, length-drop,
}
use mqom_rs.Bytes.{filled, length-filled}
use mqom_rs.Params.{
  mq_n, tau, nb_evals, seed_size, public_key_size, secret_key_size, signature_size,
}
use mqom_rs.Toy.{toy}
use mqom_rs.Field.Packing.Laws.{halves, length-halves}
use mqom_rs.Field.Gf16.Element.{Gf16}
use mqom_rs.Field.Gf256x2.Element.{Gf256x2}
use mqom_rs.Mq.{evaluate_base}
use mqom_rs.Keygen.{keygen_seed_size, secret_key_is_consistent}
use mqom_rs.Keygen.Outputs.{packed_secret, public_key_of}
use mqom_rs.Keygen.Generate.{keypair_from_seed_total}
use mqom_rs.Keygen.Generated.{keypair_from_seed-IsConsistent}
use mqom_rs.Blc.Commit.{SigningCommitment, commit, open_commitment}
use mqom_rs.Blc.Commit.Total.{commit_total}
use mqom_rs.Blc.Evaluate.{OpenedEvaluations, evaluate_opening}
use mqom_rs.Verify.{parse_challenge, read_indices, recompute_alpha_zero, verify}
use mqom_rs.Verify.Reject.{expand_equations_total}
use mqom_rs.Sign.{nonce_bytes, compute_alpha, commit_alpha, fiat_shamir, sign}
use mqom_rs.Sign.Encoding.{encoded_all}
use mqom_rs.Sign.Alpha.{equations_of, compute_alpha_total, recompute_alpha_zero-compute_alpha}
use mqom_rs.Sign.Complete.{sign_total, sign-none_iff}

abbrev pub seed : List U8
seed = filled 32 (to_u8 2)

abbrev secret_key : List U8
secret_key = public_key_of ⦃c = toy⦄ seed ++ packed_secret ⦃c = toy⦄ seed

abbrev pub message : List U8
message = to_u8 1 ∷ (to_u8 2 ∷ [])

abbrev pub found : List ℕ
found = 1029 ∷ 514 ∷ 514 ∷ 2 ∷ 0 ∷ 0 ∷ 0 ∷ 0 ∷ 0 ∷ 0 ∷ 0 ∷ 0 ∷ []

-- The toy sponge returns the start of what it absorbed, so the grinding word of the first nonce lies in
-- the public key.
pub toy_accepts :
    (first second : List U8)
    → parse_challenge ⦃c = toy⦄
        (fiat_shamir ⦃c = toy⦄ (take public_key_size secret_key) first second message)
        (nonce_bytes 0)
      ≡ some found
unfolding parse_challenge fiat_shamir read_indices mqom_rs.Xof.shake128 mqom_rs.Xof.absorb_all
    mqom_rs.Xof.absorb mqom_rs.Xof.squeeze mqom_rs.Xof.new_state filled to_u8
toy_accepts first second = refl

pub key_laws :
    (length secret_key ≡ secret_key_size)
    × (length (public_key_of ⦃c = toy⦄ seed) ≡ public_key_size)
    × (take public_key_size secret_key ≡ public_key_of ⦃c = toy⦄ seed)
    × (secret_key_is_consistent ⦃c = toy⦄ secret_key ≡ true)
key_laws =
    keypair_from_seed-IsConsistent ⦃c = toy⦄ seed secret_key (public_key_of ⦃c = toy⦄ seed)
      (keypair_from_seed_total ⦃c = toy⦄ seed)

abbrev pub fresh : List U8
fresh = filled seed_size (to_u8 1)

pub fresh_size : length fresh ≡ seed_size
fresh_size = length-filled seed_size (to_u8 1)

abbrev secret : List Gf16
secret = halves (drop public_key_size secret_key)

pub secret_size : length secret ≡ mq_n
secret_size = omega (
  arith,
  key_laws.0,
  length-drop public_key_size secret_key,
  length-halves (drop public_key_size secret_key),
)

abbrev pub committed :
    (committed : SigningCommitment ⦃c = toy⦄) × (commit ⦃c = toy⦄ fresh fresh secret
      ≡ some committed)
committed =
    let made = commit_total ⦃c = toy⦄ fresh fresh secret fresh_size secret_size in (made.0, made.1)

abbrev pub alpha :
    (alpha : List (List Gf256x2) × List (List Gf256x2)) × (compute_alpha ⦃c = toy⦄
        committed.0.commitment committed.0 secret
        (take keygen_seed_size secret_key)
      ≡ some alpha)
alpha =
    compute_alpha_total ⦃c = toy⦄ fresh fresh secret fresh_size secret_size
      (take keygen_seed_size secret_key) committed.0 committed.1

sign_total_example :
    (signature : List U8) × (sign ⦃c = toy⦄ secret_key message fresh fresh ≡ some signature)
    × (length signature ≡ signature_size)
    × (verify ⦃c = toy⦄ (take public_key_size secret_key) message signature ≡ true)
sign_total_example =
    sign_total ⦃c = toy⦄ secret_key message fresh fresh committed.0 alpha.0 0 found key_laws.0
      key_laws.3 fresh_size fresh_size committed.1 alpha.1 (omega arith)
      (toy_accepts committed.0.commitment
        (commit_alpha ⦃c = toy⦄ alpha.0.0 (encoded_all alpha.0.1)))

sign-none_iff_example : (sign ⦃c = toy⦄ secret_key message fresh fresh ≡ none) ↔ (
    (n : ℕ)
    → n < 2 ^ 32
    → parse_challenge ⦃c = toy⦄
        (fiat_shamir ⦃c = toy⦄
          (take public_key_size secret_key)
          committed.0.commitment
          (commit_alpha ⦃c = toy⦄ alpha.0.0 (encoded_all alpha.0.1))
          message)
        (nonce_bytes n)
      ≡ none)
sign-none_iff_example =
    sign-none_iff ⦃c = toy⦄ secret_key message fresh fresh committed.0 alpha.0 key_laws.0 key_laws.3
      fresh_size fresh_size committed.1 alpha.1

found_below : all_below tau (λ k. ltb (get_or found k 0) nb_evals) ≡ true
unfolding all_below
found_below = refl

found_small : (j : ℕ) → j < tau → get_or found j 0 < nb_evals
found_small j lt =
    ltb→lt (get_or found j 0) nb_evals
      (all_below_sound tau (λ k. ltb (get_or found k 0) nb_evals) j found_below lt)

recompute_alpha_zero-compute_alpha_example :
    (opening : List U8) × (opened : OpenedEvaluations ⦃c = toy⦄) × (alpha_zero : List
      (List Gf256x2))
    × (alpha_one : List (List Gf256x2)) × (open_commitment ⦃c = toy⦄ committed.0 found
        ≡ some opening)
    × (evaluate_opening ⦃c = toy⦄ fresh committed.0.commitment opening found ≡ some opened)
    × (compute_alpha ⦃c = toy⦄ committed.0.commitment committed.0 secret seed
        ≡ some (alpha_zero, alpha_one))
    × (recompute_alpha_zero ⦃c = toy⦄ committed.0.commitment alpha_one found opened seed
          (map (λ q. evaluate_base q secret) (equations_of ⦃c = toy⦄ seed))
        ≡ some alpha_zero)
recompute_alpha_zero-compute_alpha_example =
    recompute_alpha_zero-compute_alpha ⦃c = toy⦄ fresh fresh secret fresh_size secret_size seed
      (equations_of ⦃c = toy⦄ seed) committed.0 found (expand_equations_total ⦃c = toy⦄ seed)
      committed.1 refl found_small
