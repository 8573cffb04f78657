-- ===== src/Sign/Complete.antt =====
-- The signer is complete: for a consistent key, it returns a signature wherever some nonce passes the
-- grinding, and the signature verifies.
pub mod Tests
use mqom_rs.Base.{
  none, ◌≢◌, ◌↔◌, ℕ, ◌^◌, ◌<◌, ◌≡◌, refl, sym, ap, ◌∙◌, U8, Option, some, List, length, take, drop,
  true,
}
use mathlib.Core.Path.{subst}
use mqom_rs.Params.{
  seed_size, salt_size, opening_size, signature_size, public_key_size, secret_key_size,
}
use mqom_rs.Crates.{Crates}
use mqom_rs.Field.Packing.Laws.{halves}
use mqom_rs.Field.Gf256x2.Element.{Gf256x2}
use mqom_rs.Keygen.{keygen_seed_size, secret_key_is_consistent}
use mqom_rs.Blc.Commit.{SigningCommitment, commit}
use mqom_rs.Blc.Evaluate.{OpenedEvaluations, evaluate_opening}
use mqom_rs.Blc.Line.Accepted.{evaluate_opening-line}
use mqom_rs.Verify.{nonce_size, parse_challenge, recompute_alpha_zero, verify}
use mqom_rs.Verify.Reject.{parse_challenge-lt, verify-signature_size}
use mqom_rs.Sign.{nonce_bytes, compute_alpha, sample_challenge, commit_alpha, fiat_shamir, sign}
use mqom_rs.Sign.Checked.{accepted}
use mqom_rs.Sign.Challenge.{none≢some, sample_challenge-IsFirst, sample_challenge_total}
use mqom_rs.Sign.Encoding.{encoded_all}
use mqom_rs.Sign.Equations.{outputs_of}
use mqom_rs.Sign.Alpha.{equations_of, recompute_alpha_zero_lem}
use mqom_rs.Sign.Public.{public_output_lem}
use mqom_rs.Sign.Accepted.{signature, verify-signature}
use mqom_rs.Sign.Transcript.{
  alpha_zero, alpha_one, transcript, secret_size, key_length, seed_of_public, sizes, rows, sized,
  alpha_lem, sign-sample_challenge,
}

settled : {A : Type 0} (o : Option A) → ((a : A) → o ≡ some a → ⊥) → o ≡ none
settled none refuted = refl
settled (some a) refuted = absurd (refuted a refl)

module _ ⦃c : Crates⦄ (secret_key message salt : List U8) (committed : SigningCommitment)
    (master_seed : List U8) (key_size : length secret_key ≡ secret_key_size)
    (consistent : secret_key_is_consistent secret_key ≡ true)
    (master_size : length master_seed ≡ seed_size) (salt_length : length salt ≡ salt_size)
    (commits : commit master_seed salt (halves (drop public_key_size secret_key))
      ≡ some committed) where
  abbrev hash : List U8
  hash = transcript secret_key message salt committed

  abbrev zeros : List (List Gf256x2)
  zeros = alpha_zero secret_key message salt committed

  abbrev ones : List (List Gf256x2)
  ones = alpha_one secret_key message salt committed

  abbrev outputs : List Gf256x2
  outputs =
      outputs_of (equations_of (take keygen_seed_size secret_key))
        (halves (drop public_key_size secret_key))

  verified :
      (challenge : List ℕ × List U8) (opening : List U8) (opened : OpenedEvaluations)
      → length challenge.1 ≡ nonce_size
      → parse_challenge hash challenge.1 ≡ some challenge.0
      → length opening ≡ opening_size
      → evaluate_opening salt committed.commitment opening challenge.0 ≡ some opened
      → recompute_alpha_zero committed.commitment ones challenge.0 opened
          (take keygen_seed_size secret_key)
          outputs
        ≡ some zeros
      → verify
          (take public_key_size secret_key)
          message
          (signature salt committed.commitment opening challenge.1 zeros ones)
        ≡ true
  verified challenge opening opened nonce_length parsed opening_length evaluated recomputed =
      verify-signature salt committed.commitment opening challenge.1 zeros ones
        (take public_key_size secret_key) message
        (key_length secret_key message salt committed master_seed key_size consistent master_size
          salt_length commits)
        salt_length
        (sizes secret_key message salt committed master_seed key_size consistent master_size
          salt_length commits).6
        (rows secret_key message salt committed master_seed key_size consistent master_size
          salt_length commits)
        (sized secret_key message salt committed master_seed key_size consistent master_size
          salt_length commits)
        opening_length nonce_length outputs challenge.0 opened
        (public_output_lem secret_key key_size consistent) parsed evaluated
        (ap (λ seed. recompute_alpha_zero committed.commitment ones challenge.0 opened seed outputs)
            (seed_of_public secret_key message salt committed master_seed key_size consistent
              master_size salt_length commits)
          ∙ recomputed)

  sign_returns :
      (challenge : List ℕ × List U8)
      → sample_challenge hash ≡ some challenge
      → (signature : List U8) × (sign secret_key message master_seed salt ≡ some signature)
  sign_returns challenge sampled =
      let (k, _, is_nonce, is_parsed, _) = sample_challenge-IsFirst hash challenge sampled in
      let parsed : parse_challenge hash challenge.1 ≡ some challenge.0 =
        ap (parse_challenge hash) is_nonce ∙ is_parsed in
      let bounds = parse_challenge-lt hash challenge.1 challenge.0 in
      let length_secret =
        secret_size secret_key message salt committed master_seed key_size consistent master_size
          salt_length commits in
      let (opening, opened, opens, opening_length, evaluated, x, u) =
        evaluate_opening-line master_seed salt (halves (drop public_key_size secret_key))
          master_size length_secret committed challenge.0 commits (bounds 0 parsed).0
          λ j lt. (bounds j parsed).1 in
      (
        signature salt committed.commitment opening challenge.1 zeros ones,
        sign-sample_challenge secret_key message salt committed master_seed key_size consistent
              master_size salt_length commits
            ∙ rw (
              sampled,
              opens,
              verified challenge opening opened (ap length is_nonce) parsed opening_length evaluated
                  (recompute_alpha_zero_lem committed.commitment (take keygen_seed_size secret_key)
                    committed (halves (drop public_key_size secret_key)) length_secret
                    (sizes secret_key message salt committed master_seed key_size consistent
                      master_size salt_length commits)
                    challenge.0 opened (bounds 0 parsed).0 x u),
            ),
      )

  sign_fails : sample_challenge hash ≡ none → sign secret_key message master_seed salt ≡ none
  sign_fails failed =
      sign-sample_challenge secret_key message salt committed master_seed key_size consistent
        master_size salt_length commits
      ∙ rw (failed)

  sign_none_lem :
      (sign secret_key message master_seed salt ≡ none)
      ↔ ((n : ℕ) → n < 2 ^ 32 → parse_challenge hash (nonce_bytes n) ≡ none)
  sign_none_lem = (
    λ failed n below. settled (parse_challenge hash (nonce_bytes n)) λ indices accepts.
        let (challenge, sampled) = sample_challenge_total hash n indices below accepts in
        none≢some (sym failed ∙ (sign_returns challenge sampled).1),
    λ refused. sign_fails (
        settled (sample_challenge hash) λ challenge sampled.
          let (n, below, _, accepts, _) = sample_challenge-IsFirst hash challenge sampled in
          none≢some (sym (refused n below) ∙ accepts)),
  )

module _ ⦃c : Crates⦄ where
  -- For a consistent secret key of 88 bytes, a master seed and a salt of 16 bytes, the commitment and
  -- the alpha that the signer computes, and a nonce of 32 bits from which the verifier reads a
  -- challenge for the hash of that transcript: `sign` returns a signature, which has the length of the
  -- profile, and `verify` accepts it for the public key in the secret key.
  pub sign_total :
      (secret_key message master_seed salt : List U8) (committed : SigningCommitment)
      (alpha : List (List Gf256x2) × List (List Gf256x2)) (n : ℕ) (indices : List ℕ)
      → length secret_key ≡ secret_key_size
      → secret_key_is_consistent secret_key ≡ true
      → length master_seed ≡ seed_size
      → length salt ≡ salt_size
      → commit master_seed salt (halves (drop public_key_size secret_key)) ≡ some committed
      → compute_alpha committed.commitment committed
          (halves (drop public_key_size secret_key))
          (take keygen_seed_size secret_key)
        ≡ some alpha
      → n < 2 ^ 32
      → parse_challenge
          (fiat_shamir
            (take public_key_size secret_key)
            committed.commitment
            (commit_alpha alpha.0 (encoded_all alpha.1))
            message)
          (nonce_bytes n)
        ≡ some indices
      → (signature : List U8) × (sign secret_key message master_seed salt ≡ some signature)
        × (length signature ≡ signature_size)
        × (verify (take public_key_size secret_key) message signature ≡ true)
  sign_total secret_key message master_seed salt committed alpha n indices e consistent f g commits
        computed below accepts =
      let same =
        alpha_lem secret_key message salt committed master_seed e consistent f g commits alpha
          computed in
      let (challenge, sampled) =
        sample_challenge_total (transcript secret_key message salt committed) n indices below (
          ap
            (λ (a : List (List Gf256x2) × List (List Gf256x2)).
              parse_challenge
                (fiat_shamir (take public_key_size secret_key) committed.commitment
                  (commit_alpha a.0 (encoded_all a.1)) message)
                (nonce_bytes n))
            same
          ∙ accepts) in
      let (signature, signs) =
        sign_returns secret_key message salt committed master_seed e consistent f g commits
          challenge sampled in
      let verifies = accepted secret_key message master_seed salt signature signs in
      (
        signature,
        signs,
        verify-signature_size (take public_key_size secret_key) message signature verifies,
        verifies,
      )

  -- For a consistent secret key of 88 bytes, a master seed and a salt of 16 bytes, and the commitment
  -- and the alpha that the signer computes: `sign` returns nothing exactly when the verifier reads no
  -- challenge from any nonce of 32 bits, for the hash of that transcript.
  pub sign-none_iff :
      (secret_key message master_seed salt : List U8) (committed : SigningCommitment)
      (alpha : List (List Gf256x2) × List (List Gf256x2))
      → length secret_key ≡ secret_key_size
      → secret_key_is_consistent secret_key ≡ true
      → length master_seed ≡ seed_size
      → length salt ≡ salt_size
      → commit master_seed salt (halves (drop public_key_size secret_key)) ≡ some committed
      → compute_alpha committed.commitment committed
          (halves (drop public_key_size secret_key))
          (take keygen_seed_size secret_key)
        ≡ some alpha
      → (sign secret_key message master_seed salt ≡ none) ↔ (
          (n : ℕ)
          → n < 2 ^ 32
          → parse_challenge
              (fiat_shamir
                (take public_key_size secret_key)
                committed.commitment
                (commit_alpha alpha.0 (encoded_all alpha.1))
                message)
              (nonce_bytes n)
            ≡ none)
  sign-none_iff secret_key message master_seed salt committed alpha e consistent f g commits
        computed =
      subst
        (λ (a : List (List Gf256x2) × List (List Gf256x2)).
          (sign secret_key message master_seed salt ≡ none) ↔ (
            (n : ℕ)
            → n < 2 ^ 32
            → parse_challenge
                (fiat_shamir (take public_key_size secret_key) committed.commitment
                  (commit_alpha a.0 (encoded_all a.1)) message)
                (nonce_bytes n)
              ≡ none))
        (alpha_lem secret_key message salt committed master_seed e consistent f g commits alpha
          computed)
        (sign_none_lem secret_key message salt committed master_seed e consistent f g commits)
