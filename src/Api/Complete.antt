-- ===== src/Api/Complete.antt =====
-- `SigningKey::try_sign_with_rng` is complete: where the randomness source fills, and some nonce passes the
-- grinding, it returns a signature that the verification key accepts.
mod Tests
use mqom_rs.Base.{
  ℕ, ◌^◌, ◌<◌, ◌≡◌, ◌↔◌, ◌≢◌, refl, sym, ap, ◌∙◌, U8, Option, some, none, List, take, drop,
}
use mqom_rs.Params.{seed_size, salt_size, public_key_size}
use mqom_rs.Crates.{Crates}
use mqom_rs.Field.Packing.Laws.{halves}
use mqom_rs.Field.Gf256x2.Element.{Gf256x2}
use mqom_rs.Keygen.{keygen_seed_size}
use mqom_rs.Blc.Commit.{SigningCommitment, commit}
use mqom_rs.Verify.{parse_challenge}
use mqom_rs.Sign.{nonce_bytes, compute_alpha, commit_alpha, fiat_shamir}
use mqom_rs.Sign.Encoding.{encoded_all}
use mqom_rs.Sign.Complete.{sign_total}
use mqom_rs.Api.{ok, TryCryptoRng}
use mqom_rs.Api.Signature.{Signature}
use mqom_rs.Api.Signature as Signature
use mqom_rs.Api.VerifyingKey as VerifyingKey
use mqom_rs.Api.SigningKey.{SigningKey, verifying_key, try_sign_with_rng}
use mqom_rs.Api.Generate.{IsValid}
use mqom_rs.Api.Sign.{signs, Signed-verify}

module _ ⦃c : Crates⦄ where
  -- For a valid signing key and a randomness source whose two fills, for the master seed and then for the
  -- salt, succeed: with the commitment and the alpha that the signer computes from them, and a nonce of 32
  -- bits from which the verifier reads a challenge for the hash of that transcript, `try_sign_with_rng`
  -- returns a signature. The verification key accepts it for the message, and it comes back from its own
  -- export.
  pub try_sign_with_rng_total :
      (R : TryCryptoRng) (key : SigningKey) (rng : R.State) (message master_seed salt : List U8)
      (committed : SigningCommitment) (alpha : List (List Gf256x2) × List (List Gf256x2)) (n : ℕ)
      (indices : List ℕ)
      → IsValid key
      → (R.try_fill_bytes rng seed_size).0 ≡ ok master_seed
      → (R.try_fill_bytes (R.try_fill_bytes rng seed_size).1 salt_size).0 ≡ ok salt
      → commit master_seed salt (halves (drop public_key_size key.encoded)) ≡ some committed
      → compute_alpha committed.commitment committed
          (halves (drop public_key_size key.encoded))
          (take keygen_seed_size key.encoded)
        ≡ some alpha
      → n < 2 ^ 32
      → parse_challenge
          (fiat_shamir
            (take public_key_size key.encoded)
            committed.commitment
            (commit_alpha alpha.0 (encoded_all alpha.1))
            message)
          (nonce_bytes n)
        ≡ some indices
      → (signature : Signature) × ((try_sign_with_rng R key rng message).0 ≡ ok signature)
        × (VerifyingKey.verify (verifying_key key) message signature ≡ ok tt)
        × (Signature.from_slice (Signature.to_bytes signature) ≡ ok signature)
  try_sign_with_rng_total R key rng message master_seed salt committed alpha n indices v fills_seed
        fills_salt commits computed below accepts =
      let (encoded, made, _, _) =
        sign_total key.encoded message master_seed salt committed alpha n indices v.sized
          v.consistent (R.length-try_fill_bytes rng seed_size master_seed fills_seed)
          (R.length-try_fill_bytes (R.try_fill_bytes rng seed_size).1 salt_size salt fills_salt)
          commits computed below accepts in
      let signature : Signature = record { encoded = encoded } in
      let signed = signs R key rng message master_seed salt encoded fills_seed fills_salt made in
      let (verifies, returns) = Signed-verify R key rng message signature v signed in
      (signature, signed, verifies, returns)
