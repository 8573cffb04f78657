-- ===== src/Api/SigningKey.antt =====
-- `SigningKey` and `SecretKeyBytes` of src/mqom2_l1_gf16_short_r5/mod.rs. A randomness source that a
-- method borrows is its state before the call and, in the result, after it.
use mqom_rs.Base.{U8, List, take, not, if◌then◌else◌}
use mathlib.Core.Option as Option
use mqom_rs.Bytes.{filled, write_at}
use mqom_rs.Params.{seed_size, salt_size}
use mqom_rs.Field.Packing.{zero_byte}
use mqom_rs.Crates.{Crates}
use mqom_rs.Keygen.{keygen_seed_size, keypair_from_seed, secret_key_is_consistent}
use mqom_rs.Sign as Sign
use mqom_rs.Api.{
  public_key_size, secret_key_size, Result, ok, err, map_err, ◌>>=◌, ok_or, OpaqueError,
  opaque_error, SigningKeyError, invalid_length, inconsistent, exact_array, TryCryptoRng,
}
use mqom_rs.Api.Signature.{Signature}
use mqom_rs.Api.VerifyingKey.{VerifyingKey}

pub record SecretKeyBytes : Type 0 where
  pub bytes : List U8

-- `SecretKeyBytes::as_bytes`, and `AsRef::as_ref`.
unfoldable pub as_bytes : SecretKeyBytes → List U8
as_bytes secret = secret.bytes

pub record SigningKey : Type 0 where
  pub encoded : List U8

unfoldable pub verifying_key : SigningKey → VerifyingKey
verifying_key key = record {
  encoded = write_at (filled public_key_size zero_byte) 0 (take public_key_size key.encoded);
}

unfoldable pub to_bytes : SigningKey → SecretKeyBytes
to_bytes key = record { bytes = key.encoded }

module _ ⦃c : Crates⦄ where
  unfoldable pub from_slice : List U8 → Result SigningKey SigningKeyError
  from_slice bytes = do
    encoded ← map_err invalid_length (exact_array secret_key_size bytes)
    if not (secret_key_is_consistent encoded)
        then err inconsistent
        else ok (record { encoded = encoded })

  module _ (R : TryCryptoRng) where
    unfoldable pub generate : R.State → Result SigningKey OpaqueError × R.State
    generate rng =
        let (fill, after_seed) = R.try_fill_bytes rng keygen_seed_size in
        elim fill [
          | err _ ↦ (err opaque_error, after_seed)
          | ok seed ↦ (
            ok_or (Option.map (λ pair. record { encoded = pair.0 }) (keypair_from_seed seed))
                opaque_error,
            after_seed,
          )
        ]

    unfoldable pub try_sign_inner :
        SigningKey → R.State → List U8 → Result Signature OpaqueError × R.State
    try_sign_inner key rng message =
        let (seed_fill, after_seed) = R.try_fill_bytes rng seed_size in
        elim seed_fill [
          | err _ ↦ (err opaque_error, after_seed)
          | ok master_seed ↦
              let (salt_fill, after_salt) = R.try_fill_bytes after_seed salt_size in
              elim salt_fill [
                | err _ ↦ (err opaque_error, after_salt)
                | ok salt ↦ (
                  ok_or
                      (Option.map (λ encoded. record { encoded = encoded })
                        (Sign.sign key.encoded message master_seed salt))
                      opaque_error,
                  after_salt,
                )
              ]
        ]

    -- The method, and that of the trait `signature::RandomizedSigner`.
    unfoldable pub try_sign_with_rng :
        SigningKey → R.State → List U8 → Result Signature OpaqueError × R.State
    try_sign_with_rng key rng message = try_sign_inner key rng message
