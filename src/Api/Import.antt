-- ===== src/Api/Import.antt =====
-- The imports of encoded keys and signatures: what they accept, what they return, and their errors.
use mqom_rs.Base.{
  ℕ, ◌≡◌, ◌≢◌, ◌↔◌, refl, ap, ◌∙◌, arith, U8, some, some_inj, List, length, true, false,
}
use mqom_rs.Crates.{Crates}
use mqom_rs.Keygen.{secret_key_is_consistent}
use mqom_rs.Api.{
  public_key_size, secret_key_size, signature_size, ok, err, EncodingError, invalid_length,
  SigningKeyError, inconsistent, source, exact_array,
}
use mqom_rs.Api.Signature as Signature
use mqom_rs.Api.Signature.{Signature}
use mqom_rs.Api.VerifyingKey as VerifyingKey
use mqom_rs.Api.VerifyingKey.{VerifyingKey}
use mqom_rs.Api.SigningKey as SigningKey
use mqom_rs.Api.SigningKey.{SigningKey}

abbrev length_error : ℕ → List U8 → EncodingError
length_error expected bytes = record { expected = expected; actual = length bytes }

pub verifying_key_import_iff :
    (bytes : List U8) (key : VerifyingKey) (error : EncodingError)
    → ((VerifyingKey.from_slice bytes ≡ ok key)
        ↔ ((length bytes ≡ public_key_size) × (VerifyingKey.to_bytes key ≡ bytes)))
      × ((VerifyingKey.from_slice bytes ≡ err error)
          ↔ ((length bytes ≢ public_key_size) × (error ≡ length_error public_key_size bytes)))
unfolding VerifyingKey.from_slice VerifyingKey.to_bytes exact_array
verifying_key_import_iff bytes key error = ground arith

pub signature_import_iff :
    (bytes : List U8) (signature : Signature) (error : EncodingError)
    → ((Signature.from_slice bytes ≡ ok signature)
        ↔ ((length bytes ≡ signature_size) × (Signature.to_bytes signature ≡ bytes)))
      × ((Signature.from_slice bytes ≡ err error)
          ↔ ((length bytes ≢ signature_size) × (error ≡ length_error signature_size bytes)))
      × ((Signature.try_from bytes ≡ ok signature) ↔ (Signature.from_slice bytes ≡ ok signature))
unfolding Signature.from_slice Signature.try_from Signature.to_bytes exact_array
signature_import_iff bytes signature error = ground arith

imported :
    ⦃c : Crates⦄ (bytes : List U8) (key : SigningKey) (error : EncodingError)
    → ((SigningKey.from_slice bytes ≡ ok key) ↔ (
        (length bytes ≡ secret_key_size)
        × (secret_key_is_consistent bytes ≡ true)
        × (SigningKey.as_bytes (SigningKey.to_bytes key) ≡ bytes)))
      × ((SigningKey.from_slice bytes ≡ err inconsistent)
          ↔ ((length bytes ≡ secret_key_size) × (secret_key_is_consistent bytes ≡ false)))
      × ((SigningKey.from_slice bytes ≡ err (invalid_length error))
          ↔ ((length bytes ≢ secret_key_size) × (error ≡ length_error secret_key_size bytes)))
unfolding SigningKey.from_slice SigningKey.to_bytes SigningKey.as_bytes exact_array
imported bytes key error = ground arith

-- `SigningKey::from_slice` accepts exactly the consistent encodings of the length of the profile, as the
-- key that exports them; a consistent length with an inconsistent public key gives `Inconsistent`, and
-- another length `InvalidLength` with the expected and the actual one. An error whose `source` is an
-- encoding error is given exactly for another length, and that is then the one with both lengths.
pub signing_key_import_iff :
    ⦃c : Crates⦄ (bytes : List U8) (key : SigningKey) (error : EncodingError)
    → ((SigningKey.from_slice bytes ≡ ok key) ↔ (
        (length bytes ≡ secret_key_size)
        × (secret_key_is_consistent bytes ≡ true)
        × (SigningKey.as_bytes (SigningKey.to_bytes key) ≡ bytes)))
      × ((SigningKey.from_slice bytes ≡ err inconsistent)
          ↔ ((length bytes ≡ secret_key_size) × (secret_key_is_consistent bytes ≡ false)))
      × ((SigningKey.from_slice bytes ≡ err (invalid_length error))
          ↔ ((length bytes ≢ secret_key_size) × (error ≡ length_error secret_key_size bytes)))
      × (((failure : SigningKeyError) × (SigningKey.from_slice bytes ≡ err failure)
            × (source failure ≡ some error))
          ↔ ((length bytes ≢ secret_key_size) × (error ≡ length_error secret_key_size bytes)))
unfolding source
signing_key_import_iff bytes key error =
    let (accepts, refuses, lengths) = imported bytes key error in
    (
      accepts,
      refuses,
      lengths,
      (
        λ p. lengths.0 (p.1 ∙ ap err (sourced p.0 p.2)),
        λ e. (invalid_length error, lengths.1 e, refl),
      ),
    )
  where
    sourced :
        (failure : SigningKeyError) → source failure ≡ some error → failure ≡ invalid_length error
    sourced (invalid_length found) e = ap invalid_length (some_inj e)
    sourced inconsistent e = absurd cc

-- Verification keys and signatures are imported from exactly the bytes of their length, as the value
-- that exports these bytes; from all others the import reports the expected and the actual length. The
-- conversion of a signature by `TryFrom` accepts the same bytes, and back to an array gives them.
pub import_iff :
    (bytes : List U8) (key : VerifyingKey) (signature : Signature) (error : EncodingError)
    → ((VerifyingKey.from_slice bytes ≡ ok key)
        ↔ ((length bytes ≡ public_key_size) × (VerifyingKey.to_bytes key ≡ bytes)))
      × ((VerifyingKey.from_slice bytes ≡ err error)
          ↔ ((length bytes ≢ public_key_size) × (error ≡ length_error public_key_size bytes)))
      × ((Signature.from_slice bytes ≡ ok signature)
          ↔ ((length bytes ≡ signature_size) × (Signature.to_bytes signature ≡ bytes)))
      × ((Signature.from_slice bytes ≡ err error)
          ↔ ((length bytes ≢ signature_size) × (error ≡ length_error signature_size bytes)))
      × ((Signature.try_from bytes ≡ ok signature)
          ↔ ((length bytes ≡ signature_size) × (Signature.try_into_array signature ≡ ok bytes)))
unfolding Signature.from_slice Signature.try_from Signature.try_into_array exact_array
import_iff bytes key signature error =
    let keys = verifying_key_import_iff bytes key error in
    let signatures = signature_import_iff bytes signature error in
    (keys.0, keys.1, signatures.0, signatures.1, ground arith)
