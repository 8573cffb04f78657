-- ===== src/Api/Tests.antt =====
-- The public API over a randomness source that can be filled a given number of times, and the theorems
-- there.
use mqom_rs.Base.{
  ℕ, zero, suc, ◌≡◌, ◌≢◌, ◌↔◌, ◌⊎◌, refl, arith, U8, to_u8, none, some, List, length, take, true,
  false,
}
use mqom_rs.Bytes.{filled, length-filled}
use mqom_rs.Toy.{toy}
use mqom_rs.Keygen.{keygen_seed_size, secret_key_is_consistent}
use mqom_rs.Api.{
  public_key_size, secret_key_size, signature_size, Result, ok, err, opaque_error, EncodingError,
  SigningKeyError, invalid_length, inconsistent, source, TryCryptoRng,
}
use mqom_rs.Api.Signature.{Signature}
use mqom_rs.Api.Signature as Signature
use mqom_rs.Api.VerifyingKey.{VerifyingKey}
use mqom_rs.Api.VerifyingKey as VerifyingKey
use mqom_rs.Api.SigningKey.{
  SigningKey, to_bytes, as_bytes, verifying_key, generate, try_sign_with_rng,
}
use mqom_rs.Api.SigningKey as SigningKey
use mqom_rs.Api.Import.{import_iff, signing_key_import_iff}
use mqom_rs.Api.Generate.{IsValid, key_of, key_of-IsValid, generate-ok, generate-from_slice}
use mqom_rs.Api.Sign.{try_sign_with_rng-verify}

abbrev fill_left : ℕ → ℕ → Result (List U8) (Unit {0}) × ℕ
fill_left zero n = (err tt, 0)
fill_left (suc left) n = (ok (filled n (to_u8 left)), left)

filled_length : (left n : ℕ) (bytes : List U8) → (fill_left left n).0 ≡ ok bytes → length bytes ≡ n
filled_length zero n bytes e = absurd cc
filled_length (suc left) n bytes e =
    let same : filled n (to_u8 left) ≡ bytes = cc in ground (arith, length-filled n (to_u8 left))

-- The state is the number of calls that still succeed.
abbrev counter : TryCryptoRng
counter = record {
  State = ℕ;
  Error = Unit;
  try_fill_bytes = fill_left;
  length-try_fill_bytes = filled_length;
}

sources :
    (source (invalid_length (record { expected = 88; actual = 3 }))
      ≡ some (record { expected = 88; actual = 3 }))
    × (source inconsistent ≡ none)
unfolding source
sources = (refl, refl)

exhausted : (generate ⦃c = toy⦄ counter 0).0 ≡ err opaque_error
unfolding generate
exhausted = refl

key_bytes : List U8
key_bytes = filled public_key_size (to_u8 3)

abbrev no_error : EncodingError
no_error = record { expected = 0; actual = 0 }

abbrev imported : VerifyingKey
imported = record { encoded = key_bytes }

abbrev too_short : Signature
too_short = record { encoded = key_bytes }

import_iff_example :
    ((VerifyingKey.from_slice key_bytes ≡ ok imported)
      ↔ ((length key_bytes ≡ public_key_size) × (VerifyingKey.to_bytes imported ≡ key_bytes)))
    × ((VerifyingKey.from_slice key_bytes ≡ err no_error) ↔ (
        (length key_bytes ≢ public_key_size)
        × (no_error ≡ record { expected = public_key_size; actual = length key_bytes })))
    × ((Signature.from_slice key_bytes ≡ ok too_short)
        ↔ ((length key_bytes ≡ signature_size) × (Signature.to_bytes too_short ≡ key_bytes)))
    × ((Signature.from_slice key_bytes ≡ err no_error) ↔ (
        (length key_bytes ≢ signature_size)
        × (no_error ≡ record { expected = signature_size; actual = length key_bytes })))
    × ((Signature.try_from key_bytes ≡ ok too_short) ↔ (
        (length key_bytes ≡ signature_size) × (Signature.try_into_array too_short ≡ ok key_bytes)))
import_iff_example = import_iff key_bytes imported too_short no_error

abbrev key : SigningKey
key = key_of ⦃c = toy⦄ (filled keygen_seed_size (to_u8 2))

signing_key_import_iff_example :
    ((SigningKey.from_slice ⦃c = toy⦄ key.encoded ≡ ok key) ↔ (
      (length key.encoded ≡ secret_key_size)
      × (secret_key_is_consistent ⦃c = toy⦄ key.encoded ≡ true)
      × (as_bytes (to_bytes key) ≡ key.encoded)))
    × ((SigningKey.from_slice ⦃c = toy⦄ key.encoded ≡ err inconsistent) ↔ (
        (length key.encoded ≡ secret_key_size)
        × (secret_key_is_consistent ⦃c = toy⦄ key.encoded ≡ false)))
    × ((SigningKey.from_slice ⦃c = toy⦄ key.encoded ≡ err (invalid_length no_error)) ↔ (
        (length key.encoded ≢ secret_key_size)
        × (no_error ≡ record { expected = secret_key_size; actual = length key.encoded })))
    × (((failure : SigningKeyError) × (SigningKey.from_slice ⦃c = toy⦄ key.encoded ≡ err failure)
          × (source failure ≡ some no_error))
        ↔ ((length key.encoded ≢ secret_key_size)
            × (no_error ≡ record { expected = secret_key_size; actual = length key.encoded })))
signing_key_import_iff_example = signing_key_import_iff ⦃c = toy⦄ key.encoded key no_error

generate-from_slice_example :
    IsValid ⦃c = toy⦄ key
    × (SigningKey.from_slice ⦃c = toy⦄ (as_bytes (to_bytes key)) ≡ ok key)
    × (VerifyingKey.to_bytes (verifying_key key) ≡ take public_key_size (as_bytes (to_bytes key)))
    × (VerifyingKey.from_slice (VerifyingKey.to_bytes (verifying_key key)) ≡ ok (verifying_key key))
generate-from_slice_example =
    generate-from_slice ⦃c = toy⦄ counter 3 key
      (generate-ok ⦃c = toy⦄ counter 3 (filled keygen_seed_size (to_u8 2)) refl)

abbrev message : List U8
message = filled 5 (to_u8 1)

try_sign_with_rng-verify_example :
    ((try_sign_with_rng ⦃c = toy⦄ counter key 2 message).0 ≡ err opaque_error)
    ⊎ ((signature : Signature) × ((try_sign_with_rng ⦃c = toy⦄ counter key 2 message).0
          ≡ ok signature)
        × (VerifyingKey.verify ⦃c = toy⦄ (verifying_key key) message signature ≡ ok tt)
        × (Signature.from_slice (Signature.to_bytes signature) ≡ ok signature))
try_sign_with_rng-verify_example =
    try_sign_with_rng-verify ⦃c = toy⦄ counter key 2 message
      (key_of-IsValid ⦃c = toy⦄ (filled keygen_seed_size (to_u8 2)))
