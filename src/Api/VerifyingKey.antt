-- ===== src/Api/VerifyingKey.antt =====
-- `VerifyingKey` of src/mqom2_l1_gf16_short_r5/mod.rs. The method `verify` calls the one of the trait
-- `signature::Verifier`, which is the one here.
use mqom_rs.Base.{U8, List, guard}
use mqom_rs.Crates.{Crates}
use mqom_rs.Verify as Verify
use mqom_rs.Api.{
  public_key_size, Result, ok, ◌>>=◌, ok_or, OpaqueError, opaque_error, EncodingError, exact_array,
}
use mqom_rs.Api.Signature.{Signature}

pub record VerifyingKey : Type 0 where
  pub encoded : List U8

unfoldable pub from_slice : List U8 → Result VerifyingKey EncodingError
from_slice bytes = do encoded ← exact_array public_key_size bytes; ok (record { encoded = encoded })

unfoldable pub to_bytes : VerifyingKey → List U8
to_bytes key = key.encoded

-- `AsRef::as_ref`.
unfoldable pub as_ref : VerifyingKey → List U8
as_ref key = key.encoded

-- `then_some(())` is `guard`.
unfoldable pub verify :
    ⦃c : Crates⦄ → VerifyingKey → List U8 → Signature → Result (Unit {0}) OpaqueError
verify key message signature =
    ok_or (guard (Verify.verify key.encoded message signature.encoded)) opaque_error
