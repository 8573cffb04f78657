-- ===== src/Api/Signature.antt =====
-- `Signature` of src/mqom2_l1_gf16_short_r5/mod.rs.
use mqom_rs.Base.{U8, List}
use mqom_rs.Api.{
  signature_size, Result, ok, map_err, ◌>>=◌, OpaqueError, opaque_error, EncodingError, exact_array,
}

-- The tuple struct over an array. `from_slice` and the signer make it.
pub record Signature : Type 0 where
  pub encoded : List U8

unfoldable pub from_slice : List U8 → Result Signature EncodingError
from_slice bytes = do encoded ← exact_array signature_size bytes; ok (record { encoded = encoded })

unfoldable pub to_bytes : Signature → List U8
to_bytes signature = signature.encoded

-- `AsRef::as_ref`.
unfoldable pub as_ref : Signature → List U8
as_ref signature = signature.encoded

-- `TryFrom<&[u8]> for Signature`.
unfoldable pub try_from : List U8 → Result Signature OpaqueError
try_from bytes = map_err (λ _. opaque_error) (from_slice bytes)

-- `TryFrom<Signature> for [u8; SIGNATURE_SIZE]`.
unfoldable pub try_into_array : Signature → Result (List U8) OpaqueError
try_into_array signature = ok signature.encoded
