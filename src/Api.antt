-- ===== src/Api.antt =====
-- src/mqom2_l1_gf16_short_r5/mod.rs: the public types of the profile. This file has its constants, its
-- errors, and the results and the randomness source that the children share. A formatter, and the
-- clearing of a dropped value, are not modelled.
pub mod Signature
pub mod VerifyingKey
pub mod SigningKey
pub mod Import
pub mod Generate
pub mod Sign
pub mod Complete
mod Tests
use mqom_rs.Base.{ℕ, ◌≡◌, U8, Option, none, some, List, length, ◌==◌, if◌then◌else◌}
use mqom_rs.Params

abbrev pub public_key_size : ℕ
public_key_size = Params.public_key_size

abbrev pub secret_key_size : ℕ
secret_key_size = Params.secret_key_size

abbrev pub signature_size : ℕ
signature_size = Params.signature_size

pub data Result {ℓ κ} (A : Type ℓ) (E : Type κ) : Type (ℓ ⊔ κ) where
  ok : A → Result A E
  err : E → Result A E

-- `Result::map_err` and `?`.
module _ {ℓ κ} {A : Type ℓ} {E : Type κ} where
  abbrev pub map_err {ι} : {F : Type ι} → (E → F) → Result A E → Result A F
  map_err f (ok a) = ok a
  map_err f (err e) = err (f e)

  infixl 5 ◌>>=◌
  abbrev pub ◌>>=◌ {ι} : {B : Type ι} → Result A E → (A → Result B E) → Result B E
  ok a >>= f = f a
  err e >>= f = err e

  -- `Option::ok_or_else`, with the error that the closure makes.
  abbrev pub ok_or : Option A → E → Result A E
  ok_or none e = err e
  ok_or (some a) e = ok a

-- The opaque `signature::Error` of the signature crate: a value that says nothing.
pub data OpaqueError : Type 0 where
  opaque_error : OpaqueError

pub record EncodingError : Type 0 where
  pub expected : ℕ
  pub actual : ℕ

pub data SigningKeyError : Type 0 where
  invalid_length : EncodingError → SigningKeyError
  inconsistent : SigningKeyError

-- `Error::source` of a `SigningKeyError`.
unfoldable pub source : SigningKeyError → Option EncodingError
source (invalid_length error) = some error
source inconsistent = none

-- `bytes.try_into().map_err(..)`, with the error that the three `from_slice` make.
unfoldable pub exact_array : ℕ → List U8 → Result (List U8) EncodingError
exact_array expected bytes =
    if length bytes == expected
    then ok bytes
    else err (record { expected = expected; actual = length bytes })

-- rand_core::TryCryptoRng, of which `try_fill_bytes` is called: it fills the slice, or it fails. What a
-- failed call wrote is not read.
pub record TryCryptoRng : Type 1 where
  pub State : Type 0
  pub Error : Type 0
  pub try_fill_bytes : State → ℕ → Result (List U8) Error × State
  pub length-try_fill_bytes :
      (rng : State) (n : ℕ) (bytes : List U8)
      → (try_fill_bytes rng n).0 ≡ ok bytes
      → length bytes ≡ n
