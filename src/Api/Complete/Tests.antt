-- ===== src/Api/Complete/Tests.antt =====
-- The public signer at a generated key, over a source that always fills.
use mqom_rs.Base.{◌≡◌, refl, ap, ◌∙◌, sym, arith, to_u8, length}
use mqom_rs.Bytes.{filled, length-filled}
use mqom_rs.Toy.{toy}
use mqom_rs.Sign.{commit_alpha}
use mqom_rs.Sign.Encoding.{encoded_all}
use mqom_rs.Sign.Complete.Tests.{seed, message, found, toy_accepts, fresh, committed, alpha}
use mqom_rs.Api.{ok, TryCryptoRng}
use mqom_rs.Api.Signature.{Signature}
use mqom_rs.Api.Signature as Signature
use mqom_rs.Api.VerifyingKey as VerifyingKey
use mqom_rs.Api.SigningKey.{SigningKey, verifying_key, try_sign_with_rng}
use mqom_rs.Api.Generate.{key_of, key_of-IsValid, ok_inj}
use mqom_rs.Api.Complete.{try_sign_with_rng_total}

abbrev ones : TryCryptoRng
ones = record {
  State = Unit {0};
  Error = Unit {0};
  try_fill_bytes = λ rng n. (ok (filled n (to_u8 1)), tt);
  length-try_fill_bytes =
      λ rng n bytes e. ap length (ok_inj (ok bytes) refl (sym e)) ∙ length-filled n (to_u8 1);
}

abbrev key : SigningKey
key = key_of ⦃c = toy⦄ seed

try_sign_with_rng_total_example :
    (signature : Signature) × ((try_sign_with_rng ⦃c = toy⦄ ones key tt message).0 ≡ ok signature)
    × (VerifyingKey.verify ⦃c = toy⦄ (verifying_key key) message signature ≡ ok tt)
    × (Signature.from_slice (Signature.to_bytes signature) ≡ ok signature)
try_sign_with_rng_total_example =
    try_sign_with_rng_total ⦃c = toy⦄ ones key tt message fresh fresh committed.0 alpha.0 0 found
      (key_of-IsValid ⦃c = toy⦄ seed) refl refl committed.1 alpha.1 (omega arith)
      (toy_accepts committed.0.commitment
        (commit_alpha ⦃c = toy⦄ alpha.0.0 (encoded_all alpha.0.1)))
