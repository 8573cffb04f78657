-- ===== src/Api/Sign.antt =====
-- `SigningKey::try_sign_with_rng`: what it returns is accepted, and its failures.
use mqom_rs.Base.{◌≡◌, ◌⊎◌, inl, inr, ◌↔◌, refl, sym, ap, ◌∙◌, U8, Option, some, none, List, guard}
use mqom_rs.Params.{seed_size, salt_size}
use mqom_rs.Crates.{Crates}
use mqom_rs.Verify as Verify
use mqom_rs.Sign as Sign
use mqom_rs.Sign.Checked.{accepted}
use mqom_rs.Verify.Reject.{verify-signature_size}
use mqom_rs.Api.{Result, ok, err, ok_or, OpaqueError, opaque_error, TryCryptoRng}
use mqom_rs.Api.Signature.{Signature}
use mqom_rs.Api.Signature as Signature
use mqom_rs.Api.VerifyingKey as VerifyingKey
use mqom_rs.Api.SigningKey.{
  SigningKey, to_bytes, as_bytes, verifying_key, try_sign_inner, try_sign_with_rng,
}
use mqom_rs.Api.Import.{signature_import_iff}
use mqom_rs.Api.Generate.{ok≢err, ok_inj, IsValid, verifying_key-prefix}

module _ ⦃c : Crates⦄ (R : TryCryptoRng) (key : SigningKey) (rng : R.State)
    (message : List U8) where
  abbrev seed_fill : Result (List U8) R.Error
  seed_fill = (R.try_fill_bytes rng seed_size).0

  abbrev salt_fill : Result (List U8) R.Error
  salt_fill = (R.try_fill_bytes (R.try_fill_bytes rng seed_size).1 salt_size).0

  abbrev outcome : Result Signature OpaqueError
  outcome = (try_sign_with_rng R key rng message).0

  seed_fails : (error : R.Error) → seed_fill ≡ err error → outcome ≡ err opaque_error
  unfolding try_sign_with_rng try_sign_inner
  seed_fails error e = rw (e, outcome, try_sign_inner, try_sign_with_rng)

  salt_fails :
      (seed : List U8) (error : R.Error)
      → seed_fill ≡ ok seed
      → salt_fill ≡ err error
      → outcome ≡ err opaque_error
  unfolding try_sign_with_rng try_sign_inner
  salt_fails seed error e f = rw (e, outcome, try_sign_inner, try_sign_with_rng, f)

  no_signature :
      (seed salt : List U8)
      → seed_fill ≡ ok seed
      → salt_fill ≡ ok salt
      → Sign.sign key.encoded message seed salt ≡ none
      → outcome ≡ err opaque_error
  unfolding try_sign_with_rng try_sign_inner
  no_signature seed salt e f g = rw (e, outcome, try_sign_inner, try_sign_with_rng, f, g)

  pub signs :
      (seed salt encoded : List U8)
      → seed_fill ≡ ok seed
      → salt_fill ≡ ok salt
      → Sign.sign key.encoded message seed salt ≡ some encoded
      → outcome ≡ ok (record { encoded = encoded })
  unfolding try_sign_with_rng try_sign_inner
  signs seed salt encoded e f g = rw (e, outcome, try_sign_inner, try_sign_with_rng, f, g)

  -- The two fills succeed, and the signer returns the signature.
  abbrev Signed : Signature → Type 0
  Signed signature =
      (seed : List U8) × (salt : List U8) × (seed_fill ≡ ok seed)
      × (salt_fill ≡ ok salt)
      × (Sign.sign key.encoded message seed salt ≡ some signature.encoded)

  -- `try_sign_with_rng` returns a signature exactly when both fills of the randomness source succeed
  -- and the signer, given their bytes as master seed and salt, returns it.
  pub try_sign_with_rng-ok_iff :
      (signature : Signature)
      → ((try_sign_with_rng R key rng message).0 ≡ ok signature) ↔ (
          (seed : List U8) × (salt : List U8) × ((R.try_fill_bytes rng seed_size).0 ≡ ok seed)
          × ((R.try_fill_bytes (R.try_fill_bytes rng seed_size).1 salt_size).0 ≡ ok salt)
          × (Sign.sign key.encoded message seed salt ≡ some signature.encoded))
  try_sign_with_rng-ok_iff signature =
      (λ e. after_seed seed_fill refl e, λ p. signs p.0 p.1 signature.encoded p.2 p.3 p.4)
    where
      after_sign :
          (seed salt : List U8) (result : Option (List U8))
          → seed_fill ≡ ok seed
          → salt_fill ≡ ok salt
          → Sign.sign key.encoded message seed salt ≡ result
          → outcome ≡ ok signature
          → Signed signature
      after_sign seed salt none e f g signed =
          absurd (ok≢err (sym signed ∙ no_signature seed salt e f g))
      after_sign seed salt (some encoded) e f g signed =
          let same = ok_inj outcome (signs seed salt encoded e f g) signed in
          (seed, salt, e, f, g ∙ ap (λ (s : Signature). some s.encoded) same)

      after_salt :
          (seed : List U8) (fill : Result (List U8) R.Error)
          → seed_fill ≡ ok seed
          → salt_fill ≡ fill
          → outcome ≡ ok signature
          → Signed signature
      after_salt seed (err error) e f signed =
          absurd (ok≢err (sym signed ∙ salt_fails seed error e f))
      after_salt seed (ok salt) e f signed =
          after_sign seed salt (Sign.sign key.encoded message seed salt) e f refl signed

      after_seed :
          (fill : Result (List U8) R.Error)
          → seed_fill ≡ fill
          → outcome ≡ ok signature
          → Signed signature
      after_seed (err error) e signed = absurd (ok≢err (sym signed ∙ seed_fails error e))
      after_seed (ok seed) e signed = after_salt seed salt_fill e refl signed

  pub Signed-verify :
      (signature : Signature)
      → IsValid key
      → (try_sign_with_rng R key rng message).0 ≡ ok signature
      → (VerifyingKey.verify (verifying_key key) message signature ≡ ok tt)
        × (Signature.from_slice (Signature.to_bytes signature) ≡ ok signature)
  unfolding VerifyingKey.verify VerifyingKey.to_bytes to_bytes as_bytes Signature.to_bytes
  Signed-verify signature v e =
      let signed = (try_sign_with_rng-ok_iff signature).0 e in
      let verified =
        ap (λ encoded. Verify.verify encoded message signature.encoded) (verifying_key-prefix key v)
        ∙ accepted key.encoded message signed.0 signed.1 signature.encoded signed.4 in
      (
        ap (λ test. ok_or (guard test) opaque_error) verified,
        (signature_import_iff signature.encoded signature (record { expected = 0; actual = 0 })).0.1
            (verify-signature_size _ message signature.encoded verified, refl),
      )

  -- With a valid signing key, `try_sign_with_rng` reports the opaque error, or returns a signature that
  -- its verification key accepts for the message and that comes back from its own export.
  pub try_sign_with_rng-verify :
      IsValid key
      → ((try_sign_with_rng R key rng message).0 ≡ err opaque_error)
        ⊎ ((signature : Signature) × ((try_sign_with_rng R key rng message).0 ≡ ok signature)
            × (VerifyingKey.verify (verifying_key key) message signature ≡ ok tt)
            × (Signature.from_slice (Signature.to_bytes signature) ≡ ok signature))
  try_sign_with_rng-verify v = cases (try_sign_with_rng R key rng message).0 refl
    where
      cases :
          (result : Result Signature OpaqueError)
          → (try_sign_with_rng R key rng message).0 ≡ result
          → ((try_sign_with_rng R key rng message).0 ≡ err opaque_error)
            ⊎ ((signature : Signature) × ((try_sign_with_rng R key rng message).0 ≡ ok signature)
                × (VerifyingKey.verify (verifying_key key) message signature ≡ ok tt)
                × (Signature.from_slice (Signature.to_bytes signature) ≡ ok signature))
      cases (err opaque_error) e = inl e
      cases (ok signature) e =
          let laws = Signed-verify signature v e in inr (signature, e, laws.0, laws.1)
