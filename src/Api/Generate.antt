-- ===== src/Api/Generate.antt =====
-- `SigningKey::generate`: it fails only where the randomness source fails, and its keys import again.
use mqom_rs.Base.{
  ◌≡◌, ◌≢◌, ◌↔◌, refl, sym, ap, ◌∙◌, arith, U8, List, length, take, ◌++◌, true, drop_all,
  length-take,
}
use mqom_rs.Bytes.{filled, length-filled}
use mathlib.Core.Path.{subst}
use mathlib.Core.List.{append-nil}
use mqom_rs.Field.Packing.{zero_byte}
use mqom_rs.Crates.{Crates}
use mqom_rs.Keygen.{keygen_seed_size, secret_key_is_consistent}
use mqom_rs.Keygen.Outputs.{packed_secret, public_key_of}
use mqom_rs.Keygen.Generate.{keypair_from_seed_total, write_first}
use mqom_rs.Keygen.Generated.{keypair_from_seed-IsConsistent}
use mqom_rs.Api.{public_key_size, secret_key_size, Result, ok, err, opaque_error, TryCryptoRng}
use mqom_rs.Api.VerifyingKey.{VerifyingKey}
use mqom_rs.Api.VerifyingKey as VerifyingKey
use mqom_rs.Api.SigningKey.{SigningKey, to_bytes, as_bytes, verifying_key, from_slice, generate}
use mqom_rs.Api.Import.{verifying_key_import_iff, signing_key_import_iff}

pub ok≢err : {A E : Type 0} {a : A} {e : E} → ok a ≢ err e
ok≢err same = cc

pub ok_inj : {A E : Type 0} {a b : A} (result : Result A E) → result ≡ ok a → result ≡ ok b → a ≡ b
ok_inj result p q = cc

module _ ⦃c : Crates⦄ where
  -- What the methods of a signing key rely on: its array is of its size and passes the import check.
  pub record IsValid (key : SigningKey) : Type 0 where
    pub sized : length key.encoded ≡ secret_key_size
    pub consistent : secret_key_is_consistent key.encoded ≡ true

  -- Every key that `from_slice` returns is valid.
  pub from_slice-IsValid :
      (bytes : List U8) (key : SigningKey) → from_slice bytes ≡ ok key → IsValid key
  unfolding to_bytes as_bytes
  from_slice-IsValid bytes key e =
      let parts = (signing_key_import_iff bytes key (record { expected = 0; actual = 0 })).0.0 e in
      record {
        sized = ap length parts.2 ∙ parts.0;
        consistent = ap secret_key_is_consistent parts.2 ∙ parts.1;
      }

  -- A valid key comes back from its own export.
  pub from_slice-to_bytes :
      (key : SigningKey) → IsValid key → from_slice (as_bytes (to_bytes key)) ≡ ok key
  unfolding to_bytes as_bytes
  from_slice-to_bytes key v =
      (signing_key_import_iff key.encoded key (record { expected = 0; actual = 0 })).0.1
        (v.sized, v.consistent, refl)

  -- The array that `verifying_key` fills.
  pub verifying_key-prefix :
      (key : SigningKey)
      → IsValid key
      → VerifyingKey.to_bytes (verifying_key key) ≡ take public_key_size (as_bytes (to_bytes key))
  unfolding verifying_key VerifyingKey.to_bytes to_bytes as_bytes
  verifying_key-prefix key v =
      write_first public_key_size prefix (omega (arith, sized))
      ∙ ap (◌++◌ prefix) (
          drop_all (length prefix) (filled public_key_size zero_byte)
            (omega (arith, sized, length-filled public_key_size zero_byte)))
      ∙ append-nil prefix
    where
      prefix : List U8
      prefix = take public_key_size key.encoded

      sized : length prefix ≡ public_key_size
      sized = omega (arith, length-take public_key_size key.encoded, v.sized)

  pub verifying_key-from_slice :
      (key : SigningKey)
      → IsValid key
      → VerifyingKey.from_slice (VerifyingKey.to_bytes (verifying_key key)) ≡ ok (verifying_key key)
  unfolding to_bytes as_bytes
  verifying_key-from_slice key v =
      (verifying_key_import_iff _ (verifying_key key) (record { expected = 0; actual = 0 })).0.1 (
        ap length (verifying_key-prefix key v)
            ∙ omega (arith, length-take public_key_size key.encoded, v.sized),
        refl,
      )

  -- The key of a seed.
  abbrev pub key_of : List U8 → SigningKey
  key_of seed = record { encoded = public_key_of seed ++ packed_secret seed }

  pub key_of-IsValid : (seed : List U8) → IsValid (key_of seed)
  key_of-IsValid seed =
      let laws =
        keypair_from_seed-IsConsistent seed (public_key_of seed ++ packed_secret seed)
          (public_key_of seed) (keypair_from_seed_total seed) in
      record { sized = laws.0; consistent = laws.3 }

  module _ (R : TryCryptoRng) where
    pub generate-ok :
        (rng : R.State) (seed : List U8)
        → (R.try_fill_bytes rng keygen_seed_size).0 ≡ ok seed
        → (generate R rng).0 ≡ ok (key_of seed)
    unfolding generate
    generate-ok rng seed e = rw (e, generate, keypair_from_seed_total seed)

    generate-err :
        (rng : R.State) (error : R.Error)
        → (R.try_fill_bytes rng keygen_seed_size).0 ≡ err error
        → (generate R rng).0 ≡ err opaque_error
    unfolding generate
    generate-err rng error e = rw (e, generate)

    -- `generate` fails exactly when the randomness source fails: key generation itself never does.
    pub generate-err_iff :
        (rng : R.State)
        → ((generate R rng).0 ≡ err opaque_error)
          ↔ ((error : R.Error) × ((R.try_fill_bytes rng keygen_seed_size).0 ≡ err error))
    generate-err_iff rng = (forth, λ p. generate-err rng p.0 p.1)
      where
        outcome :
            (fill : Result (List U8) R.Error)
            → (R.try_fill_bytes rng keygen_seed_size).0 ≡ fill
            → (generate R rng).0 ≡ err opaque_error
            → (error : R.Error) × (fill ≡ err error)
        outcome (err error) e fails = (error, refl)
        outcome (ok seed) e fails = absurd (ok≢err (sym (generate-ok rng seed e) ∙ fails))

        forth :
            (generate R rng).0 ≡ err opaque_error
            → (error : R.Error) × ((R.try_fill_bytes rng keygen_seed_size).0 ≡ err error)
        forth fails = outcome (R.try_fill_bytes rng keygen_seed_size).0 refl fails

    generate-IsValid :
        (rng : R.State) (key : SigningKey) → (generate R rng).0 ≡ ok key → IsValid key
    generate-IsValid rng key e = outcome (R.try_fill_bytes rng keygen_seed_size).0 refl
      where
        outcome :
            (fill : Result (List U8) R.Error)
            → (R.try_fill_bytes rng keygen_seed_size).0 ≡ fill
            → IsValid key
        outcome (err error) failed = absurd (ok≢err (sym e ∙ generate-err rng error failed))
        outcome (ok seed) filled =
            subst IsValid (ok_inj (generate R rng).0 (generate-ok rng seed filled) e)
              (key_of-IsValid seed)

    -- Every key that `generate` returns is valid, and comes back from its own export; its verification
    -- key is the first part of that export, and comes back from its own export.
    pub generate-from_slice :
        (rng : R.State) (key : SigningKey)
        → (generate R rng).0 ≡ ok key
        → IsValid key
          × (from_slice (as_bytes (to_bytes key)) ≡ ok key)
          × (VerifyingKey.to_bytes (verifying_key key)
              ≡ take public_key_size (as_bytes (to_bytes key)))
          × (VerifyingKey.from_slice (VerifyingKey.to_bytes (verifying_key key))
              ≡ ok (verifying_key key))
    generate-from_slice rng key e =
        let valid = generate-IsValid rng key e in
        (
          valid,
          from_slice-to_bytes key valid,
          verifying_key-prefix key valid,
          verifying_key-from_slice key valid,
        )
