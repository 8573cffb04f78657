-- ===== src/Sign/Checked.antt =====
-- The signer checks its own output: a signature that `sign` returns is one that `verify` accepts.
use mqom_rs.Base.{
  ℕ, slice, ◌≡◌, ◌⊎◌, inl, inr, refl, sym, ap, ◌∙◌, arith, U8, Option, none, some, List, take, drop,
  true, >>=-eq-some, guard-eq-some, some_inj,
}
use mqom_rs.Bytes.{filled, try_into}
use mqom_rs.Params.{mq_n, public_key_size}
use mqom_rs.Crates.{Crates}
use mqom_rs.Keygen.{keygen_seed_size}
use mqom_rs.Field.Packing.{unpack_gf16}
use mqom_rs.Field.Gf16.Element.{Gf16}
use mqom_rs.Field.Gf16.Element as Gf16
use mqom_rs.Blc.Commit.{commit, open_commitment}
use mqom_rs.Verify.{verify, alpha_one_offset, opening_offset}
use mqom_rs.Sign.{compute_alpha, sample_challenge, signature_head, commit_alpha, fiat_shamir, sign}

try_into_sound :
    {A : Type 0} {ys : List A} (n : ℕ) (xs : List A) → try_into n xs ≡ some ys → xs ≡ ys
unfolding try_into
try_into_sound n xs e = ground arith

module _ ⦃c : Crates⦄ where
  pub accepted :
      (secret_key message master_seed salt signature : List U8)
      → sign secret_key message master_seed salt ≡ some signature
      → verify (take public_key_size secret_key) message signature ≡ true
  unfolding sign
  accepted secret_key message master_seed salt signature e =
      let (public_key, is_prefix, e₁) =
        >>=-eq-some (try_into public_key_size (take public_key_size secret_key)) _ e in
      let (equation_seed, _, e₂) =
        >>=-eq-some (try_into keygen_seed_size (take keygen_seed_size public_key)) _ e₁ in
      let (_, e₃) = guard-eq-some _ _ e₂ in
      let (commitment, _, e₄) = >>=-eq-some (commit master_seed salt secret) _ e₃ in
      let (alpha, _, e₅) =
        >>=-eq-some (compute_alpha commitment.commitment commitment secret equation_seed) _ e₄ in
      let head = signature_head salt commitment.commitment alpha.1 in
      let second_commitment = commit_alpha alpha.0 (slice alpha_one_offset opening_offset head.0) in
      let (_, e₆) = guard-eq-some _ _ e₅ in
      let (challenge, _, e₇) =
        >>=-eq-some
          (sample_challenge
            (fiat_shamir public_key commitment.commitment second_commitment message))
          _ e₆ in
      let (opening, _, e₈) = >>=-eq-some (open_commitment commitment challenge.0) _ e₇ in
      let (verified, e₉) = guard-eq-some _ _ e₈ in
      ap (λ key. verify key message signature)
        (try_into_sound public_key_size (take public_key_size secret_key) is_prefix)
      ∙ ap (verify public_key message) (sym (some_inj e₉))
      ∙ verified
    where
      secret : List Gf16
      secret = (unpack_gf16 (drop public_key_size secret_key) (filled mq_n Gf16.zero)).1

  -- `sign` returns nothing, or a signature that `verify` accepts for the public key in the secret key.
  pub sign-verify :
      (secret_key message master_seed salt : List U8)
      → (sign secret_key message master_seed salt ≡ none)
        ⊎ ((signature : List U8) × (sign secret_key message master_seed salt ≡ some signature)
            × (verify (take public_key_size secret_key) message signature ≡ true))
  sign-verify secret_key message master_seed salt =
      outcome (sign secret_key message master_seed salt) refl
    where
      outcome :
          (result : Option (List U8))
          → sign secret_key message master_seed salt ≡ result
          → (sign secret_key message master_seed salt ≡ none)
            ⊎ ((signature : List U8) × (sign secret_key message master_seed salt ≡ some signature)
                × (verify (take public_key_size secret_key) message signature ≡ true))
      outcome none e = inl e
      outcome (some signature) e =
          inr (signature, e, accepted secret_key message master_seed salt signature e)
