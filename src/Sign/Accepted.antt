-- ===== src/Sign/Accepted.antt =====
-- The verifier accepts a signature of the layout of the signer whose parts fit together.
use mqom_rs.Base.{
  ℕ, ◌*◌, ◌≡◌, refl, sym, ap, ◌∙◌, arith, U8, some, List, length, take, drop, true, ==_iff,
  length-take,
}
use mqom_rs.Bytes.{try_into-some}
use mqom_rs.Params.{salt_size, digest_size, eta, tau, opening_size, signature_size, public_key_size}
use mqom_rs.Crates.{Crates}
use mqom_rs.Xof.{new_state, absorb, absorb_all, squeeze, length-squeeze}
use mqom_rs.Mq.{equation_count, domain}
use mqom_rs.Field.Gf256x2.Element.{Gf256x2, encoded_len}
use mqom_rs.Blc.Tree.{chunks}
use mqom_rs.Blc.Fold.{parse_extension_vector}
use mqom_rs.Blc.Evaluate.{OpenedEvaluations, evaluate_opening}
use mqom_rs.Blc.Line.Sizes.{AllRows}
use mqom_rs.Verify.{
  parse_rows, encoded_rows, nonce_size, alpha_one_size, public_seed_size, parse_challenge,
  recompute_alpha_zero, verify, verify_inner,
}
use mqom_rs.Sign.{commit_alpha, fiat_shamir}
use mqom_rs.Sign.Encoding.{encoded_all, length-encoded_all, parse_rows-encoded_all}
use mqom_rs.Sign.Layout.{
  with_nonce, size_nonce, salt_part, first_part, second_part, alpha_part, opening_part, nonce_part,
}

module _ ⦃c : Crates⦄ (salt first opening nonce : List U8)
    (alpha_zero alpha_one : List (List Gf256x2)) where
  abbrev pub alpha_bytes : List U8
  alpha_bytes = encoded_all alpha_one

  abbrev pub second : List U8
  second = commit_alpha alpha_zero alpha_bytes

  abbrev pub signature : List U8
  signature = with_nonce salt first alpha_bytes second opening nonce

  module _ (public_key message : List U8) (key_length : length public_key ≡ public_key_size)
      (salt_length : length salt ≡ salt_size) (first_length : length first ≡ digest_size)
      (rows : length alpha_one ≡ tau) (sized : AllRows eta alpha_one)
      (opening_length : length opening ≡ opening_size)
      (nonce_length : length nonce ≡ nonce_size) where
    pub length-alpha_bytes : length alpha_bytes ≡ alpha_one_size
    length-alpha_bytes = length-encoded_all eta alpha_one sized ∙ ap (λ k. k * (eta * 2)) rows

    pub length-second : length second ≡ digest_size
    unfolding commit_alpha
    length-second = length-squeeze _ digest_size

    parsed_alpha : parse_rows eta (chunks (eta * encoded_len) tau alpha_bytes) ≡ some alpha_one
    parsed_alpha =
        ap (λ k. parse_rows eta (chunks (eta * encoded_len) k alpha_bytes)) (sym rows)
        ∙ parse_rows-encoded_all eta alpha_one sized

    observed :
        c.ct_eq
          (squeeze
            (absorb
              (absorb_all (absorb new_state (domain 0x03)) (encoded_rows alpha_zero))
              alpha_bytes)
            digest_size)
          second
        ≡ true
    unfolding commit_alpha
    observed = (c.ct_eq_iff second second).1 refl

    pub verify-signature :
        (outputs : List Gf256x2) (indices : List ℕ) (opened : OpenedEvaluations)
        → parse_extension_vector equation_count (drop public_seed_size public_key) ≡ some outputs
        → parse_challenge (fiat_shamir public_key first second message) nonce ≡ some indices
        → evaluate_opening salt first opening indices ≡ some opened
        → recompute_alpha_zero first alpha_one indices opened
            (take public_seed_size public_key)
            outputs
          ≡ some alpha_zero
        → verify public_key message signature ≡ true
    unfolding fiat_shamir verify verify_inner
    verify-signature outputs indices opened parsed challenged evaluated recomputed = rw (
      (==_iff (length public_key) public_key_size).1 key_length,
      verify,
      verify_inner,
      (==_iff (length signature) signature_size).1 (
          size_nonce salt first alpha_bytes second opening nonce salt_length first_length
            length-alpha_bytes length-second opening_length nonce_length),
      try_into-some public_seed_size (take public_seed_size public_key)
          (omega (arith, length-take public_seed_size public_key, key_length)),
      parsed,
      salt_part salt first alpha_bytes second opening nonce salt_length first_length
          length-alpha_bytes length-second opening_length nonce_length,
      try_into-some salt_size salt salt_length,
      first_part salt first alpha_bytes second opening nonce salt_length first_length
          length-alpha_bytes length-second opening_length nonce_length,
      try_into-some digest_size first first_length,
      second_part salt first alpha_bytes second opening nonce salt_length first_length
          length-alpha_bytes length-second opening_length nonce_length,
      try_into-some digest_size second length-second,
      nonce_part salt first alpha_bytes second opening nonce salt_length first_length
          length-alpha_bytes length-second opening_length nonce_length,
      try_into-some nonce_size nonce nonce_length,
      challenged,
      opening_part salt first alpha_bytes second opening nonce salt_length first_length
          length-alpha_bytes length-second opening_length nonce_length,
      evaluated,
      alpha_part salt first alpha_bytes second opening nonce salt_length first_length
          length-alpha_bytes length-second opening_length nonce_length,
      parsed_alpha,
      recomputed,
      observed,
    )
