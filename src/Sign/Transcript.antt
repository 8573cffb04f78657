-- ===== src/Sign/Transcript.antt =====
-- The signer of src/sign.rs up to the challenge: its commitment, its alpha, and the hash from which it
-- draws the challenge.
use mqom_rs.Base.{
  ◌*◌, ◌≡◌, ◌>>=◌, ◌>>◌, guard, refl, sym, ap, ◌∙◌, arith, U8, some, List, length, take, drop, true,
  some_inj, length-take, length-drop, take-take,
}
use mqom_rs.Bytes.{filled, length-filled, write_at, length-write_at, try_into-some}
use mqom_rs.Bytes.Slices.{slice_same}
use mqom_rs.Params.{
  mq_n, eta, tau, seed_size, salt_size, signature_size, public_key_size, secret_key_size,
}
use mqom_rs.Crates.{Crates}
use mqom_rs.Field.Packing.{zero_byte}
use mqom_rs.Field.Packing.Laws.{halves, length-halves}
use mqom_rs.Field.Gf16.Element.{Gf16}
use mqom_rs.Field.Gf256x2.Element.{Gf256x2}
use mqom_rs.Keygen.{keygen_seed_size, secret_key_is_consistent}
use mqom_rs.Keygen.Generate.{unpack_secret}
use mqom_rs.Blc.Commit.{SigningCommitment, commit, open_commitment}
use mqom_rs.Blc.Line.Sizes.{AllRows, IsLineSized}
use mqom_rs.Blc.Line.Accepted.{commit-IsLineSized}
use mqom_rs.Verify.{
  opening_offset, alpha_one_size, alpha_one_offset, first_commitment_offset, verify,
}
use mqom_rs.Sign.{compute_alpha, sample_challenge, commit_alpha, fiat_shamir, signature_head, sign}
use mqom_rs.Sign.Encoding.{encoded_all, length-encoded_all}
use mqom_rs.Sign.Equations.{pair, z_zeros, z_ones}
use mqom_rs.Sign.Executions.{alphas, length-alphas, alphas-AllRows}
use mqom_rs.Sign.Alpha.{equations_of, batching, length-batching, compute_alpha_lem}
use mqom_rs.Sign.Written.{write_rows-write_at}
use mqom_rs.Sign.Accepted.{signature}

module _ ⦃c : Crates⦄ (secret_key message salt : List U8) (committed : SigningCommitment) where
  abbrev pub public_key : List U8
  public_key = take public_key_size secret_key

  abbrev pub equation_seed : List U8
  equation_seed = take keygen_seed_size secret_key

  abbrev pub secret : List Gf16
  secret = halves (drop public_key_size secret_key)

  abbrev pub first : List U8
  first = committed.commitment

  abbrev pub alpha_zero : List (List Gf256x2)
  alpha_zero =
      alphas (batching first) (λ x. z_zeros (equations_of equation_seed) x) committed.u_zero
        committed.x_zero

  abbrev pub alpha_one : List (List Gf256x2)
  alpha_one =
      alphas (batching first) (λ x. z_ones (equations_of equation_seed) x secret) committed.u_one
        committed.x_zero

  abbrev pub transcript : List U8
  transcript =
      fiat_shamir public_key first (commit_alpha alpha_zero (encoded_all alpha_one)) message

  module _ (master_seed : List U8) (key_size : length secret_key ≡ secret_key_size)
      (consistent : secret_key_is_consistent secret_key ≡ true)
      (master_size : length master_seed ≡ seed_size) (salt_length : length salt ≡ salt_size)
      (commits : commit master_seed salt secret ≡ some committed) where
    pub secret_size : length secret ≡ mq_n
    secret_size = omega (
      arith,
      key_size,
      length-drop public_key_size secret_key,
      length-halves (drop public_key_size secret_key),
    )

    pub key_length : length public_key ≡ public_key_size
    key_length = omega (arith, key_size, length-take public_key_size secret_key)

    pub seed_of_public : take keygen_seed_size public_key ≡ equation_seed
    seed_of_public = take-take keygen_seed_size public_key_size secret_key (omega arith)

    pub sizes : IsLineSized committed
    sizes = commit-IsLineSized master_seed salt secret master_size secret_size committed commits

    pub rows : length alpha_one ≡ tau
    rows =
        length-alphas (batching first) (λ x. z_ones (equations_of equation_seed) x secret)
          committed.u_one committed.x_zero (sizes.2 ∙ sym sizes.0)
        ∙ sizes.0

    pub sized : AllRows eta alpha_one
    sized j lt =
        alphas-AllRows (batching first) (λ x. z_ones (equations_of equation_seed) x secret)
          committed.u_one committed.x_zero j lt
        ∙ length-batching first

    alpha_length : length (encoded_all alpha_one) ≡ alpha_one_size
    alpha_length = length-encoded_all eta alpha_one sized ∙ ap (λ k. k * (eta * 2)) rows

    -- The signature with its salt and its first commitment.
    abbrev blank : List U8
    blank = filled signature_size zero_byte

    abbrev with_commitment : List U8
    with_commitment = write_at (write_at blank 0 salt) first_commitment_offset first

    length-with_commitment : length with_commitment ≡ signature_size
    length-with_commitment =
        let size = length-filled signature_size zero_byte in
        let salted = length-write_at blank 0 salt (omega (arith, salt_length, size)) in
        length-write_at (write_at blank 0 salt) first_commitment_offset first
          (omega (arith, salted, size, sizes.6))
        ∙ salted
        ∙ size

    head_lem :
        signature_head salt first alpha_one
        ≡ (write_at with_commitment alpha_one_offset (encoded_all alpha_one), opening_offset)
    unfolding signature_head
    head_lem =
        write_rows-write_at alpha_one with_commitment alpha_one_offset
          (omega (arith, alpha_length, length-with_commitment))
        ∙ pair refl (omega (arith, alpha_length))

    pub alpha_lem :
        (alpha : List (List Gf256x2) × List (List Gf256x2))
        → compute_alpha first committed secret equation_seed ≡ some alpha
        → (alpha_zero, alpha_one) ≡ alpha
    alpha_lem alpha computed =
        some_inj (
          sym (compute_alpha_lem first equation_seed committed secret secret_size sizes) ∙ computed)

    -- What `sign` does with the challenge, given all before it.
    pub sign-sample_challenge : sign secret_key message master_seed salt ≡ (
        sample_challenge transcript >>= λ challenge.
        open_commitment committed challenge.0 >>= λ opening.
        guard (
          verify public_key message (signature salt first opening challenge.1 alpha_zero alpha_one))
        >> some (signature salt first opening challenge.1 alpha_zero alpha_one))
    unfolding sign
    sign-sample_challenge = rw (
      try_into-some public_key_size public_key key_length,
      sign,
      seed_of_public,
      try_into-some keygen_seed_size equation_seed
          (omega (arith, key_size, length-take keygen_seed_size secret_key)),
      unpack_secret (drop public_key_size secret_key)
          (omega (arith, key_size, length-drop public_key_size secret_key)),
      commits,
      compute_alpha_lem first equation_seed committed secret secret_size sizes,
      head_lem,
      slice_same with_commitment (encoded_all alpha_one) alpha_one_offset
          (omega (arith, alpha_length, length-with_commitment)) alpha_one_size alpha_length,
    )
