-- ===== src/Sign/Layout.antt =====
-- The layout of a signature: where the signer writes each part, and that the slices of the verifier
-- give the parts back.
use mqom_rs.Base.{
  ℕ, ◌+◌, ◌≤◌, ◌≡◌, inl, inr, sym, ◌∙◌, arith, U8, List, length, drop, slice, take_all, length-drop,
}
use mqom_rs.Bytes.{filled, length-filled, write_at, length-write_at}
use mqom_rs.Bytes.Slices.{slice_same, slice_other}
use mqom_rs.Params.{salt_size, digest_size, opening_size, signature_size}
use mqom_rs.Field.Packing.{zero_byte}
use mqom_rs.Verify.{
  salt_offset, first_commitment_offset, second_commitment_offset, alpha_one_offset, alpha_one_size,
  opening_offset, nonce_size, nonce_offset,
}

module _ (salt first alpha second opening nonce : List U8) where
  -- The signature after each write, in the order of the signer.
  abbrev pub with_salt : List U8
  with_salt = write_at (filled signature_size zero_byte) 0 salt

  abbrev pub with_first : List U8
  with_first = write_at with_salt first_commitment_offset first

  abbrev pub with_alpha : List U8
  with_alpha = write_at with_first alpha_one_offset alpha

  abbrev pub with_second : List U8
  with_second = write_at with_alpha second_commitment_offset second

  abbrev pub with_opening : List U8
  with_opening = write_at with_second opening_offset opening

  abbrev pub with_nonce : List U8
  with_nonce = write_at with_opening nonce_offset nonce

  module _ (salt_length : length salt ≡ salt_size) (first_length : length first ≡ digest_size)
      (alpha_length : length alpha ≡ alpha_one_size) (second_length : length second ≡ digest_size)
      (opening_length : length opening ≡ opening_size)
      (nonce_length : length nonce ≡ nonce_size) where
    size_salt : length with_salt ≡ signature_size
    size_salt =
        length-write_at (filled signature_size zero_byte) 0 salt
          (omega (arith, salt_length, length-filled signature_size zero_byte))
        ∙ length-filled signature_size zero_byte

    pub size_first : length with_first ≡ signature_size
    size_first =
        length-write_at with_salt first_commitment_offset first
          (omega (arith, first_length, size_salt))
        ∙ size_salt

    size_alpha : length with_alpha ≡ signature_size
    size_alpha =
        length-write_at with_first alpha_one_offset alpha (omega (arith, alpha_length, size_first))
        ∙ size_first

    size_second : length with_second ≡ signature_size
    size_second =
        length-write_at with_alpha second_commitment_offset second
          (omega (arith, second_length, size_alpha))
        ∙ size_alpha

    size_opening : length with_opening ≡ signature_size
    size_opening =
        length-write_at with_second opening_offset opening
          (omega (arith, opening_length, size_second))
        ∙ size_second

    pub size_nonce : length with_nonce ≡ signature_size
    size_nonce =
        length-write_at with_opening nonce_offset nonce (omega (arith, nonce_length, size_opening))
        ∙ size_opening

    -- What a later write leaves.
    past_nonce :
        (a b : ℕ) → a ≤ b → b ≤ nonce_offset → slice a b with_nonce ≡ slice a b with_opening
    past_nonce a b h before =
        slice_other with_opening nonce nonce_offset (omega (arith, nonce_length, size_opening)) a b
          h (inl before)

    past_opening :
        (a b : ℕ) → a ≤ b → b ≤ opening_offset → slice a b with_nonce ≡ slice a b with_second
    past_opening a b h before =
        past_nonce a b h (omega (arith, before))
        ∙ slice_other with_second opening opening_offset
            (omega (arith, opening_length, size_second)) a b h (inl before)

    past_alpha :
        (a b : ℕ)
        → a ≤ b
        → b ≤ second_commitment_offset
        → slice a b with_nonce ≡ slice a b with_first
    past_alpha a b h before =
        past_opening a b h (omega (arith, before))
        ∙ slice_other with_alpha second second_commitment_offset
            (omega (arith, second_length, size_alpha)) a b h (inl before)
        ∙ slice_other with_first alpha alpha_one_offset (omega (arith, alpha_length, size_first)) a
            b h (inl (omega (arith, before)))

    -- Each part is read back.
    pub salt_part : slice salt_offset (salt_offset + salt_size) with_nonce ≡ salt
    salt_part =
        past_alpha 0 16 (omega arith) (omega arith)
        ∙ slice_other with_salt first first_commitment_offset
            (omega (arith, first_length, size_salt)) 0 16 (omega arith) (inl (omega arith))
        ∙ slice_same (filled signature_size zero_byte) salt 0
            (omega (arith, salt_length, length-filled signature_size zero_byte)) 16 salt_length

    pub first_part :
        slice first_commitment_offset (first_commitment_offset + digest_size) with_nonce ≡ first
    first_part =
        past_alpha 16 48 (omega arith) (omega arith)
        ∙ slice_same with_salt first 16 (omega (arith, first_length, size_salt)) 32 first_length

    pub second_part :
        slice second_commitment_offset (second_commitment_offset + digest_size) with_nonce ≡ second
    second_part =
        past_opening 48 80 (omega arith) (omega arith)
        ∙ slice_same with_alpha second 48 (omega (arith, second_length, size_alpha)) 32
            second_length

    -- The encoded alpha_one, when the signer commits to it and at the end.
    pub alpha_early_part : slice alpha_one_offset opening_offset with_alpha ≡ alpha
    alpha_early_part =
        slice_same with_first alpha 80 (omega (arith, alpha_length, size_first)) 192 alpha_length

    pub alpha_part : slice alpha_one_offset opening_offset with_nonce ≡ alpha
    alpha_part =
        past_opening 80 272 (omega arith) (omega arith)
        ∙ slice_other with_alpha second second_commitment_offset
            (omega (arith, second_length, size_alpha)) 80 272 (omega arith)
            (inr (omega (arith, second_length)))
        ∙ alpha_early_part

    pub opening_part : slice opening_offset nonce_offset with_nonce ≡ opening
    opening_part =
        past_nonce 272 2912 (omega arith) (omega arith)
        ∙ slice_same with_second opening 272 (omega (arith, opening_length, size_second)) 2640
            opening_length

    pub nonce_part : drop nonce_offset with_nonce ≡ nonce
    nonce_part =
        sym (
          take_all 4 (drop nonce_offset with_nonce)
            (omega (arith, size_nonce, length-drop nonce_offset with_nonce)))
        ∙ slice_same with_opening nonce 2912 (omega (arith, nonce_length, size_opening)) 4
            nonce_length
