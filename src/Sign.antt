-- ===== src/Sign.antt =====
-- src/sign.rs: the signer. Its `parse_extension_vector` is that of src/blc.rs, word for word, and
-- stands in Blc.Fold; the offsets of a signature are those of src/verify.rs, and stand in Verify. The
-- arrays over the executions and the equations are filled in order, so each is the list of what the
-- rounds give.
pub mod Challenge
pub mod Equations
pub mod Masked
pub mod Batching
pub mod Executions
pub mod Alpha
pub mod Encoding
pub mod Written
pub mod Layout
pub mod Public
pub mod Accepted
pub mod Transcript
pub mod Complete
pub mod Checked
mod Tests
use mqom_rs.Base.{
  ℕ, zero, suc, ◌+◌, ◌-◌, ◌*◌, ◌^◌, bit_and, ◌<<<◌, ◌>>>◌, U8, to_u8, Option, none, some, List, [],
  ◌∷◌, length, take, drop, slice, get_or, true, false, ◌==◌, ◌>>=◌, ◌>>◌, guard,
}
use mqom_rs.Bytes.{filled, try_into, write_at}
use mqom_rs.Params.{mq_n, digest_size, tau, eta, grinding_bits, public_key_size, signature_size}
use mqom_rs.Crates.{Crates}
use mqom_rs.Xof.{shake128, new_state, absorb, squeeze, absorb_all}
use mqom_rs.Mq.{
  PackedEquation, equation_count, multiply_base, multiply_extension, row_extension, domain,
}
use mqom_rs.Keygen.{byte_array, keygen_seed_size}
use mqom_rs.Field.Packing.{zero_byte, unpack_gf16}
use mqom_rs.Field.Gf16.Element.{Gf16}
use mqom_rs.Field.Gf16.Element as Gf16
use mqom_rs.Field.Gf256x2.Element.{Gf256x2, encoded_len, scale_right}
use mqom_rs.Field.Gf256x2.Element as Gf256x2
use mqom_rs.Blc.Tree.{chunks}
use mqom_rs.Blc.Commit.{SigningCommitment, commit, open_commitment}
use mqom_rs.Verify.{
  first_commitment_offset, second_commitment_offset, alpha_one_offset, opening_offset, nonce_offset,
  challenge_stream_size, read_u16, read_indices, parse_rows, encoded_rows, collect_equations,
  verify,
}

-- `*element += *linear` over the zipped vectors.
unfoldable pub add_zip : List Gf256x2 → List Gf256x2 → List Gf256x2
add_zip [] linear = []
add_zip (e ∷ elements) [] = e ∷ elements
add_zip (e ∷ elements) (l ∷ linear) = Gf256x2.add e l ∷ add_zip elements linear

-- The loop that fills `t_one`.
unfoldable pub t_ones : List PackedEquation → List Gf16 → List (List Gf256x2)
t_ones [] secret = []
t_ones (equation ∷ equations) secret =
    add_zip (multiply_base equation secret) equation.linear ∷ t_ones equations secret

-- The loop over `t_zero`, `x_zero` and the secret, for `z_zero` and `z_one` of one equation.
unfoldable pub z_round :
    Gf256x2 → Gf256x2 → List Gf256x2 → List Gf256x2 → List Gf16 → Gf256x2 × Gf256x2
z_round z_zero z_one [] x_zero secret = (z_zero, z_one)
z_round z_zero z_one (t ∷ t_zero) [] secret = (z_zero, z_one)
z_round z_zero z_one (t ∷ t_zero) (x ∷ x_zero) [] = (z_zero, z_one)
z_round z_zero z_one (t ∷ t_zero) (x ∷ x_zero) (s ∷ secret) =
    z_round (Gf256x2.add z_zero (Gf256x2.mul t x)) (Gf256x2.add z_one (scale_right t s)) t_zero
      x_zero secret

-- `z_zero` and `z_one` of one equation.
unfoldable pub z_values :
    PackedEquation → List Gf256x2 → List Gf256x2 → List Gf16 → Gf256x2 × Gf256x2
z_values equation t_one x_zero secret =
    let t_zero = multiply_extension equation x_zero in
    let (z_zero, z_one) = z_round Gf256x2.zero Gf256x2.zero t_zero x_zero secret in
    (z_zero, row_extension z_one t_one x_zero)

-- The loop over the equations, from `equation_index` on.
unfoldable pub z_lists :
    List PackedEquation
    → List (List Gf256x2)
    → List Gf256x2
    → List Gf16
    → ℕ
    → ℕ
    → List Gf256x2 × List Gf256x2
z_lists equations t_one x_zero secret equation_index zero = ([], [])
z_lists equations t_one x_zero secret equation_index (suc left) =
    let equation = get_or equations equation_index (record { quadratic = []; linear = [] }) in
    let (zero_value, one_value) =
      z_values equation (get_or t_one equation_index []) x_zero secret in
    let (zeros, ones) = z_lists equations t_one x_zero secret (equation_index + 1) left in
    (zero_value ∷ zeros, one_value ∷ ones)

-- The loop over the components, from `component` on: `zero` or `one`, from the masks of the
-- commitment and the values of the equations.
unfoldable pub alpha_row : List (List Gf256x2) → List Gf256x2 → List Gf256x2 → ℕ → ℕ → List Gf256x2
alpha_row batching masks values component zero = []
alpha_row batching masks values component (suc left) =
    row_extension (get_or masks component Gf256x2.zero) (get_or batching component []) values
    ∷ alpha_row batching masks values (component + 1) left

-- `u32::to_le_bytes`.
abbrev pub nonce_bytes : ℕ → List U8
nonce_bytes n = to_u8 n ∷ to_u8 (n >>> 8) ∷ to_u8 (n >>> 16) ∷ to_u8 (n >>> 24) ∷ []

module _ ⦃c : Crates⦄ where
  unfoldable pub expand_equations : List U8 → Option (List PackedEquation)
  expand_equations master_seed = collect_equations master_seed 0 equation_count

  -- The loop over the executions, from `execution` on.
  unfoldable pub alpha_rows :
      List PackedEquation
      → List (List Gf256x2)
      → List (List Gf256x2)
      → SigningCommitment
      → List Gf16
      → ℕ
      → ℕ
      → List (List Gf256x2) × List (List Gf256x2)
  alpha_rows equations t_one batching commitment secret execution zero = ([], [])
  alpha_rows equations t_one batching commitment secret execution (suc left) =
      let (z_zero, z_one) =
        z_lists equations t_one (get_or commitment.x_zero execution []) secret 0 equation_count in
      let (zeros, ones) =
        alpha_rows equations t_one batching commitment secret (execution + 1) left in
      (
        alpha_row batching (get_or commitment.u_zero execution []) z_zero 0 eta ∷ zeros,
        alpha_row batching (get_or commitment.u_one execution []) z_one 0 eta ∷ ones,
      )

  unfoldable pub compute_alpha :
      List U8
      → SigningCommitment
      → List Gf16
      → List U8
      → Option (List (List Gf256x2) × List (List Gf256x2))
  compute_alpha first_commitment commitment secret master_seed = do
    let batching_stream =
        shake128 (domain 0x08 ∷ (first_commitment ∷ [])) (eta * equation_count * encoded_len)
    batching ← parse_rows equation_count (chunks (equation_count * encoded_len) eta batching_stream)
    equations ← expand_equations master_seed
    let t_one = t_ones equations secret
    some (alpha_rows equations t_one batching commitment secret 0 tau)

  -- The loop over the nonces, from `nonce_value` on, with the nonces left.
  unfoldable pub sample_loop : List U8 → ℕ → ℕ → Option (List ℕ × List U8)
  sample_loop hash nonce_value zero = none
  sample_loop hash nonce_value (suc left) =
      let nonce = nonce_bytes nonce_value in
      let stream = shake128 (domain 0x05 ∷ (hash ∷ (nonce ∷ []))) challenge_stream_size in
      let grinding = read_u16 stream (2 * tau) in
      let grinding_mask = (1 <<< grinding_bits) - 1 in
      elim (bit_and grinding grinding_mask == 0) [
        | true ↦ some (read_indices stream 0 tau, nonce)
        | false ↦ sample_loop hash (nonce_value + 1) left
      ]

  unfoldable pub sample_challenge : List U8 → Option (List ℕ × List U8)
  sample_challenge hash = sample_loop hash 0 (2 ^ 32)

  -- The loop that writes `alpha_one`, over the elements of a row.
  unfoldable pub write_row : List Gf256x2 → List U8 → ℕ → List U8 × ℕ
  write_row [] signature offset = (signature, offset)
  write_row (element ∷ row) signature offset =
      let encoded = byte_array element in
      write_row row (write_at signature offset encoded) (offset + length encoded)

  -- The same loop, over the rows.
  unfoldable pub write_rows : List (List Gf256x2) → List U8 → ℕ → List U8 × ℕ
  write_rows [] signature offset = (signature, offset)
  write_rows (row ∷ rows) signature offset =
      let (written, next) = write_row row signature offset in write_rows rows written next

  -- The signature up to the opening, without the second commitment, and the offset after it.
  unfoldable pub signature_head : List U8 → List U8 → List (List Gf256x2) → List U8 × ℕ
  signature_head salt first_commitment alpha_one =
      let with_salt = write_at (filled signature_size zero_byte) 0 salt in
      let with_first = write_at with_salt first_commitment_offset first_commitment in
      write_rows alpha_one with_first alpha_one_offset

  -- `second_commitment`, from `alpha_zero` and the encoded `alpha_one`.
  unfoldable pub commit_alpha : List (List Gf256x2) → List U8 → List U8
  commit_alpha alpha_zero serialized_alpha_one =
      let state = absorb_all (absorb new_state (domain 0x03)) (encoded_rows alpha_zero) in
      squeeze (absorb state serialized_alpha_one) digest_size

  -- `fiat_shamir_hash`, from the message and the rest of the transcript.
  unfoldable pub fiat_shamir : List U8 → List U8 → List U8 → List U8 → List U8
  fiat_shamir public_key first_commitment second_commitment message =
      let message_hash = shake128 (domain 0x02 ∷ (message ∷ [])) digest_size in
      shake128
        (domain 0x04
          ∷ (public_key ∷ (first_commitment ∷ (second_commitment ∷ (message_hash ∷ [])))))
        digest_size

  unfoldable pub sign : List U8 → List U8 → List U8 → List U8 → Option (List U8)
  sign secret_key message master_seed salt = do
    public_key ← try_into public_key_size (take public_key_size secret_key)
    equation_seed ← try_into keygen_seed_size (take keygen_seed_size public_key)
    let (unpacked, secret) = unpack_gf16 (drop public_key_size secret_key) (filled mq_n Gf16.zero)
    guard unpacked
    commitment ← commit master_seed salt secret
    let first_commitment = commitment.commitment
    alpha ← compute_alpha first_commitment commitment secret equation_seed
    let (with_alpha, end) = signature_head salt first_commitment alpha.1
    guard (end == opening_offset)
    let second_commitment = commit_alpha alpha.0 (slice alpha_one_offset opening_offset with_alpha)
    let with_second = write_at with_alpha second_commitment_offset second_commitment
    challenge ← sample_challenge (fiat_shamir public_key first_commitment second_commitment message)
    opening ← open_commitment commitment challenge.0
    let with_opening = write_at with_second opening_offset opening
    let signature = write_at with_opening nonce_offset challenge.1
    guard (verify public_key message signature)
    some signature
