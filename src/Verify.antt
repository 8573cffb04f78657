-- ===== src/Verify.antt =====
-- src/verify.rs: the verification of a signature. Its `parse_extension_vector` is that of src/blc.rs,
-- word for word, and stands in Blc.Fold. `Some(())` is `some tt`; the arrays over the
-- executions and the equations are filled in order, so each is the list of what the rounds give.
pub mod Line
pub mod Reject
mod Tests
use mqom_rs.Base.{
  ℕ, zero, suc, ◌+◌, ◌-◌, ◌*◌, bit_and, bit_xor, ◌<<<◌, ◌>>>◌, U8, Option, none, some, List, [],
  ◌∷◌, length, take, drop, slice, get_or, Bool, true, false, ◌==◌, ◌&&◌, ◌>>=◌, ◌>>◌, guard,
}
use mqom_rs.Bytes.{try_into}
use mqom_rs.Params.{
  seed_size, salt_size, digest_size, tau, eta, nb_evals, grinding_bits, public_key_size,
  signature_size,
}
use mqom_rs.Crates.{Crates}
use mqom_rs.Xof.{shake128, new_state, absorb, squeeze, absorb_all}
use mqom_rs.Mq.{
  PackedEquation, equation_count, multiply_extension, row_extension, expand_equation, domain,
}
use mqom_rs.Keygen.{byte_array}
use mqom_rs.Field.Packing.{zero_byte}
use mqom_rs.Field.Gf256x2.Element.{Gf256x2, encoded_len, u16_from_le_bytes}
use mqom_rs.Field.Gf256x2.Element as Gf256x2
use mqom_rs.Blc.Tree.{chunks}
use mqom_rs.Blc.Fold.{parse_extension_vector, point_of, add_mask}
use mqom_rs.Blc.Evaluate.{OpenedEvaluations, evaluate_opening}

abbrev pub salt_offset : ℕ
salt_offset = 0

abbrev pub first_commitment_offset : ℕ
first_commitment_offset = salt_offset + salt_size

abbrev pub second_commitment_offset : ℕ
second_commitment_offset = first_commitment_offset + digest_size

abbrev pub alpha_one_offset : ℕ
alpha_one_offset = second_commitment_offset + digest_size

abbrev pub alpha_one_size : ℕ
alpha_one_size = tau * eta * encoded_len

abbrev pub opening_offset : ℕ
opening_offset = alpha_one_offset + alpha_one_size

abbrev pub nonce_size : ℕ
nonce_size = 4

abbrev pub nonce_offset : ℕ
nonce_offset = signature_size - nonce_size

abbrev pub challenge_stream_size : ℕ
challenge_stream_size = 2 * tau + 2

abbrev pub public_seed_size : ℕ
public_seed_size = 2 * seed_size

unfoldable pub evaluation_point : ℕ → Gf256x2
evaluation_point index = point_of (bit_xor index (index >>> 1))

-- `u16::from_le_bytes([stream[offset], stream[offset + 1]])`.
abbrev pub read_u16 : List U8 → ℕ → ℕ
read_u16 stream offset =
    u16_from_le_bytes (get_or stream offset zero_byte) (get_or stream (offset + 1) zero_byte)

-- The hidden indices, from `execution` on.
unfoldable pub read_indices : List U8 → ℕ → ℕ → List ℕ
read_indices stream execution zero = []
read_indices stream execution (suc left) =
    bit_and (read_u16 stream (2 * execution)) (nb_evals - 1)
    ∷ read_indices stream (execution + 1) left

-- `parse_extension_vector` of every chunk, stopping at the first that fails.
unfoldable pub parse_rows : ℕ → List (List U8) → Option (List (List Gf256x2))
parse_rows n [] = some []
parse_rows n (encoded ∷ rest) = do
  row ← parse_extension_vector n encoded
  rows ← parse_rows n rest
  some (row ∷ rows)

-- `*element += evaluation_point * *linear` is `add_mask`. The inner loop over `t_evaluation`.
unfoldable pub z_evaluation : PackedEquation → List Gf256x2 → Gf256x2 → Gf256x2 → Gf256x2
z_evaluation equation x evaluation_point public_output =
    let evaluation_point_squared = Gf256x2.square evaluation_point in
    let t_evaluation = add_mask (multiply_extension equation x) equation.linear evaluation_point in
    Gf256x2.add (row_extension Gf256x2.zero t_evaluation x)
      (Gf256x2.mul evaluation_point_squared public_output)

-- The loop over the equations and the public outputs.
unfoldable pub z_evaluations :
    List PackedEquation → List Gf256x2 → List Gf256x2 → Gf256x2 → List Gf256x2
z_evaluations [] public_output x evaluation_point = []
z_evaluations (equation ∷ equations) [] x evaluation_point =
    Gf256x2.zero ∷ z_evaluations equations [] x evaluation_point
z_evaluations (equation ∷ equations) (output ∷ public_output) x evaluation_point =
    z_evaluation equation x evaluation_point output
    ∷ z_evaluations equations public_output x evaluation_point

-- The loop over the components: the batching row, the mask and `alpha_one` of each.
unfoldable pub alpha_components :
    List (List Gf256x2) → List Gf256x2 → List Gf256x2 → List Gf256x2 → Gf256x2 → List Gf256x2
alpha_components [] u alpha_one z evaluation_point = []
alpha_components (row ∷ batching) u alpha_one z evaluation_point =
    let mask = get_or u 0 Gf256x2.zero in
    let value = row_extension mask row z in
    Gf256x2.add value (Gf256x2.mul evaluation_point (get_or alpha_one 0 Gf256x2.zero))
    ∷ alpha_components batching (drop 1 u) (drop 1 alpha_one) z evaluation_point

-- The loop over the executions, over the hidden indices.
unfoldable pub alpha_executions :
    List PackedEquation
    → List (List Gf256x2)
    → List Gf256x2
    → List ℕ
    → List (List Gf256x2)
    → List (List Gf256x2)
    → List (List Gf256x2)
    → List (List Gf256x2)
alpha_executions equations batching public_output [] x u alpha_one = []
alpha_executions equations batching public_output (hidden_index ∷ hidden_indices) x u alpha_one =
    let point = evaluation_point hidden_index in
    let z = z_evaluations equations public_output (get_or x 0 []) point in
    alpha_components batching (get_or u 0 []) (get_or alpha_one 0 []) z point
    ∷ alpha_executions equations batching public_output hidden_indices (drop 1 x) (drop 1 u)
        (drop 1 alpha_one)

abbrev pub encoded_rows : List (List Gf256x2) → List (List U8)
encoded_rows [] = []
encoded_rows ([] ∷ rows) = encoded_rows rows
encoded_rows ((a ∷ row) ∷ rows) = byte_array a ∷ encoded_rows (row ∷ rows)

module _ ⦃c : Crates⦄ where
  unfoldable pub parse_challenge : List U8 → List U8 → Option (List ℕ)
  parse_challenge hash nonce = do
    let stream = shake128 (domain 0x05 ∷ (hash ∷ (nonce ∷ []))) challenge_stream_size
    let indices = read_indices stream 0 tau
    let grinding = read_u16 stream (2 * tau)
    let grinding_mask = (1 <<< grinding_bits) - 1
    guard (bit_and grinding grinding_mask == 0)
    some indices

  -- The equations from `index` on.
  unfoldable pub collect_equations : List U8 → ℕ → ℕ → Option (List PackedEquation)
  collect_equations master_seed index zero = some []
  collect_equations master_seed index (suc left) = do
    equation ← expand_equation master_seed index
    rest ← collect_equations master_seed (index + 1) left
    some (equation ∷ rest)

  unfoldable pub expand_equations : List U8 → Option (List PackedEquation)
  expand_equations master_seed = do
    equations ← collect_equations master_seed 0 equation_count
    guard (length equations == equation_count)
    some equations

  unfoldable pub recompute_alpha_zero :
      List U8
      → List (List Gf256x2)
      → List ℕ
      → OpenedEvaluations
      → List U8
      → List Gf256x2
      → Option (List (List Gf256x2))
  recompute_alpha_zero first_commitment alpha_one hidden_indices opened master_seed public_output =
      do
        let batching_stream =
            shake128 (domain 0x08 ∷ (first_commitment ∷ [])) (eta * equation_count * encoded_len)
        batching ←
            parse_rows equation_count (chunks (equation_count * encoded_len) eta batching_stream)
        equations ← expand_equations master_seed
        some (
            alpha_executions equations batching public_output hidden_indices opened.x opened.u
              alpha_one)

  unfoldable pub verify_inner : List U8 → List U8 → List U8 → Option (Unit {0})
  verify_inner public_key message signature = do
    guard (length public_key == public_key_size && length signature == signature_size)
    master_seed ← try_into public_seed_size (take public_seed_size public_key)
    public_output ← parse_extension_vector equation_count (drop public_seed_size public_key)
    salt ← try_into salt_size (slice salt_offset (salt_offset + salt_size) signature)
    first_commitment ←
        try_into digest_size
          (slice first_commitment_offset (first_commitment_offset + digest_size) signature)
    second_commitment ←
        try_into digest_size
          (slice second_commitment_offset (second_commitment_offset + digest_size) signature)
    let serialized_alpha_one = slice alpha_one_offset opening_offset signature
    let opening = slice opening_offset nonce_offset signature
    nonce ← try_into nonce_size (drop nonce_offset signature)
    let message_hash = shake128 (domain 0x02 ∷ (message ∷ [])) digest_size
    let fiat_shamir_hash =
        shake128
          (domain 0x04
            ∷ (public_key ∷ (first_commitment ∷ (second_commitment ∷ (message_hash ∷ [])))))
          digest_size
    hidden_indices ← parse_challenge fiat_shamir_hash nonce
    opened ← evaluate_opening salt first_commitment opening hidden_indices
    alpha_one ← parse_rows eta (chunks (eta * encoded_len) tau serialized_alpha_one)
    alpha_zero ←
        recompute_alpha_zero first_commitment alpha_one hidden_indices opened master_seed
          public_output
    let state = absorb_all (absorb new_state (domain 0x03)) (encoded_rows alpha_zero)
    let observed = squeeze (absorb state serialized_alpha_one) digest_size
    guard (c.ct_eq observed second_commitment)
    some tt

  -- `verify`, the Boolean of `verify_inner`.
  unfoldable pub verify : List U8 → List U8 → List U8 → Bool
  verify public_key message signature = elim (verify_inner public_key message signature) [
    | none ↦ false
    | some _ ↦ true
  ]
