-- ===== src/Keygen.antt =====
-- src/keygen.rs: the deterministic core of key generation, and the check of a secret key.
pub mod Outputs
pub mod Generate
pub mod Check
pub mod Generated
mod Tests
use mqom_rs.Base.{
  ℕ, zero, suc, ◌+◌, ◌*◌, ◌/◌, U8, Option, none, some, List, [], ◌∷◌, length, take, drop, slice,
  Bool, true, false, ◌&&◌, ◌>>=◌, ◌>>◌, guard,
}
use mqom_rs.Bytes.{filled, try_into, write_at}
use mqom_rs.Params.{mq_n, base_field_bits, seed_size, public_key_size, secret_key_size}
use mqom_rs.Crates.{Crates}
use mqom_rs.Xof.{shake128}
use mqom_rs.Field.Packing.{zero_byte, unpack_gf16}
use mqom_rs.Field.Gf16.Element.{Gf16}
use mqom_rs.Field.Gf16.Element as Gf16
use mqom_rs.Field.Gf256x2.Element.{Gf256x2, to_bytes}
use mqom_rs.Mq.{equation_count, expand_equation, evaluate_base, domain}

abbrev pub keygen_seed_size : ℕ
keygen_seed_size = 2 * seed_size

abbrev pub secret_vector_size : ℕ
secret_vector_size = mq_n * base_field_bits / 8

abbrev pub expansion_size : ℕ
expansion_size = secret_vector_size + keygen_seed_size

-- `to_bytes` as an array.
abbrev pub byte_array : Gf256x2 → List U8
byte_array a = let (b0, b1) = to_bytes a in b0 ∷ b1 ∷ []

module _ ⦃c : Crates⦄ where
  -- The loop of `keypair_from_seed` from `equation_index`, of which `left` rounds are left.
  unfoldable pub output_loop : List U8 → List Gf16 → ℕ → ℕ → List U8 → Option (List U8)
  output_loop master_seed secret_vector equation_index zero public_key = some public_key
  output_loop master_seed secret_vector equation_index (suc left) public_key = do
    equation ← expand_equation master_seed equation_index
    let output = byte_array (evaluate_base equation secret_vector)
    let offset = keygen_seed_size + equation_index * length output
    output_loop master_seed secret_vector (equation_index + 1) left
        (write_at public_key offset output)

  unfoldable pub keypair_from_seed : List U8 → Option (List U8 × List U8)
  keypair_from_seed seed = do
    let expansion = shake128 (domain 0x00 ∷ (seed ∷ [])) expansion_size
    let (unpacked, secret_vector) =
        unpack_gf16 (take secret_vector_size expansion) (filled mq_n Gf16.zero)
    guard unpacked
    master_seed ← try_into keygen_seed_size (drop secret_vector_size expansion)
    let blank = write_at (filled public_key_size zero_byte) 0 master_seed
    public_key ← output_loop master_seed secret_vector 0 equation_count blank
    let with_public = write_at (filled secret_key_size zero_byte) 0 public_key
    let secret_key = write_at with_public public_key_size (take secret_vector_size expansion)
    some (secret_key, public_key)

  -- The loop of `secret_key_is_consistent`; `none` is its early return.
  unfoldable pub matches_loop : List U8 → List U8 → List Gf16 → ℕ → ℕ → Bool → Option Bool
  matches_loop secret_key master_seed secret_vector equation_index zero matches = some matches
  matches_loop secret_key master_seed secret_vector equation_index (suc left) matches = do
    equation ← expand_equation master_seed equation_index
    let observed_offset = keygen_seed_size + equation_index * 2
    let observed = slice observed_offset (observed_offset + 2) secret_key
    let same = c.ct_eq (byte_array (evaluate_base equation secret_vector)) observed
    matches_loop secret_key master_seed secret_vector (equation_index + 1) left (matches && same)

  unfoldable pub secret_key_check : List U8 → Option Bool
  secret_key_check secret_key = do
    master_seed ← try_into keygen_seed_size (take keygen_seed_size secret_key)
    let (unpacked, secret_vector) =
        unpack_gf16 (drop public_key_size secret_key) (filled mq_n Gf16.zero)
    guard unpacked
    matches_loop secret_key master_seed secret_vector 0 equation_count true

  unfoldable pub secret_key_is_consistent : List U8 → Bool
  secret_key_is_consistent secret_key = elim (secret_key_check secret_key) [
    | none ↦ false
    | some matches ↦ matches
  ]
