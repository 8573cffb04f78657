-- ===== src/Blc/Fold.antt =====
-- The parts that `commit` and `evaluate_opening` of src/blc.rs share: the parsing and the addition of
-- byte strings, the fold of the leaves in Gray code order, and the sum over the basis.
pub mod Total
use mqom_rs.Base.{
  ℕ, zero, suc, ◌+◌, ◌*◌, ◌==◌, U8, Option, some, List, [], ◌∷◌, length, take, drop, set, get_or,
  ◌>>=◌, ◌>>◌, guard, ◌<<<◌, u16,
}
use mqom_rs.Bytes.{filled, xor_zip}
use mqom_rs.Params.{mq_n, eta, nb_evals_log}
use mqom_rs.Crates.{Crates}
use mqom_rs.Xof.{Shake128State}
use mqom_rs.Prg.{u16_to_le_bytes}
use mqom_rs.Field.Packing.{zero_byte, unpack_gf16}
use mqom_rs.Field.Gf16.Element.{Gf16}
use mqom_rs.Field.Gf16.Element as Gf16
use mqom_rs.Field.Gf256x2.Element.{Gf256x2, from_bytes, encoded_len, scale}
use mqom_rs.Field.Gf256x2.Element as Gf256x2
use mqom_rs.Blc.{base_vector_size, expanded_leaf_size}
use mqom_rs.Blc.Gray.{gray_code_bit_position}

-- `core::array::from_fn`, from `index` on, with the elements left.
unfoldable pub read_elements : List U8 → ℕ → ℕ → List Gf256x2
read_elements bytes index zero = []
read_elements bytes index (suc left) =
    let offset = index * encoded_len in
    from_bytes (get_or bytes offset zero_byte) (get_or bytes (offset + 1) zero_byte)
    ∷ read_elements bytes (index + 1) left

unfoldable pub parse_extension_vector : ℕ → List U8 → Option (List Gf256x2)
parse_extension_vector n bytes = do
  guard (length bytes == n * encoded_len)
  some (read_elements bytes 0 n)

unfoldable pub xor_bytes : List U8 → List U8 → Option (List U8)
xor_bytes destination source = do
  guard (length destination == length source)
  some (xor_zip destination source)

-- `*evaluation += base_element * point` over the zipped slices.
unfoldable pub add_base : List Gf256x2 → List Gf16 → Gf256x2 → List Gf256x2
add_base [] vector point = []
add_base (e ∷ evaluations) [] point = e ∷ evaluations
add_base (e ∷ evaluations) (v ∷ vector) point =
    Gf256x2.add e (scale v point) ∷ add_base evaluations vector point

-- `*evaluation += point * mask_element` over the zipped slices.
unfoldable pub add_mask : List Gf256x2 → List Gf256x2 → Gf256x2 → List Gf256x2
add_mask [] vector point = []
add_mask (e ∷ evaluations) [] point = e ∷ evaluations
add_mask (e ∷ evaluations) (v ∷ vector) point =
    Gf256x2.add e (Gf256x2.mul point v) ∷ add_mask evaluations vector point

-- `Gf256x2::from_bytes((1u16 << folding_index).to_le_bytes())`.
abbrev pub point_of : ℕ → Gf256x2
point_of code = let (low, high) = u16_to_le_bytes code in from_bytes low high

abbrev pub basis : ℕ → Gf256x2
basis folding_index = point_of (u16 (1 <<< folding_index))

-- The loop over the folded vectors, from `folding_index` on, over the evaluations of x and u.
unfoldable pub add_folded :
    List (List U8) → ℕ → List Gf256x2 → List Gf256x2 → Option (List Gf256x2 × List Gf256x2)
add_folded [] folding_index x u = some (x, u)
add_folded (folded ∷ folding) folding_index x u = do
  let (unpacked, base_vector) = unpack_gf16 (take base_vector_size folded) (filled mq_n Gf16.zero)
  guard unpacked
  mask_vector ← parse_extension_vector eta (drop base_vector_size folded)
  add_folded folding (folding_index + 1) (add_base x base_vector (basis folding_index))
      (add_mask u mask_vector (basis folding_index))

module _ ⦃c : Crates⦄ where
  -- The locals of the loop over the leaves.
  pub record LeafState : Type 0 where
    pub commitment_hash : Shake128State
    pub accumulator : List U8
    pub folding : List (List U8)

  unfoldable pub initial_state : Shake128State → LeafState
  initial_state hash = record {
    commitment_hash = hash;
    accumulator = filled expanded_leaf_size zero_byte;
    folding = filled nb_evals_log (filled expanded_leaf_size zero_byte);
  }

  -- The end of a round: the expanded leaf goes into the accumulator, and that into one vector.
  unfoldable pub fold_leaf : ℕ → List U8 → Shake128State → LeafState → Option LeafState
  fold_leaf leaf_index expanded hash state = do
    accumulator ← xor_bytes state.accumulator expanded
    folding_index ← gray_code_bit_position leaf_index
    folded ← xor_bytes (get_or state.folding folding_index []) accumulator
    some (record {
      commitment_hash = hash;
      accumulator = accumulator;
      folding = set state.folding folding_index folded;
    })
