-- ===== src/Blc.antt =====
-- src/blc.rs: the line commitment. Trees hold the seeds, the opening path discloses all leaves but
-- one, and a Gray code orders the leaves.
pub mod Tree
pub mod Gray
pub mod Fold
pub mod Commit
pub mod Evaluate
pub mod Line
use mqom_rs.Base.{ℕ, ◌+◌, ◌-◌, ◌*◌, ◌/◌, U8, List}
use mqom_rs.Bytes.{filled}
use mqom_rs.Field.Packing.{zero_byte}
use mqom_rs.Params.{
  seed_size, digest_size, mq_n, eta, base_field_bits, ext_field_bits, nb_evals, nb_evals_log,
}

abbrev pub commitment_size : ℕ
commitment_size = digest_size

abbrev pub base_vector_size : ℕ
base_vector_size = mq_n * base_field_bits / 8

abbrev pub mask_vector_size : ℕ
mask_vector_size = eta * ext_field_bits / 8

abbrev pub expanded_leaf_size : ℕ
expanded_leaf_size = base_vector_size + mask_vector_size

abbrev pub leaf_prg_size : ℕ
leaf_prg_size = expanded_leaf_size - seed_size

abbrev pub partial_delta_size : ℕ
partial_delta_size = base_vector_size - seed_size

abbrev pub path_size_per_execution : ℕ
path_size_per_execution = nb_evals_log * seed_size

abbrev pub full_tree_size : ℕ
full_tree_size = 2 * nb_evals

abbrev pub leaf_offset : ℕ
leaf_offset = nb_evals

abbrev pub zero_seed : List U8
zero_seed = filled seed_size zero_byte
