-- ===== src/Blc/Tree/Tests.antt =====
-- The theorem on opened trees at concrete seeds and the concrete crates.
use mqom_rs.Base.{◌+◌, ◌≡◌, arith, U8, to_u8, some, List}
use mqom_rs.Bytes.{filled, length-filled}
use mqom_rs.Params.{nb_evals}
use mqom_rs.Toy.{toy}
use mqom_rs.Blc.{path_size_per_execution}
use mqom_rs.Blc.Tree.{Nodes, node, opening_path, fully_expand_tree, partially_expand_tree}
use mqom_rs.Blc.Tree.Opened.{opened_leaves}
use mqom_rs.Blc.Tree.Sum.{xor_range, leaves_sum}

abbrev salt : List U8
salt = filled 16 (to_u8 1)

abbrev root : List U8
root = filled 16 (to_u8 2)

abbrev step : List U8
step = filled 16 (to_u8 3)

abbrev buffer : List U8
buffer = filled path_size_per_execution (to_u8 0)

opened_leaves_example :
    (hidden : List U8) × (opened : List U8) × (leaves : Nodes) × (opening_path ⦃c = toy⦄ salt root
        step 5 700 buffer
      ≡ some (hidden, opened))
    × (hidden ≡ node (fully_expand_tree ⦃c = toy⦄ salt root step 5) (nb_evals + 700))
    × (partially_expand_tree ⦃c = toy⦄ salt opened 5 700 ≡ some leaves)
    × (node leaves 701 ≡ node (fully_expand_tree ⦃c = toy⦄ salt root step 5) (nb_evals + 701))
opened_leaves_example =
    opened_leaves ⦃c = toy⦄ salt root step buffer 5 700 701 (length-filled 16 (to_u8 2))
      (length-filled 16 (to_u8 3)) (length-filled path_size_per_execution (to_u8 0)) (omega arith)
      (omega arith) (λ e. absurd (omega arith))

leaves_sum_example :
    xor_range nb_evals nb_evals (node (fully_expand_tree ⦃c = toy⦄ salt root step 5)) ≡ step
leaves_sum_example =
    leaves_sum ⦃c = toy⦄ salt root step 5 (length-filled 16 (to_u8 2)) (length-filled 16 (to_u8 3))
