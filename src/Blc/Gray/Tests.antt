-- ===== src/Blc/Gray/Tests.antt =====
-- The Gray code at concrete indices.
use mqom_rs.Base.{ℕ, ◌<◌, ◌^◌, bit_xor, ◌≡◌, arith, some}
use mqom_rs.Params.{nb_evals_log}
use mqom_rs.Blc.Gray.{gray_code_bit_position, gray, next_index, gray_code_bit_position_total}

gray_code_bit_position_total_example :
    (position : ℕ) × (gray_code_bit_position 2047 ≡ some position)
    × (position < nb_evals_log)
    × (bit_xor (gray 2047) (gray (next_index 2047)) ≡ 2 ^ position)
gray_code_bit_position_total_example = gray_code_bit_position_total 2047 (omega arith)
