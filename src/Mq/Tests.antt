-- ===== src/Mq/Tests.antt =====
-- The theorems of src/mq.rs at a concrete equation and the concrete crates.
use mqom_rs.Base.{◌≡◌, arith, U8, to_u8, some, List, ◌++◌, map, length}
use mqom_rs.Bytes.{filled, length-filled}
use mqom_rs.Params.{mq_n}
use mqom_rs.Toy.{toy}
use mqom_rs.Field.Gf16.Element.{Gf16}
use mqom_rs.Field.Gf16.Element as Gf16
use mqom_rs.Field.Gf256x2.Element.{Gf256x2}
use mqom_rs.Field.Gf256x2.Element as Gf256x2
use mqom_rs.Field.Gf256x2.Laws.{gf256x2_ring}
use mqom_rs.Field.Gf256x2.Lift.{lift}
use mqom_rs.Mq.{
  PackedEquation, evaluate_base, expand_equation, triangular_element_count, elements_of,
}
use mqom_rs.Mq.Form.{quadratic_form, at, evaluate_base-quadratic_form}
use mqom_rs.Mq.Expand.{equation_stream, expand_equation_total}

abbrev ones : PackedEquation
ones = record {
  quadratic = filled triangular_element_count Gf256x2.one;
  linear = filled mq_n Gf256x2.one;
}

abbrev secret : List Gf16
secret = filled mq_n (Gf16.new (to_u8 7))

abbrev point : List Gf256x2
point = filled mq_n (Gf256x2.from_bytes (to_u8 0xca) (to_u8 0x53))

evaluate_base-quadratic_form_example :
    evaluate_base ones secret ≡ quadratic_form ones (at (map lift secret))
evaluate_base-quadratic_form_example =
    evaluate_base-quadratic_form ones secret (length-filled mq_n (Gf16.new (to_u8 7)))
      (length-filled mq_n Gf256x2.one)

abbrev master_seed : List U8
master_seed = filled 32 (to_u8 5)

expand_equation_total_example :
    (equation : PackedEquation) × (expand_equation ⦃c = toy⦄ master_seed 13 ≡ some equation)
    × (length equation.quadratic ≡ triangular_element_count)
    × (length equation.linear ≡ mq_n)
    × (equation.quadratic ++ equation.linear
        ≡ elements_of (equation_stream ⦃c = toy⦄ master_seed 13))
expand_equation_total_example = expand_equation_total ⦃c = toy⦄ master_seed 13 (omega arith)
