-- ===== src/Verify/Tests.antt =====
-- The theorems of src/verify.rs at concrete vectors and the concrete crates.
use mqom_rs.Base.{ℕ, ◌<◌, ◌≡◌, refl, U8, to_u8, some, List, [], ◌∷◌, map, length, get_or}
use mqom_rs.Bytes.{filled, length-filled}
use mqom_rs.Params.{mq_n, tau, nb_evals}
use mqom_rs.Toy.{toy}
use mqom_rs.Field.Ring.{◌⊕◌, ◌⊗◌}
use mqom_rs.Field.Gf16.Element.{Gf16}
use mqom_rs.Field.Gf16.Element as Gf16
use mqom_rs.Field.Gf256x2.Element.{Gf256x2}
use mqom_rs.Field.Gf256x2.Element as Gf256x2
use mqom_rs.Field.Gf256x2.Laws.{gf256x2_ring}
use mqom_rs.Field.Gf256x2.Lift.{lift}
use mqom_rs.Mq.{PackedEquation, multiply_extension, evaluate_base, triangular_element_count}
use mqom_rs.Mq.Vectors.{vadd, vscale, dot}
use mqom_rs.Verify.{z_evaluation, parse_challenge, read_indices}
use mqom_rs.Verify.Line.{z_evaluation-line}
use mqom_rs.Verify.Reject.{parse_challenge-lt}

abbrev ones : PackedEquation
ones = record {
  quadratic = filled triangular_element_count Gf256x2.one;
  linear = filled mq_n Gf256x2.one;
}

abbrev secret : List Gf16
secret = filled mq_n Gf16.one

abbrev point : Gf256x2
point = Gf256x2.from_bytes (to_u8 0xca) (to_u8 0x53)

abbrev x_zero : List Gf256x2
x_zero = filled mq_n point

z_evaluation-line_example :
    z_evaluation ones
      (vadd x_zero (vscale point (map lift secret)))
      point
      (evaluate_base ones secret)
    ≡ dot (multiply_extension ones x_zero) x_zero
      ⊕ point
        ⊗ (dot (multiply_extension ones x_zero) (map lift secret)
            ⊕ dot (multiply_extension ones (map lift secret)) x_zero
            ⊕ dot ones.linear x_zero)
z_evaluation-line_example =
    z_evaluation-line ones x_zero secret point (length-filled mq_n point)
      (length-filled mq_n Gf16.one) (length-filled mq_n Gf256x2.one)

-- The toy sponge returns the three bytes that it absorbed, and then zeros.
abbrev zeros : List U8
zeros = to_u8 0 ∷ []

abbrev found : List ℕ
found = 5 ∷ 0 ∷ 0 ∷ 0 ∷ 0 ∷ 0 ∷ 0 ∷ 0 ∷ 0 ∷ 0 ∷ 0 ∷ 0 ∷ []

is_found : parse_challenge ⦃c = toy⦄ zeros zeros ≡ some found
unfolding parse_challenge read_indices mqom_rs.Xof.shake128 mqom_rs.Xof.absorb_all
    mqom_rs.Xof.absorb mqom_rs.Xof.squeeze mqom_rs.Xof.new_state filled to_u8
is_found = refl

parse_challenge-lt_example : (length found ≡ tau) × (get_or found 0 0 < nb_evals)
parse_challenge-lt_example = parse_challenge-lt ⦃c = toy⦄ zeros zeros found 0 is_found

abbrev master_seed : List U8
master_seed = filled 32 (to_u8 9)

abbrev short : List U8
short = to_u8 1 ∷ []
