-- ===== src/Mq.antt =====
-- src/mq.rs: expansion and arithmetic of the packed MQ system. Arrays are lists whose lengths are
-- hypotheses of the theorems.
pub mod Vectors
pub mod Linear
pub mod Form
pub mod Expand
mod Tests
use mqom_rs.Base.{
  ℕ, zero, suc, ◌+◌, ◌*◌, ◌/◌, U8, to_u8, Option, some, List, [], ◌∷◌, length, take, drop, slice,
  ltb, ◌==◌, ◌&&◌, ◌>>=◌, ◌>>◌, guard,
}
use mqom_rs.Params
use mqom_rs.Params.{mq_n, mq_m, mu, seed_size, salt_size}
use mqom_rs.Bytes.{filled}
use mqom_rs.Crates.{Crates}
use mqom_rs.Xof.{shake128}
use mqom_rs.Prg.{fill, u16_try_from, u16_to_le_bytes}
use mqom_rs.Field.Packing.{zero_byte}
use mqom_rs.Field.Gf16.Element.{Gf16}
use mqom_rs.Field.Gf256x2.Element.{Gf256x2, from_bytes, encoded_len}
use mqom_rs.Field.Gf256x2.Element as Gf256x2

abbrev pub equation_count : ℕ
equation_count = mq_m / mu

abbrev pub triangular_element_count : ℕ
triangular_element_count = mq_n * (mq_n + 1) / 2

abbrev pub equation_element_count : ℕ
equation_element_count = triangular_element_count + mq_n

abbrev pub equation_byte_count : ℕ
equation_byte_count = equation_element_count * encoded_len

pub record PackedEquation : Type 0 where
  pub quadratic : List Gf256x2
  pub linear : List Gf256x2

-- `*output_element += *vector_element * *coefficient` over the zipped slices.
unfoldable pub row_base : Gf256x2 → List Gf256x2 → List Gf16 → Gf256x2
row_base output [] vector = output
row_base output (coefficient ∷ coefficients) [] = output
row_base output (coefficient ∷ coefficients) (element ∷ vector) =
    row_base (Gf256x2.add output (Gf256x2.scale element coefficient)) coefficients vector

-- The rows from `row_index` on, of which `left` are left.
unfoldable pub rows_base : List Gf256x2 → List Gf16 → ℕ → ℕ → ℕ → List Gf256x2
rows_base quadratic vector row_index offset zero = []
rows_base quadratic vector row_index offset (suc left) =
    row_base Gf256x2.zero (slice offset (offset + row_index + 1) quadratic)
      (take (row_index + 1) vector)
    ∷ rows_base quadratic vector (row_index + 1) (offset + row_index + 1) left

unfoldable pub multiply_base : PackedEquation → List Gf16 → List Gf256x2
multiply_base equation vector = rows_base equation.quadratic vector 0 0 mq_n

-- `*output_element += *coefficient * *vector_element` over the zipped slices.
unfoldable pub row_extension : Gf256x2 → List Gf256x2 → List Gf256x2 → Gf256x2
row_extension output [] vector = output
row_extension output (coefficient ∷ coefficients) [] = output
row_extension output (coefficient ∷ coefficients) (element ∷ vector) =
    row_extension (Gf256x2.add output (Gf256x2.mul coefficient element)) coefficients vector

unfoldable pub rows_extension : List Gf256x2 → List Gf256x2 → ℕ → ℕ → ℕ → List Gf256x2
rows_extension quadratic vector row_index offset zero = []
rows_extension quadratic vector row_index offset (suc left) =
    row_extension Gf256x2.zero (slice offset (offset + row_index + 1) quadratic)
      (take (row_index + 1) vector)
    ∷ rows_extension quadratic vector (row_index + 1) (offset + row_index + 1) left

unfoldable pub multiply_extension : PackedEquation → List Gf256x2 → List Gf256x2
multiply_extension equation vector = rows_extension equation.quadratic vector 0 0 mq_n

-- The loop of `evaluate_base` over the three zipped vectors.
unfoldable pub evaluate_loop : Gf256x2 → List Gf16 → List Gf256x2 → List Gf256x2 → Gf256x2
evaluate_loop result [] matrix_product linear = result
evaluate_loop result (v ∷ vector) [] linear = result
evaluate_loop result (v ∷ vector) (m ∷ matrix_product) [] = result
evaluate_loop result (v ∷ vector) (m ∷ matrix_product) (l ∷ linear) =
    evaluate_loop (Gf256x2.add (Gf256x2.add result (Gf256x2.scale v m)) (Gf256x2.scale v l)) vector
      matrix_product linear

unfoldable pub evaluate_base : PackedEquation → List Gf16 → Gf256x2
evaluate_base equation vector =
    let matrix_product = multiply_base equation vector in
    evaluate_loop Gf256x2.zero vector matrix_product equation.linear

-- `chunks_exact(2).map(|bytes| Gf256x2::from_bytes([bytes[0], bytes[1]]))`.
unfoldable pub elements_of : List U8 → List Gf256x2
elements_of [] = []
elements_of (b0 ∷ []) = []
elements_of (b0 ∷ (b1 ∷ rest)) = from_bytes b0 b1 ∷ elements_of rest

-- `for (d, s) in destination.iter_mut().zip(source) { *d = s; }`.
unfoldable pub copy_zip {ℓ} : {A : Type ℓ} → List A → List A → List A
copy_zip [] source = []
copy_zip (d ∷ destination) [] = d ∷ destination
copy_zip (d ∷ destination) (s ∷ source) = s ∷ copy_zip destination source

abbrev pub domain : ℕ → List U8
domain tag = to_u8 tag ∷ []

module _ ⦃c : Crates⦄ where
  unfoldable pub expand_equation : List U8 → ℕ → Option PackedEquation
  expand_equation master_seed equation_index = do
    guard (ltb equation_index equation_count)
    index ← u16_try_from equation_index
    let (low, high) = u16_to_le_bytes index
    let equation_seed = shake128 (domain 0x01 ∷ (master_seed ∷ ((low ∷ high ∷ []) ∷ []))) seed_size
    let (written, stream) =
        fill (filled salt_size zero_byte) 0 equation_seed (filled equation_byte_count zero_byte)
    guard written
    let elements = elements_of stream
    let quadratic = take triangular_element_count elements
    let rest = drop triangular_element_count elements
    let linear = copy_zip (filled mq_n Gf256x2.zero) rest
    let remaining = drop mq_n rest
    guard (length quadratic == triangular_element_count && length remaining == 0)
    some (record { quadratic = quadratic; linear = linear })
