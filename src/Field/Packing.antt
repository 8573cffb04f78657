-- ===== src/Field/Packing.antt =====
-- `unpack_gf16` and `pack_gf16` of src/field.rs: two elements to a byte, low nibble first.
-- A slice is written in place, so a call takes the output and returns it beside the Boolean.
pub mod Laws
pub mod RoundTrip
use mqom_rs.Base.{
  ℕ, ◌+◌, ◌*◌, ◌/◌, ◌^◌, ◌<◌, bit_and, bit_or, ◌<<<◌, ◌>>>◌, u8, U8, to_u8, Option, none, some,
  List, [], ◌∷◌, length, get_or, set, replicate, Bool, true, false, ltb, ◌==◌, if◌then◌else◌, arith,
}
use mqom_rs.Field.Gf16.Element.{Gf16}
use mqom_rs.Field.Gf16.Element as Gf16

-- `usize::checked_add`, at 64 bits.
abbrev pub checked_add : ℕ → ℕ → Option ℕ
checked_add a b = if ltb (a + b) (2 ^ 64) then some (a + b) else none

abbrev pub zero_byte : U8
zero_byte = record { value = 0; bounded = omega arith }

-- `bytes[index / 2] >> shift`. The indices that the loop reads are in range: the length is checked.
unfoldable pub nibble_at : List U8 → ℕ → Gf16
nibble_at bytes index =
    let shift = 4 * bit_and index 1 in
    Gf16.new (to_u8 ((get_or bytes (index / 2) zero_byte).value >>> shift))

-- The loop at `index`, over what is left of the output.
unfoldable pub unpack_loop : List U8 → ℕ → List Gf16 → List Gf16
unpack_loop bytes index [] = []
unpack_loop bytes index (value ∷ rest) = nibble_at bytes index ∷ unpack_loop bytes (index + 1) rest

unfoldable pub unpack_gf16 : List U8 → List Gf16 → Bool × List Gf16
unpack_gf16 bytes output = elim (checked_add (length output) 1) [
  | none ↦ (false, output)
  | some value ↦
      if length bytes == value / 2 then (true, unpack_loop bytes 0 output) else (false, output)
]

-- `output[index / 2] |= value.value() << (4 * (index & 1))`.
unfoldable pub put_nibble : List U8 → ℕ → Gf16 → List U8
put_nibble output index value =
    let old = get_or output (index / 2) zero_byte in
    set output (index / 2) (to_u8 (bit_or old.value (u8 (value.value <<< (4 * bit_and index 1)))))

-- The loop at `index`, over what is left of the elements.
unfoldable pub pack_loop : List Gf16 → ℕ → List U8 → List U8
pack_loop [] index output = output
pack_loop (value ∷ rest) index output = pack_loop rest (index + 1) (put_nibble output index value)

unfoldable pub pack_gf16 : List Gf16 → List U8 → Bool × List U8
pack_gf16 elements output = elim (checked_add (length elements) 1) [
  | none ↦ (false, output)
  | some value ↦
      if length output == value / 2
      then (true, pack_loop elements 0 (replicate (length output) zero_byte))
      else (false, output)
]
