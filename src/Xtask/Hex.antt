-- ===== src/Xtask/Hex.antt =====
-- The hexadecimal texts of src/xtask/src/main.rs: `decode_hex`, `append_hex` and their parts. A text is
-- the list of its bytes; an error is a constructor in place of its message.
pub mod Digits
pub mod RoundTrip
mod Tests
use mqom_rs.Base.{
  ℕ, ◌+◌, ◌-◌, ◌%◌, ◌<<<◌, ◌>>>◌, bit_and, bit_or, U8, to_u8, List, [], ◌∷◌, ◌++◌, length, get_or,
  not, leb, ◌==◌, ◌&&◌, Bool, if◌then◌else◌,
}
use mqom_rs.Field.Packing.{zero_byte}
use mqom_rs.Api.{Result, ok, err, ◌>>=◌}

pub data HexError : Type 0 where
  odd_length : HexError
  invalid_digit : U8 → HexError
  wrong_length : ℕ → ℕ → HexError

-- A range of a `match` on bytes.
abbrev pub within : ℕ → ℕ → U8 → Bool
within low high byte = leb low byte.value && leb byte.value high

unfoldable pub decode_nibble : U8 → Result U8 HexError
decode_nibble byte =
    if within b'0' b'9' byte
    then ok (to_u8 (byte.value - b'0'))
    else if within b'a' b'f' byte
    then ok (to_u8 (byte.value - b'a' + 10))
    else if within b'A' b'F' byte
    then ok (to_u8 (byte.value - b'A' + 10))
    else err (invalid_digit byte)

-- The pairs of `chunks_exact(2)`, collected up to the first error.
unfoldable pub decode_pairs : List U8 → Result (List U8) HexError
decode_pairs [] = ok []
decode_pairs (a ∷ []) = ok []
decode_pairs (a ∷ (b ∷ rest)) = do
  high ← decode_nibble a
  low ← decode_nibble b
  bytes ← decode_pairs rest
  ok (to_u8 (bit_or (high.value <<< 4) low.value) ∷ bytes)

unfoldable pub decode_hex : List U8 → Result (List U8) HexError
decode_hex encoded = if not (length encoded % 2 == 0) then err odd_length else decode_pairs encoded

-- `value.try_into()` into an array of `n` bytes.
unfoldable pub decode_fixed_hex : ℕ → List U8 → Result (List U8) HexError
decode_fixed_hex n encoded = do
  bytes ← decode_hex encoded
  if length bytes == n then ok bytes else err (wrong_length n (length bytes))

-- `HEX`.
abbrev pub hex_digits : List U8
hex_digits =
    to_u8 b'0'
    ∷ to_u8 b'1'
    ∷ to_u8 b'2'
    ∷ to_u8 b'3'
    ∷ to_u8 b'4'
    ∷ to_u8 b'5'
    ∷ to_u8 b'6'
    ∷ to_u8 b'7'
    ∷ to_u8 b'8'
    ∷ to_u8 b'9'
    ∷ to_u8 b'A'
    ∷ to_u8 b'B'
    ∷ to_u8 b'C'
    ∷ to_u8 b'D'
    ∷ to_u8 b'E'
    ∷ to_u8 b'F'
    ∷ []

abbrev pub hex_digit : ℕ → U8
hex_digit nibble = get_or hex_digits nibble zero_byte

unfoldable pub append_hex : List U8 → List U8 → List U8
append_hex output [] = output
append_hex output (byte ∷ bytes) =
    append_hex (output ++ (hex_digit (byte.value >>> 4) ∷ hex_digit (bit_and byte.value 15) ∷ []))
      bytes

-- `name` is a text, as `output` is.
unfoldable pub append_hex_line : List U8 → List U8 → List U8 → List U8
append_hex_line output name bytes =
    append_hex (output ++ name ++ (to_u8 b' ' ∷ to_u8 b'=' ∷ to_u8 b' ' ∷ [])) bytes
    ++ (to_u8 b'\n' ∷ [])
