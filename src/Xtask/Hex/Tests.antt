-- ===== src/Xtask/Hex/Tests.antt =====
-- Hexadecimal texts: runs, and the theorems at them.
use mqom_rs.Base.{ℕ, ◌≡◌, ◌≢◌, ◌↔◌, refl, U8, to_u8, List, [], ◌∷◌, ◌++◌, map}
use mqom_rs.Api.{ok, err}
use mqom_rs.Xtask.Hex.{
  odd_length, invalid_digit, wrong_length, decode_nibble, decode_pairs, decode_hex,
  decode_fixed_hex, append_hex, append_hex_line,
}
use mqom_rs.Xtask.Hex.Digits.{capital}
use mqom_rs.Xtask.Hex.RoundTrip.{decode_hex_iff, decode_hex-append_hex}

abbrev two : List U8
two = to_u8 0x3c ∷ to_u8 0xf0 ∷ []

abbrev mixed_case : List U8
mixed_case = to_u8 b'3' ∷ to_u8 b'C' ∷ to_u8 b'f' ∷ to_u8 b'0' ∷ []

decodes : decode_hex mixed_case ≡ ok two
unfolding decode_hex decode_pairs decode_nibble to_u8
decodes = refl

refuses :
    (decode_hex (to_u8 b'3' ∷ mixed_case) ≡ err odd_length)
    × (decode_hex (to_u8 b'g' ∷ to_u8 b'3' ∷ mixed_case) ≡ err (invalid_digit (to_u8 b'g')))
    × (decode_fixed_hex 3 mixed_case ≡ err (wrong_length 3 2))
unfolding decode_fixed_hex decode_hex decode_pairs decode_nibble to_u8
refuses = (refl, refl, refl)

line :
    append_hex_line [] (to_u8 b'k' ∷ []) two
    ≡ to_u8 b'k'
      ∷ to_u8 b' '
      ∷ to_u8 b'='
      ∷ to_u8 b' '
      ∷ to_u8 b'3'
      ∷ to_u8 b'C'
      ∷ to_u8 b'F'
      ∷ to_u8 b'0'
      ∷ to_u8 b'\n'
      ∷ []
unfolding append_hex_line append_hex to_u8
line = refl

decode_hex_iff_example :
    (decode_hex mixed_case ≡ ok two) ↔ (map capital mixed_case ≡ append_hex [] two)
decode_hex_iff_example = decode_hex_iff mixed_case two

decode_hex-append_hex_example :
    (append_hex mixed_case two ≡ mixed_case ++ append_hex [] two)
    × (decode_hex (append_hex [] two) ≡ ok two)
    × (decode_fixed_hex 2 (append_hex [] two) ≡ ok two)
    × (◌≢◌ {A = ℕ} 3 2 → decode_fixed_hex 3 (append_hex [] two) ≡ err (wrong_length 3 2))
decode_hex-append_hex_example = decode_hex-append_hex mixed_case two 3
