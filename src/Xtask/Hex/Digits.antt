-- ===== src/Xtask/Hex/Digits.antt =====
-- One hexadecimal digit: what `decode_nibble` makes of the digits that `append_hex` writes, by a check of
-- every byte.
use mqom_rs.Base.{
  ℕ, ◌<◌, ◌<<<◌, ◌>>>◌, bit_and, bit_or, ◌-◌, ◌≡◌, refl, sym, ap, ◌∙◌, arith, U8, U8_ext, to_u8,
  ltb, ltb→lt, ◌==◌, ==_iff, Bool, true, ◌&&◌, not, ◌||◌, if◌then◌else◌, and_mask, all_below,
  all_below_sound, agree_below, agree_below₂,
}
use mqom_rs.Api.{Result, ok, err}
use mqom_rs.Xtask.Hex.{HexError, within, decode_nibble, hex_digit}

-- A digit with the letters that `append_hex` writes.
unfoldable pub capital : U8 → U8
capital byte = if within b'a' b'f' byte then to_u8 (byte.value - 32) else byte

pub to_u8-value : (byte : U8) → to_u8 byte.value ≡ byte
unfolding to_u8
to_u8-value byte = U8_ext _ _ (omega (arith, byte.bounded))

pub to_u8_small : (n : ℕ) → n < 256 → (to_u8 n).value ≡ n
unfolding to_u8
to_u8_small n small = omega arith

-- What a check over all bytes says of one.
of_bytes :
    (test : U8 → Bool) → all_below 256 (λ k. test (to_u8 k)) ≡ true → (byte : U8) → test byte ≡ true
of_bytes test every byte =
    ap test (sym (to_u8-value byte))
    ∙ all_below_sound 256 (λ k. test (to_u8 k)) byte.value every byte.bounded

-- A decoded digit is below 16, and is written as its capital.
abbrev is_written : U8 → Result U8 HexError → Bool
is_written byte (ok nibble) =
    ltb nibble.value 16 && (hex_digit nibble.value).value == (capital byte).value
is_written byte (err _) = true

all_written : all_below 256 (λ k. is_written (to_u8 k) (decode_nibble (to_u8 k))) ≡ true
unfolding all_below decode_nibble capital to_u8
all_written = refl

pub decode_nibble-ok :
    (byte nibble : U8)
    → decode_nibble byte ≡ ok nibble
    → (nibble.value < 16) × (capital byte ≡ hex_digit nibble.value)
decode_nibble-ok byte nibble e =
    let holds : is_written byte (ok nibble) ≡ true =
      ap (is_written byte) (sym e)
      ∙ of_bytes (λ b. is_written b (decode_nibble b)) all_written byte in
    let parts : (ltb nibble.value 16 ≡ true)
        × ((hex_digit nibble.value).value == (capital byte).value ≡ true) =
      ground (arith, holds) in
    (
      ltb→lt nibble.value 16 parts.0,
      U8_ext (capital byte) (hex_digit nibble.value)
          (sym ((==_iff (hex_digit nibble.value).value (capital byte).value).0 parts.1)),
    )

-- A digit whose capital is that of a nibble is decoded to it.
abbrev is_read : ℕ → U8 → Result U8 HexError → Bool
is_read n byte (ok nibble) = not ((capital byte).value == (hex_digit n).value) || nibble.value == n
is_read n byte (err _) = not ((capital byte).value == (hex_digit n).value)

all_read :
    all_below 16 (λ n. all_below 256 (λ k. is_read n (to_u8 k) (decode_nibble (to_u8 k)))) ≡ true
unfolding all_below decode_nibble capital to_u8
all_read = refl

-- The two outcomes of the check at one byte.
outcome :
    (byte : U8) (n : ℕ) (result : Result U8 HexError)
    → n < 16
    → is_read n byte result ≡ true
    → capital byte ≡ hex_digit n
    → result ≡ ok (to_u8 n)
outcome byte n (ok nibble) small holds e =
    let same : nibble.value ≡ n = ground (
      arith,
      holds,
      (==_iff (capital byte).value (hex_digit n).value).1 (ap (λ b. b.value) e),
      ==_iff nibble.value n,
    ) in
    ap ok (sym (to_u8-value nibble) ∙ ap to_u8 same)
outcome byte n (err error) small holds e = absurd (
    ground
      (arith, holds, (==_iff (capital byte).value (hex_digit n).value).1 (ap (λ b. b.value) e)))

pub decode_nibble-capital :
    (byte : U8) (n : ℕ) → n < 16 → capital byte ≡ hex_digit n → decode_nibble byte ≡ ok (to_u8 n)
decode_nibble-capital byte n small e =
    outcome byte n (decode_nibble byte) small
      (of_bytes (λ b. is_read n b (decode_nibble b))
        (all_below_sound 16
          (λ m. all_below 256 (λ k. is_read m (to_u8 k) (decode_nibble (to_u8 k)))) n all_read
          small)
        byte)
      e

-- A byte is its two nibbles.
pub high_small : (byte : U8) → (byte.value >>> 4) < 16
high_small byte = omega (arith, byte.bounded)

pub low_small : (byte : U8) → bit_and byte.value 15 < 16
low_small byte = omega (arith, and_mask 4 byte.value)

pub join_nibbles :
    (byte : U8) → to_u8 (bit_or ((byte.value >>> 4) <<< 4) (bit_and byte.value 15)) ≡ byte
unfolding all_below
join_nibbles byte =
    ap to_u8 (
      agree_below 256 (λ x. bit_or ((x >>> 4) <<< 4) (bit_and x 15)) (λ x. x) byte.value refl
        byte.bounded)
    ∙ to_u8-value byte

pub split_nibbles :
    (high low : ℕ)
    → high < 16
    → low < 16
    → ((to_u8 (bit_or (high <<< 4) low)).value >>> 4 ≡ high)
      × (bit_and (to_u8 (bit_or (high <<< 4) low)).value 15 ≡ low)
unfolding all_below to_u8
split_nibbles high low hh hl = (
  agree_below₂ 16 16 (λ a b. (to_u8 (bit_or (a <<< 4) b)).value >>> 4) (λ a b. a) high low refl hh
      hl,
  agree_below₂ 16 16 (λ a b. bit_and (to_u8 (bit_or (a <<< 4) b)).value 15) (λ a b. b) high low refl
      hh hl,
)

-- The digits that are written are capitals.
pub capital-hex_digit : (n : ℕ) → n < 16 → capital (hex_digit n) ≡ hex_digit n
unfolding all_below capital to_u8
capital-hex_digit n small =
    U8_ext (capital (hex_digit n)) (hex_digit n)
      (agree_below 16 (λ k. (capital (hex_digit k)).value) (λ k. (hex_digit k).value) n refl small)
