-- ===== src/Xtask/Hex/RoundTrip.antt =====
-- Reading and writing hexadecimal texts.
use mqom_rs.Base.{
  ℕ, ◌+◌, ◌%◌, ◌<<<◌, ◌>>>◌, bit_and, bit_or, ◌≡◌, ◌≢◌, ◌↔◌, refl, sym, ap, ap₂, ◌∙◌, arith, U8,
  to_u8, List, [], ◌∷◌, ◌++◌, map, length, ◌==◌, ==_iff, false, Bool-cases, inl, inr, length-map,
}
use mathlib.Core.List.{append_assoc, append-nil}
use mqom_rs.Api.{Result, ok, err, ◌>>=◌}
use mqom_rs.Xtask.Hex.{
  odd_length, decode_nibble, decode_pairs, decode_hex, decode_fixed_hex, wrong_length, hex_digit,
  append_hex,
}
use mqom_rs.Xtask.Hex.Digits.{
  capital, decode_nibble-ok, decode_nibble-capital, high_small, low_small, join_nibbles,
  split_nibbles, to_u8_small, capital-hex_digit,
}

-- The text of bytes, in one go.
abbrev pub hex_of : List U8 → List U8
hex_of [] = []
hex_of (byte ∷ bytes) =
    hex_digit (byte.value >>> 4) ∷ (hex_digit (bit_and byte.value 15) ∷ hex_of bytes)

pub append_hex-hex_of : (output bytes : List U8) → append_hex output bytes ≡ output ++ hex_of bytes
unfolding append_hex
append_hex-hex_of output [] = sym (append-nil output)
append_hex-hex_of output (byte ∷ bytes) =
    append_hex-hex_of
      (output ++ (hex_digit (byte.value >>> 4) ∷ (hex_digit (bit_and byte.value 15) ∷ []))) bytes
    ∙ append_assoc output _ (hex_of bytes)

-- What a chain of results that returns went through.
>>=-eq-ok :
    {A B E : Type 0} {b : B} (m : Result A E) (f : A → Result B E)
    → (m >>= f) ≡ ok b
    → (a : A) × (m ≡ ok a) × (f a ≡ ok b)
>>=-eq-ok (err error) f e = absurd cc
>>=-eq-ok (ok a) f e = (a, refl, e)

ok_inj : {A E : Type 0} {a b : A} → ◌≡◌ {A = Result A E} (ok a) (ok b) → a ≡ b
ok_inj e = cc

-- Texts of an even number of bytes.
abbrev IsEven : List U8 → Type 0
IsEven [] = Unit
IsEven (a ∷ []) = ⊥
IsEven (a ∷ (b ∷ rest)) = IsEven rest

IsEven-mod : (text : List U8) → length text % 2 ≡ 0 → IsEven text
IsEven-mod [] e = tt
IsEven-mod (a ∷ []) e = absurd (omega arith)
IsEven-mod (a ∷ (b ∷ rest)) e = IsEven-mod rest (omega arith)

-- The pairs that are decoded are those whose capitals are written.
decoded :
    (text bytes : List U8)
    → IsEven text
    → decode_pairs text ≡ ok bytes
    → map capital text ≡ hex_of bytes
unfolding decode_pairs
decoded [] bytes even e = ap hex_of (ok_inj e)
decoded (a ∷ []) bytes even e = absurd even
decoded (a ∷ (b ∷ rest)) bytes even e =
    let (high, reads_high, e₁) = >>=-eq-ok (decode_nibble a) _ e in
    let (low, reads_low, e₂) = >>=-eq-ok (decode_nibble b) _ e₁ in
    let (later, reads_later, e₃) = >>=-eq-ok (decode_pairs rest) _ e₂ in
    let (high_small, high_written) = decode_nibble-ok a high reads_high in
    let (low_small, low_written) = decode_nibble-ok b low reads_low in
    let (high_part, low_part) = split_nibbles high.value low.value high_small low_small in
    ap₂ ◌∷◌ (high_written ∙ ap hex_digit (sym high_part))
      (ap₂ ◌∷◌ (low_written ∙ ap hex_digit (sym low_part)) (decoded rest later even reads_later))
    ∙ ap hex_of (ok_inj e₃)

head_inj : {a b : U8} {x y : List U8} → ◌≡◌ {A = List U8} (a ∷ x) (b ∷ y) → (a ≡ b) × (x ≡ y)
head_inj e = (cc, cc)

read : (text bytes : List U8) → map capital text ≡ hex_of bytes → decode_pairs text ≡ ok bytes
unfolding decode_pairs
read [] [] e = refl
read [] (byte ∷ bytes) e = absurd cc
read (a ∷ text) [] e = absurd cc
read (a ∷ []) (byte ∷ bytes) e = absurd cc
read (a ∷ (b ∷ rest)) (byte ∷ bytes) e =
    let (high, e₁) = head_inj e in
    let (low, e₂) = head_inj e₁ in
    rw
      (
        decode_nibble-capital a (byte.value >>> 4) (high_small byte) high,
        decode_nibble-capital b (bit_and byte.value 15) (low_small byte) low,
        read rest bytes e₂,
      )
      (ap (λ (x : U8). ok (x ∷ bytes))
        (ap₂ (λ h l. to_u8 (bit_or (h <<< 4) l))
            (to_u8_small (byte.value >>> 4) (omega (arith, high_small byte)))
            (to_u8_small (bit_and byte.value 15) (omega (arith, low_small byte)))
          ∙ join_nibbles byte))

length-hex_of : (bytes : List U8) → length (hex_of bytes) ≡ length bytes + length bytes
length-hex_of [] = refl
length-hex_of (byte ∷ bytes) = omega (arith, length-hex_of bytes)

err≢ok : {A E : Type 0} {a : A} {e : E} → ◌≡◌ {A = Result A E} (err e) (ok a) → ⊥
err≢ok same = absurd cc

==_false : (a b : ℕ) → a ≢ b → (a == b) ≡ false
==_false a b ne = ground (arith, ne, ==_iff a b)

-- `decode_hex` returns bytes exactly for the texts that are, with their letters made capital, what
-- `append_hex` writes of these bytes.
pub decode_hex_iff :
    (text bytes : List U8) → (decode_hex text ≡ ok bytes) ↔ (map capital text ≡ append_hex [] bytes)
unfolding decode_hex
decode_hex_iff text bytes = (forth, back)
  where
    forth : decode_hex text ≡ ok bytes → map capital text ≡ append_hex [] bytes
    forth e = elim (Bool-cases (length text % 2 == 0)) [
      | inl even ↦
          decoded text bytes (IsEven-mod text ((==_iff (length text % 2) 0).0 even))
            (sym (rw (even, decode_hex)) ∙ e)
          ∙ sym (append_hex-hex_of [] bytes)
      | inr odd ↦ absurd (err≢ok {e = odd_length} (sym (rw (odd, decode_hex)) ∙ e))
    ]

    back : map capital text ≡ append_hex [] bytes → decode_hex text ≡ ok bytes
    back e =
        let same : map capital text ≡ hex_of bytes = e ∙ append_hex-hex_of [] bytes in
        rw
          (
            (==_iff (length text % 2) 0).1
                (omega (arith, ap length same, length-map capital text, length-hex_of bytes)),
            decode_hex,
          )
          (read text bytes same)

map-hex_of : (bytes : List U8) → map capital (hex_of bytes) ≡ hex_of bytes
map-hex_of [] = refl
map-hex_of (byte ∷ bytes) =
    ap₂ ◌∷◌ (capital-hex_digit (byte.value >>> 4) (high_small byte))
      (ap₂ ◌∷◌ (capital-hex_digit (bit_and byte.value 15) (low_small byte)) (map-hex_of bytes))

-- Bytes that `append_hex` writes behind any text are read back by `decode_hex` from what it wrote, and
-- `decode_fixed_hex` returns them for their number, and the error with both lengths for another.
pub decode_hex-append_hex :
    (output bytes : List U8) (n : ℕ)
    → (append_hex output bytes ≡ output ++ append_hex [] bytes)
      × (decode_hex (append_hex [] bytes) ≡ ok bytes)
      × (decode_fixed_hex (length bytes) (append_hex [] bytes) ≡ ok bytes)
      × (n ≢ length bytes
          → decode_fixed_hex n (append_hex [] bytes) ≡ err (wrong_length n (length bytes)))
unfolding decode_fixed_hex
decode_hex-append_hex output bytes n =
    let text : append_hex [] bytes ≡ hex_of bytes = append_hex-hex_of [] bytes in
    let reads : decode_hex (append_hex [] bytes) ≡ ok bytes =
      (decode_hex_iff (append_hex [] bytes) bytes).1
        (ap (map capital) text ∙ map-hex_of bytes ∙ sym text) in
    (
      append_hex-hex_of output bytes ∙ ap (◌++◌ output) (sym text),
      reads,
      rw (reads, decode_fixed_hex, (==_iff (length bytes) (length bytes)).1 refl),
      λ ne. rw (reads, decode_fixed_hex, ==_false (length bytes) n (λ e. ne (sym e))),
    )
