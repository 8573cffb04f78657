-- ===== src/Xtask/Drbg/Counter.antt =====
-- `increment_value` adds one to the counter, read with its highest byte first, and wraps around.
use mqom_rs.Base.{
  ℕ, suc, ◌+◌, ◌*◌, ◌%◌, ◌^◌, ◌<◌, ◌≡◌, ◌≢◌, ◌⊎◌, inl, inr, refl, sym, ap, ◌∙◌, arith, U8, to_u8,
  List, [], ◌∷◌, length, length-append, ◌==◌, ==_iff, Bool-cases,
}
use mathlib.Core.Path.{subst}
use mathlib.Core.List.{reverse, reverse-cons, reverse-reverse}
use native.Mathlib.Nat.{pow-suc, mod-eq_of_lt, mod_self}
use mqom_rs.Verify.Reject.{true≢false}
use mqom_rs.Xtask.Drbg.{from_le_bytes, increment_bytes, increment_value}

pub from_le_bytes-lt : (bytes : List U8) → from_le_bytes bytes < 256 ^ length bytes
from_le_bytes-lt [] = omega arith
from_le_bytes-lt (byte ∷ rest) =
    omega (arith, byte.bounded, from_le_bytes-lt rest, pow-suc 256 (length rest))

pub length-increment_bytes : (bytes : List U8) → length (increment_bytes bytes) ≡ length bytes
unfolding increment_bytes
length-increment_bytes [] = refl
length-increment_bytes (byte ∷ rest) = elim (Bool-cases (byte.value == 255)) [
  | inl e ↦ rw (e, increment_bytes) (ap suc (length-increment_bytes rest))
  | inr e ↦ rw (e, increment_bytes)
]

-- One more, or nothing after the highest number.
Next : ℕ → ℕ → ℕ → Type 0
Next modulus before after =
    ((before + 1 < modulus) × (after ≡ before + 1)) ⊎ ((before + 1 ≡ modulus) × (after ≡ 0))

module _ (byte : U8) (rest : List U8) where
  carry :
      byte.value ≡ 255
      → from_le_bytes (increment_bytes (byte ∷ rest)) ≡ 256 * from_le_bytes (increment_bytes rest)
  unfolding increment_bytes to_u8
  carry e = rw ((==_iff byte.value 255).1 e, increment_bytes) (omega (arith, e))

  stop :
      byte.value ≢ 255
      → from_le_bytes (increment_bytes (byte ∷ rest)) ≡ byte.value + 1 + 256 * from_le_bytes rest
  unfolding increment_bytes to_u8
  stop ne = elim (Bool-cases (byte.value == 255)) [
    | inl e ↦ absurd (ne ((==_iff byte.value 255).0 e))
    | inr e ↦ rw (e, increment_bytes) (omega (arith, byte.bounded, ne))
  ]

increment_bytes-Next :
    (bytes : List U8)
    → Next (256 ^ length bytes) (from_le_bytes bytes) (from_le_bytes (increment_bytes bytes))
unfolding increment_bytes Next
increment_bytes-Next [] = inr (omega arith, refl)
increment_bytes-Next (byte ∷ rest) = elim (Bool-cases (byte.value == 255)) [
  | inl full ↦
      let e : byte.value ≡ 255 = (==_iff byte.value 255).0 full in
      elim (increment_bytes-Next rest) [
        | inl p ↦
            inl (
              omega (arith, e, p, pow-suc 256 (length rest)),
              omega (arith, e, p, carry byte rest e),
            )
        | inr p ↦
            inr (
              omega (arith, e, p, pow-suc 256 (length rest)),
              omega (arith, e, p, carry byte rest e),
            )
      ]
  | inr open_ended ↦
      let ne : byte.value ≢ 255 =
        λ e. true≢false (sym ((==_iff byte.value 255).1 e) ∙ open_ended) in
      inl (
        omega (arith, ne, byte.bounded, from_le_bytes-lt rest, pow-suc 256 (length rest)),
        omega (arith, stop byte rest ne),
      )
]

pub length-reverse : (bytes : List U8) → length (reverse bytes) ≡ length bytes
length-reverse [] = refl
length-reverse (byte ∷ rest) =
    ap length (reverse-cons byte rest)
    ∙ omega (arith, length-append (reverse rest) (byte ∷ []), length-reverse rest)

-- The counter as a number, and one step of it.
abbrev pub big_endian : List U8 → ℕ
big_endian value = from_le_bytes (reverse value)

Next-mod : (modulus before after : ℕ) → Next modulus before after → after ≡ (before + 1) % modulus
unfolding Next
Next-mod modulus before after (inl p) = p.1 ∙ sym (mod-eq_of_lt p.0)
Next-mod modulus before after (inr p) = p.1 ∙ sym (ap (λ k. k % modulus) p.0 ∙ mod_self modulus)

-- `increment_value` keeps the number of bytes, and is addition of one modulo 256 to their number, on the
-- number with its highest byte first.
pub increment_value-big_endian :
    (value : List U8)
    → (length (increment_value value) ≡ length value)
      × (big_endian (increment_value value) ≡ (big_endian value + 1) % 256 ^ length value)
unfolding increment_value
increment_value-big_endian value = (
  length-reverse (increment_bytes (reverse value))
      ∙ length-increment_bytes (reverse value)
      ∙ length-reverse value,
  ap from_le_bytes (reverse-reverse (increment_bytes (reverse value)))
      ∙ Next-mod (256 ^ length (reverse value)) (big_endian value) _
          (increment_bytes-Next (reverse value))
      ∙ ap (λ k. (big_endian value + 1) % 256 ^ k) (length-reverse value),
)

pub big_endian-lt : (value : List U8) → big_endian value < 256 ^ length value
big_endian-lt value =
    subst (λ k. big_endian value < 256 ^ k) (length-reverse value)
      (from_le_bytes-lt (reverse value))
