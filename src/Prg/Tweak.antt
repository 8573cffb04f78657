-- ===== src/Prg/Tweak.antt =====
-- `tweak_salt` of src/prg.rs separates the domains of its three arguments.
use mqom_rs.Base.{
  ℕ, ◌+◌, ◌*◌, ◌/◌, ◌%◌, ◌^◌, ◌<◌, ◌≤◌, ◌≡◌, ◌↔◌, sym, ap, ap₂, ◌∙◌, arith, List, [], ◌∷◌, length,
  U8, get_or, xor_u8, to_u8, xor_u8_assoc, xor_u8_comm, xor_u8_self, xor_u8-zero, ◌>>>◌, u8,
}
use mqom_rs.Field.Packing.{zero_byte}
use mqom_rs.Prg.{tweak_salt}

xor_u8_inj : (b x y : U8) → xor_u8 b x ≡ xor_u8 b y → x ≡ y
xor_u8_inj b x y e = sym (undo x) ∙ ap (xor_u8 b) e ∙ undo y
  where
    undo : (z : U8) → xor_u8 b (xor_u8 b z) ≡ z
    undo z =
        sym (xor_u8_assoc b b z)
        ∙ ap (λ t. xor_u8 t z) (xor_u8_self b)
        ∙ xor_u8_comm (to_u8 0) z
        ∙ xor_u8-zero z

byte_inj : (b : U8) (m n : ℕ) → xor_u8 b (to_u8 m) ≡ xor_u8 b (to_u8 n) → m % 256 ≡ n % 256
byte_inj b m n e = unfold to_u8 in ap (λ (x : U8). x.value) (xor_u8_inj b (to_u8 m) (to_u8 n) e)

tweak_salt_inj :
    (salt : List U8) (s s' e e' i i' : ℕ)
    → 3 ≤ length salt
    → s < 4
    → s' < 4
    → e < 64
    → e' < 64
    → i < 2 ^ 16
    → i' < 2 ^ 16
    → tweak_salt salt s e i ≡ tweak_salt salt s' e' i'
    → (s ≡ s') × (e ≡ e') × (i ≡ i')
unfolding tweak_salt
tweak_salt_inj [] s s' e e' i i' h hs hs' he he' hi hi' eq = absurd (omega arith)
tweak_salt_inj (_ ∷ []) s s' e e' i i' h hs hs' he he' hi hi' eq = absurd (omega arith)
tweak_salt_inj (_ ∷ (_ ∷ [])) s s' e e' i i' h hs hs' he he' hi hi' eq = absurd (omega arith)
tweak_salt_inj (b0 ∷ (b1 ∷ (b2 ∷ rest))) s s' e e' i i' h hs hs' he he' hi hi' eq =
    (omega (arith, first), omega (arith, first), omega (arith, second, third))
  where
    first : (s + e * 4 % 256) % 256 ≡ (s' + e' * 4 % 256) % 256
    first = byte_inj b0 (s + u8 (e * 4)) (s' + u8 (e' * 4)) (ap (λ l. get_or l 0 zero_byte) eq)

    second : i % 256 ≡ i' % 256
    second = byte_inj b1 i i' (ap (λ l. get_or l 1 zero_byte) eq)

    third : i / 256 % 256 ≡ i' / 256 % 256
    third = byte_inj b2 (i >>> 8) (i' >>> 8) (ap (λ l. get_or l 2 zero_byte) eq)

-- For selectors below 4, executions below 64 and indices of 16 bits, two keys that come from one
-- salt of at least three bytes agree exactly when selector, execution and index agree.
pub tweak_salt_iff :
    (salt : List U8) (s s' e e' i i' : ℕ)
    → 3 ≤ length salt
    → s < 4
    → s' < 4
    → e < 64
    → e' < 64
    → i < 2 ^ 16
    → i' < 2 ^ 16
    → (tweak_salt salt s e i ≡ tweak_salt salt s' e' i') ↔ ((s ≡ s') × (e ≡ e') × (i ≡ i'))
tweak_salt_iff salt s s' e e' i i' h hs hs' he he' hi hi' = (
  tweak_salt_inj salt s s' e e' i i' h hs hs' he he' hi hi',
  λ same. ap (λ x. tweak_salt salt x e i) same.0 ∙ ap₂ (tweak_salt salt s') same.1 same.2,
)
