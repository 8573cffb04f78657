-- ===== src/Toy.antt =====
-- A concrete reading of the third-party crates, at which the tests run: the sponge keeps what it
-- absorbed and pads it with zeros, and the cipher adds its key.
use mqom_rs.Base.{
  ℕ, ◌≡◌, refl, sym, ap, ap₂, ◌∙◌, arith, Bool, true, false, ◌==◌, ==_iff, ◌&&◌, List, [], ◌∷◌,
  ◌++◌, length, take, length-take, length-append, U8, U8_ext,
}
use mathlib.Core.List.{append_assoc, append-nil}
use mqom_rs.Bytes.{filled, length-filled, xor_zip, length-xor_zip}
use mqom_rs.Field.Packing.{zero_byte}
use mqom_rs.Crates.{Crates}

abbrev pub padded : List U8 → ℕ → List U8
padded state n = take n (state ++ filled n zero_byte)

pub length-padded : (state : List U8) (n : ℕ) → length (padded state n) ≡ n
length-padded state n = omega (
  arith,
  length-take n (state ++ filled n zero_byte),
  length-append state (filled n zero_byte),
  length-filled n zero_byte,
)

abbrev same_bytes : List U8 → List U8 → Bool
same_bytes [] [] = true
same_bytes [] (y ∷ b) = false
same_bytes (x ∷ a) [] = false
same_bytes (x ∷ a) (y ∷ b) = x.value == y.value && same_bytes a b

pub same_bytes_sound : (a b : List U8) → same_bytes a b ≡ true → a ≡ b
same_bytes_sound [] [] e = refl
same_bytes_sound [] (y ∷ b) e = absurd cc
same_bytes_sound (x ∷ a) [] e = absurd cc
same_bytes_sound (x ∷ a) (y ∷ b) e =
    let parts : (x.value == y.value ≡ true) × (same_bytes a b ≡ true) = ground arith in
    ap₂ ◌∷◌ (U8_ext x y ((==_iff x.value y.value).0 parts.0)) (same_bytes_sound a b parts.1)

pub same_bytes_self : (a : List U8) → same_bytes a a ≡ true
same_bytes_self [] = refl
same_bytes_self (x ∷ a) = ap₂ ◌&&◌ ((==_iff x.value x.value).1 refl) (same_bytes_self a)

abbrev pub toy : Crates
toy = record {
  Shake128 = List U8;
  default = [];
  update = ◌++◌;
  read = padded;
  length-read = length-padded;
  update-nil = append-nil;
  update-append = append_assoc;
  Aes128 = List U8;
  new_cipher = λ key. key;
  encrypt_block = λ key block. xor_zip block key;
  length-encrypt_block = λ key block. length-xor_zip block key;
  ct_eq = same_bytes;
  ct_eq_iff = λ a b. (same_bytes_sound a b, λ e. ap (same_bytes a) (sym e) ∙ same_bytes_self a);
}
