-- ===== src/Blc/Line/Functional.antt =====
-- The two parts of an expanded leaf as vectors, which add up as the leaves do; src/blc.rs.
use mqom_rs.Base.{
  ℕ, zero, suc, ◌+◌, ◌*◌, bit_xor, ◌>>>◌, ◌≡◌, refl, ap, ap₂, ◌∙◌, arith, U8, U8_ext, to_u8, xor_u8,
  List, [], ◌∷◌, map, length, take, drop, get_or, length-take, length-drop, length-map, xor_low,
  xor_shr,
}
use mqom_rs.Bytes.{xor_zip, take-xor_zip, drop-xor_zip}
use mqom_rs.Params.{mq_n, eta}
use mqom_rs.Field.Ring.{◌⊕◌}
use mqom_rs.Field.Packing.{zero_byte}
use mqom_rs.Field.Packing.Laws.{halves, low_half, high_half, length-halves}
use mqom_rs.Field.Gf16.Element.{Gf16}
use mqom_rs.Field.Gf16.Element as Gf16
use mqom_rs.Field.Gf16.Laws.{Gf16_ext}
use mqom_rs.Field.Gf256.Element as Gf256
use mqom_rs.Field.Gf256x2.Element.{Gf256x2, from_bytes, scale}
use mqom_rs.Field.Gf256x2.Element as Gf256x2
use mqom_rs.Field.Gf256x2.Laws.{gf256x2_ring}
use mqom_rs.Field.Gf256x2.Lift.{lift, lift-add, scale-eq_mul}
use mqom_rs.Mq.Vectors.{vadd, vscale}
use mqom_rs.Blc.{base_vector_size, expanded_leaf_size}
use mqom_rs.Blc.Fold.{read_elements, add_base, point_of}

pub from_bytes-xor :
    (a b c d : U8)
    → from_bytes (xor_u8 a c) (xor_u8 b d) ≡ Gf256x2.add (from_bytes a b) (from_bytes c d)
unfolding Gf256x2.add Gf256.add
from_bytes-xor a b c d = refl

pub point_of-xor : (a b : ℕ) → point_of (bit_xor a b) ≡ point_of a ⊕ point_of b
point_of-xor a b =
    ap₂ from_bytes (to_u8-xor a b) (ap to_u8 (xor_shr 8 a b) ∙ to_u8-xor (a >>> 8) (b >>> 8))
    ∙ from_bytes-xor (to_u8 a) (to_u8 (a >>> 8)) (to_u8 b) (to_u8 (b >>> 8))
  where
    to_u8-xor : (x y : ℕ) → to_u8 (bit_xor x y) ≡ xor_u8 (to_u8 x) (to_u8 y)
    to_u8-xor x y = unfold to_u8 in unfold xor_u8 in U8_ext _ _ (xor_low 8 x y)

pub halves-xor :
    (a b : List U8)
    → length a ≡ length b
    → map lift (halves (xor_zip a b)) ≡ vadd (map lift (halves a)) (map lift (halves b))
unfolding xor_zip vadd
halves-xor [] b e = refl
halves-xor (x ∷ a) [] e = absurd (omega arith)
halves-xor (x ∷ a) (y ∷ b) e =
    ap₂ ◌∷◌ (ap lift (low_half-xor x y) ∙ lift-add (low_half x) (low_half y)) (
      ap₂ ◌∷◌ (ap lift (high_half-xor x y) ∙ lift-add (high_half x) (high_half y))
        (halves-xor a b (omega arith)))
  where
    low_half-xor : (p q : U8) → low_half (xor_u8 p q) ≡ Gf16.add (low_half p) (low_half q)
    low_half-xor p q = unfold xor_u8 in unfold Gf16.add in Gf16_ext _ _ (xor_low 4 p.value q.value)

    high_half-xor : (p q : U8) → high_half (xor_u8 p q) ≡ Gf16.add (high_half p) (high_half q)
    high_half-xor p q = unfold xor_u8 in unfold Gf16.add in Gf16_ext _ _ (xor_shr 4 p.value q.value)

get_or-xor :
    (a b : List U8) (i : ℕ)
    → length a ≡ length b
    → get_or (xor_zip a b) i zero_byte ≡ xor_u8 (get_or a i zero_byte) (get_or b i zero_byte)
unfolding xor_zip
get_or-xor [] [] i e = U8_ext _ _ (unfold xor_u8 in refl)
get_or-xor [] (y ∷ b) i e = absurd (omega arith)
get_or-xor (x ∷ a) [] i e = absurd (omega arith)
get_or-xor (x ∷ a) (y ∷ b) zero e = refl
get_or-xor (x ∷ a) (y ∷ b) (suc i) e = get_or-xor a b i (omega arith)

read_elements-xor :
    (a b : List U8) (index left : ℕ)
    → length a ≡ length b
    → read_elements (xor_zip a b) index left
      ≡ vadd (read_elements a index left) (read_elements b index left)
unfolding read_elements vadd
read_elements-xor a b index zero e = refl
read_elements-xor a b index (suc left) e =
    ap₂ ◌∷◌
      (ap₂ from_bytes (get_or-xor a b (index * 2) e) (get_or-xor a b (index * 2 + 1) e)
        ∙ from_bytes-xor (get_or a (index * 2) zero_byte) (get_or a (index * 2 + 1) zero_byte)
            (get_or b (index * 2) zero_byte) (get_or b (index * 2 + 1) zero_byte))
      (read_elements-xor a b (index + 1) left e)

pub length-read_elements :
    (a : List U8) (index left : ℕ) → length (read_elements a index left) ≡ left
unfolding read_elements
length-read_elements a index zero = refl
length-read_elements a index (suc left) = ap suc (length-read_elements a (index + 1) left)

-- A map from expanded leaves to vectors of `n` elements that takes `^` to the sum.
pub record IsLinear (n : ℕ) (part : List U8 → List Gf256x2) : Type 0 where
  pub sized : (a : List U8) → length a ≡ expanded_leaf_size → length (part a) ≡ n
  pub additive :
      (a b : List U8)
      → length a ≡ expanded_leaf_size
      → length b ≡ expanded_leaf_size
      → part (xor_zip a b) ≡ vadd (part a) (part b)

-- The part of the secret vector, in the extension field, and the part of the mask.
abbrev pub base_part : List U8 → List Gf256x2
base_part a = map lift (halves (take base_vector_size a))

abbrev pub mask_part : List U8 → List Gf256x2
mask_part a = read_elements (drop base_vector_size a) 0 eta

pub base_part-IsLinear : IsLinear mq_n base_part
base_part-IsLinear = record {
  sized = λ a e.
      length-map lift (halves (take base_vector_size a))
      ∙ length-halves (take base_vector_size a)
      ∙ omega (arith, length-take base_vector_size a, e);
  additive = λ a b e f.
      ap (λ t. map lift (halves t)) (take-xor_zip base_vector_size a b)
      ∙ halves-xor (take base_vector_size a) (take base_vector_size b)
          (omega (arith, length-take base_vector_size a, length-take base_vector_size b, e, f));
}

pub mask_part-IsLinear : IsLinear eta mask_part
mask_part-IsLinear = record {
  sized = λ a e. length-read_elements (drop base_vector_size a) 0 eta;
  additive = λ a b e f.
      ap (λ t. read_elements t 0 eta) (drop-xor_zip base_vector_size a b)
      ∙ read_elements-xor (drop base_vector_size a) (drop base_vector_size b) 0 eta
          (omega (arith, length-drop base_vector_size a, length-drop base_vector_size b, e, f));
}

pub add_base-vadd :
    (x : List Gf256x2) (vector : List Gf16) (point : Gf256x2)
    → length x ≡ length vector
    → add_base x vector point ≡ vadd x (vscale point (map lift vector))
unfolding add_base vadd vscale
add_base-vadd [] vector point e = refl
add_base-vadd (a ∷ x) [] point e = absurd (omega arith)
add_base-vadd (a ∷ x) (v ∷ vector) point e =
    ap₂ ◌∷◌ (ap (Gf256x2.add a) (scale-eq_mul v point ∙ gf256x2_ring.mul_comm (lift v) point))
      (add_base-vadd x vector point (omega arith))
