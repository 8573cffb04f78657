-- ===== src/Prg/Orthomorphism.antt =====
-- `linear_orthomorphism` of src/prg.rs on blocks of sixteen bytes.
use mqom_rs.Base.{
  ℕ, ◌≡◌, ◌↔◌, sym, ap, ap₂, ◌∙◌, arith, List, ◌++◌, length, take, drop, U8, length-take,
  length-drop, take-append-drop, take-append, drop-append,
}
use mqom_rs.Bytes.{
  xor_zip, length-xor_zip, xor_zip_cancel, xor_zip_comm, xor_zip-append, xor_zip_inj,
}
use mqom_rs.Prg.{linear_orthomorphism}

take_of_length : (n : ℕ) (a b : List U8) → length a ≡ n → take n (a ++ b) ≡ a
take_of_length n a b e = ap (λ k. take k (a ++ b)) (sym e) ∙ take-append a b

drop_of_length : (n : ℕ) (a b : List U8) → length a ≡ n → drop n (a ++ b) ≡ b
drop_of_length n a b e = ap (λ k. drop k (a ++ b)) (sym e) ∙ drop-append a b

abbrev low_half : List U8 → List U8
low_half seed = take 8 seed

abbrev high_half : List U8 → List U8
high_half seed = drop 8 seed

length-halves :
    (seed : List U8)
    → length seed ≡ 16
    → (length (low_half seed) ≡ 8) × (length (high_half seed) ≡ 8)
length-halves seed e = (omega (arith, length-take 8 seed), omega (arith, length-drop 8 seed))

-- The left half of the image is the xor of the two halves, the right half is the left half.
pub linear_orthomorphism_lem :
    (seed : List U8)
    → length seed ≡ 16
    → linear_orthomorphism seed ≡ xor_zip (drop 8 seed) (take 8 seed) ++ take 8 seed
unfolding linear_orthomorphism
linear_orthomorphism_lem seed e = rw (
  take_of_length 8 (high_half seed) (low_half seed) (length-halves seed e).1,
  drop_of_length 8 (high_half seed) (low_half seed) (length-halves seed e).1,
)

-- Two blocks with equal halves are equal.
from_halves : (a b : List U8) → low_half a ≡ low_half b → high_half a ≡ high_half b → a ≡ b
from_halves a b p q = sym (take-append-drop 8 a) ∙ ap₂ ◌++◌ p q ∙ take-append-drop 8 b

module _ (a b : List U8) (ea : length a ≡ 16) (eb : length b ≡ 16) where
  -- The map is injective on blocks.
  pub linear_orthomorphism_inj : linear_orthomorphism a ≡ linear_orthomorphism b → a ≡ b
  linear_orthomorphism_inj h = from_halves a b lows highs
    where
      both :
          xor_zip (high_half a) (low_half a) ++ low_half a
          ≡ xor_zip (high_half b) (low_half b) ++ low_half b
      both = sym (linear_orthomorphism_lem a ea) ∙ h ∙ linear_orthomorphism_lem b eb

      left : (s : List U8) → length s ≡ 16 → length (xor_zip (high_half s) (low_half s)) ≡ 8
      left s e = length-xor_zip (high_half s) (low_half s) ∙ (length-halves s e).1

      lows : low_half a ≡ low_half b
      lows =
          sym (drop_of_length 8 _ (low_half a) (left a ea))
          ∙ ap (drop 8) both
          ∙ drop_of_length 8 _ (low_half b) (left b eb)

      highs : high_half a ≡ high_half b
      highs = xor_zip_inj (high_half a) (high_half b) (low_half a) (
          sym (take_of_length 8 _ (low_half a) (left a ea))
          ∙ ap (take 8) both
          ∙ take_of_length 8 _ (low_half b) (left b eb)
          ∙ ap (xor_zip (high_half b)) (sym lows))

xor-linear_orthomorphism :
    (seed : List U8)
    → length seed ≡ 16
    → xor_zip seed (linear_orthomorphism seed) ≡ drop 8 seed ++ xor_zip (drop 8 seed) (take 8 seed)
xor-linear_orthomorphism seed e =
    ap (xor_zip seed) (linear_orthomorphism_lem seed e)
    ∙ ap (λ s. xor_zip s (mixed ++ low_half seed)) (sym (take-append-drop 8 seed))
    ∙ xor_zip-append (low_half seed) (high_half seed) mixed (low_half seed)
        (omega (arith, sizes, length-xor_zip (high_half seed) (low_half seed)))
    ∙ ap (λ s. s ++ mixed) left
  where
    mixed : List U8
    mixed = xor_zip (high_half seed) (low_half seed)

    sizes : (length (low_half seed) ≡ 8) × (length (high_half seed) ≡ 8)
    sizes = length-halves seed e

    left : xor_zip (low_half seed) mixed ≡ high_half seed
    left =
        xor_zip_comm (low_half seed) mixed
          (omega (arith, sizes, length-xor_zip (high_half seed) (low_half seed)))
        ∙ xor_zip_cancel (high_half seed) (low_half seed)

module _ (a b : List U8) (ea : length a ≡ 16) (eb : length b ≡ 16) where
  -- And so is its sum with the identity, which makes it an orthomorphism.
  pub orthomorphism_inj :
      xor_zip a (linear_orthomorphism a) ≡ xor_zip b (linear_orthomorphism b) → a ≡ b
  orthomorphism_inj h = from_halves a b lows highs
    where
      both :
          high_half a ++ xor_zip (high_half a) (low_half a)
          ≡ high_half b ++ xor_zip (high_half b) (low_half b)
      both = sym (xor-linear_orthomorphism a ea) ∙ h ∙ xor-linear_orthomorphism b eb

      highs : high_half a ≡ high_half b
      highs =
          sym (take_of_length 8 (high_half a) _ (length-halves a ea).1)
          ∙ ap (take 8) both
          ∙ take_of_length 8 (high_half b) _ (length-halves b eb).1

      mixed : xor_zip (high_half a) (low_half a) ≡ xor_zip (high_half b) (low_half b)
      mixed =
          sym (drop_of_length 8 (high_half a) _ (length-halves a ea).1)
          ∙ ap (drop 8) both
          ∙ drop_of_length 8 (high_half b) _ (length-halves b eb).1

      swapped :
          (s : List U8)
          → length s ≡ 16
          → xor_zip (low_half s) (high_half s) ≡ xor_zip (high_half s) (low_half s)
      swapped s e = xor_zip_comm (low_half s) (high_half s) (omega (arith, length-halves s e))

      lows : low_half a ≡ low_half b
      lows =
          xor_zip_inj (low_half a) (low_half b) (high_half a)
            (swapped a ea ∙ mixed ∙ sym (swapped b eb) ∙ ap (xor_zip (low_half b)) (sym highs))

-- The linear map of the seed derivation is injective on blocks, and so is its sum with the
-- identity: it is an orthomorphism.
pub linear_orthomorphism_iff :
    (a b : List U8)
    → length a ≡ 16
    → length b ≡ 16
    → ((linear_orthomorphism a ≡ linear_orthomorphism b) ↔ (a ≡ b))
      × ((xor_zip a (linear_orthomorphism a) ≡ xor_zip b (linear_orthomorphism b)) ↔ (a ≡ b))
linear_orthomorphism_iff a b e f = (
  (linear_orthomorphism_inj a b e f, ap linear_orthomorphism),
  (orthomorphism_inj a b e f, ap (λ x. xor_zip x (linear_orthomorphism x))),
)
