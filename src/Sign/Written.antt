-- ===== src/Sign/Written.antt =====
-- The loops of the signer that write alpha_one, as one write of the encoded matrix.
use mqom_rs.Base.{
  ℕ, ◌+◌, ◌≤◌, ◌≡◌, sym, ap, ap₂, ◌∙◌, arith, U8, List, [], ◌∷◌, ◌++◌, length, take, drop,
  length-append, length-take, take-append-drop,
}
use mathlib.Core.List.{append_assoc}
use mqom_rs.Bytes.{write_at, length-write_at}
use mqom_rs.Bytes.Slices.{take_exactly, drop_after, drop-drop}
use mqom_rs.Crates.{Crates}
use mqom_rs.Keygen.{byte_array}
use mqom_rs.Field.Gf256x2.Element.{Gf256x2}
use mqom_rs.Sign.{write_row, write_rows}
use mqom_rs.Sign.Encoding.{encoded, encoded_all}
use mqom_rs.Sign.Equations.{pair}

write_at-nil : (xs : List U8) (offset : ℕ) → write_at xs offset [] ≡ xs
unfolding write_at
write_at-nil xs offset =
    ap (λ k. take offset xs ++ drop k xs) {x = offset + 0} {y = offset} (omega arith)
    ∙ take-append-drop offset xs

-- Two writes side by side.
write_at-append_parts :
    (xs a b : List U8) (offset : ℕ)
    → offset + length a + length b ≤ length xs
    → write_at (write_at xs offset a) (offset + length a) b ≡ write_at xs offset (a ++ b)
unfolding write_at
write_at-append_parts xs a b offset fits =
    ap₂ (λ s t. s ++ (b ++ t)) before behind
    ∙ append_assoc (take offset xs) a (b ++ drop (offset + length (a ++ b)) xs)
    ∙ ap (λ t. take offset xs ++ t) (sym (append_assoc a b (drop (offset + length (a ++ b)) xs)))
  where
    before : take (offset + length a) (write_at xs offset a) ≡ take offset xs ++ a
    before =
        ap (take (offset + length a))
          (sym (append_assoc (take offset xs) a (drop (offset + length a) xs)))
        ∙ take_exactly (offset + length a) (take offset xs ++ a) (drop (offset + length a) xs)
            (omega (arith, length-append (take offset xs) a, length-take offset xs))

    behind :
        drop (offset + length a + length b) (write_at xs offset a)
        ≡ drop (offset + length (a ++ b)) xs
    behind =
        sym (drop-drop (length b) (offset + length a) (write_at xs offset a))
        ∙ ap (drop (length b)) (drop_after xs a offset (omega arith))
        ∙ drop-drop (length b) (offset + length a) xs
        ∙ ap (λ k. drop k xs) {x = offset + length a + length b} {y = offset + length (a ++ b)}
            (omega (arith, length-append a b))

module _ ⦃c : Crates⦄ where
  pub write_row-write_at :
      (row : List Gf256x2) (signature : List U8) (offset : ℕ)
      → offset + length (encoded row) ≤ length signature
      → write_row row signature offset
        ≡ (write_at signature offset (encoded row), offset + length (encoded row))
  unfolding write_row
  write_row-write_at [] signature offset fits =
      pair (sym (write_at-nil signature offset)) (omega arith)
  write_row-write_at (a ∷ row) signature offset fits =
      write_row-write_at row (write_at signature offset (byte_array a)) (offset + 2)
        (omega (arith, fits, length-write_at signature offset (byte_array a)))
      ∙ pair
          (write_at-append_parts signature (byte_array a) (encoded row) offset
            (omega (arith, fits)))
          (omega arith)

  pub write_rows-write_at :
      (rows : List (List Gf256x2)) (signature : List U8) (offset : ℕ)
      → offset + length (encoded_all rows) ≤ length signature
      → write_rows rows signature offset
        ≡ (write_at signature offset (encoded_all rows), offset + length (encoded_all rows))
  unfolding write_rows
  write_rows-write_at [] signature offset fits =
      pair (sym (write_at-nil signature offset)) (omega arith)
  write_rows-write_at (row ∷ rows) signature offset fits =
      let both = length-append (encoded row) (encoded_all rows) in
      rw (write_row-write_at row signature offset (omega (arith, fits, both))) (
        write_rows-write_at rows (write_at signature offset (encoded row))
          (offset + length (encoded row))
          (omega (arith, fits, both, length-write_at signature offset (encoded row)))
        ∙ pair
            (write_at-append_parts signature (encoded row) (encoded_all rows) offset
              (omega (arith, fits, both)))
            (omega (arith, both)))
