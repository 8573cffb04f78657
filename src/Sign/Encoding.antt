-- ===== src/Sign/Encoding.antt =====
-- The encoding of extension vectors: what `parse_extension_vector` reads from the bytes that the loops
-- over `to_bytes` write.
use mqom_rs.Base.{
  ℕ, zero, suc, ◌+◌, ◌*◌, ◌<◌, ◌≡◌, refl, sym, ap, ap₂, ◌∙◌, arith, U8, some, List, [], ◌∷◌, ◌++◌,
  length, take, drop, get_or, get_or-drop, get_or-take, length-append,
}
use mqom_rs.Bytes.{drop_exactly}
use mqom_rs.Bytes.Slices.{take_exactly}
use mqom_rs.Keygen.{byte_array}
use mqom_rs.Field.Packing.{zero_byte}
use mqom_rs.Field.Gf256x2.Element.{Gf256x2, from_bytes, to_bytes}
use mqom_rs.Field.Gf256x2.Element as Gf256x2
use mqom_rs.Blc.Tree.{chunks}
use mqom_rs.Blc.Fold.{read_elements}
use mqom_rs.Blc.Line.Sizes.{AllRows}
use mqom_rs.Verify.{parse_rows}
use mqom_rs.Sign.Batching.{rows_of, parse_rows_total}

-- Two bytes at an offset are read as the element that they encode.
read_pair :
    (bytes : List U8) (offset : ℕ) (a : Gf256x2)
    → take 2 (drop offset bytes) ≡ byte_array a
    → from_bytes (get_or bytes offset zero_byte) (get_or bytes (offset + 1) zero_byte) ≡ a
read_pair bytes offset a e =
    ap₂ from_bytes
      (ap (λ k. get_or bytes k zero_byte) {x = offset} {y = offset + 0} (omega arith)
        ∙ byte_at 0 (omega arith)
        ∙ ap (λ l. get_or l 0 zero_byte) e)
      (byte_at 1 (omega arith) ∙ ap (λ l. get_or l 1 zero_byte) e)
  where
    byte_at :
        (i : ℕ)
        → i < 2
        → get_or bytes (offset + i) zero_byte ≡ get_or (take 2 (drop offset bytes)) i zero_byte
    byte_at i lt =
        sym (get_or-drop offset bytes i zero_byte)
        ∙ sym (get_or-take 2 (drop offset bytes) i zero_byte lt)

pub read_elements-at :
    (bytes : List U8) (elements : List Gf256x2) (index : ℕ)
    → ((j : ℕ)
        → j < length elements
        → take 2 (drop ((index + j) * 2) bytes) ≡ byte_array (get_or elements j Gf256x2.zero))
    → read_elements bytes index (length elements) ≡ elements
unfolding read_elements
read_elements-at bytes [] index each = refl
read_elements-at bytes (a ∷ elements) index each =
    ap₂ ◌∷◌
      (read_pair bytes (index * 2) a (
        ap (λ k. take 2 (drop (k * 2) bytes)) {x = index} {y = index + 0} (omega arith)
        ∙ each 0 (omega arith)))
      (read_elements-at bytes elements (index + 1) λ j lt.
        ap (λ k. take 2 (drop (k * 2) bytes)) {x = index + 1 + j} {y = index + suc j} (omega arith)
        ∙ each (suc j) (omega (arith, lt)))

-- The bytes of a vector, and of the rows of a matrix.
abbrev pub encoded : List Gf256x2 → List U8
encoded [] = []
encoded (a ∷ elements) = byte_array a ++ encoded elements

abbrev pub encoded_all : List (List Gf256x2) → List U8
encoded_all [] = []
encoded_all (row ∷ rows) = encoded row ++ encoded_all rows

pub length-encoded : (elements : List Gf256x2) → length (encoded elements) ≡ length elements * 2
length-encoded [] = refl
length-encoded (a ∷ elements) = omega (arith, length-encoded elements)

pub length-encoded_all :
    (n : ℕ) (rows : List (List Gf256x2))
    → AllRows n rows
    → length (encoded_all rows) ≡ length rows * (n * 2)
length-encoded_all n [] sized = omega arith
length-encoded_all n (row ∷ rows) sized = omega (
  arith,
  length-append (encoded row) (encoded_all rows),
  length-encoded row,
  sized 0 (omega arith),
  length-encoded_all n rows (λ j lt. sized (suc j) (omega (arith, lt))),
)

encoded-at :
    (elements : List Gf256x2) (j : ℕ)
    → j < length elements
    → take 2 (drop (j * 2) (encoded elements)) ≡ byte_array (get_or elements j Gf256x2.zero)
encoded-at [] j lt = absurd (omega arith)
encoded-at (a ∷ elements) zero lt = refl
encoded-at (a ∷ elements) (suc j) lt =
    ap (λ k. take 2 (drop k (encoded (a ∷ elements)))) {x = suc j * 2} {y = suc (suc (j * 2))}
      (omega arith)
    ∙ encoded-at elements j (omega arith)

read_elements-encoded :
    (elements : List Gf256x2) → read_elements (encoded elements) 0 (length elements) ≡ elements
read_elements-encoded elements = read_elements-at (encoded elements) elements 0 λ j lt.
    ap (λ k. take 2 (drop (k * 2) (encoded elements))) {x = 0 + j} {y = j} (omega arith)
    ∙ encoded-at elements j lt

rows_of-encoded_all :
    (n : ℕ) (rows : List (List Gf256x2))
    → AllRows n rows
    → rows_of n (length rows) (encoded_all rows) ≡ rows
rows_of-encoded_all n [] sized = refl
rows_of-encoded_all n (row ∷ rows) sized =
    let e : length row ≡ n = sized 0 (omega arith) in
    ap₂ ◌∷◌
      (ap₂ (λ bytes k. read_elements bytes 0 k)
          (take_exactly (n * 2) (encoded row) (encoded_all rows)
            (length-encoded row ∙ ap (λ k. k * 2) e))
          (sym e)
        ∙ read_elements-encoded row)
      (ap (rows_of n (length rows)) (
          drop_exactly (encoded row) (encoded_all rows) (n * 2)
            (ap (λ k. k * 2) (sym e) ∙ sym (length-encoded row)))
        ∙ rows_of-encoded_all n rows λ j lt. sized (suc j) (omega (arith, lt)))

-- The matrix is read back from its encoding.
pub parse_rows-encoded_all :
    (n : ℕ) (rows : List (List Gf256x2))
    → AllRows n rows
    → parse_rows n (chunks (n * 2) (length rows) (encoded_all rows)) ≡ some rows
parse_rows-encoded_all n rows sized =
    parse_rows_total n (length rows) (encoded_all rows) (length-encoded_all n rows sized)
    ∙ ap some (rows_of-encoded_all n rows sized)
