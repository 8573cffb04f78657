-- ===== src/Sign/Batching.antt =====
-- The batching matrix: the parse of a stream into rows.
use mqom_rs.Base.{
  ℕ, zero, suc, ◌*◌, ◌≡◌, refl, ap, ◌∙◌, arith, U8, some, List, [], ◌∷◌, length, take, drop,
  length-take, length-drop,
}
use mqom_rs.Field.Gf256x2.Element.{Gf256x2}
use mqom_rs.Blc.Tree.{chunks}
use mqom_rs.Blc.Fold.{read_elements}
use mqom_rs.Blc.Fold.Total.{parse_extension_vector_total}
use mqom_rs.Verify.{parse_rows}

-- The rows of `n` elements of a stream.
abbrev pub rows_of : ℕ → ℕ → List U8 → List (List Gf256x2)
rows_of n zero stream = []
rows_of n (suc left) stream =
    read_elements (take (n * 2) stream) 0 n ∷ rows_of n left (drop (n * 2) stream)

pub length-rows_of : (n left : ℕ) (stream : List U8) → length (rows_of n left stream) ≡ left
length-rows_of n zero stream = refl
length-rows_of n (suc left) stream = ap suc (length-rows_of n left (drop (n * 2) stream))

pub parse_rows_total :
    (n left : ℕ) (stream : List U8)
    → length stream ≡ left * (n * 2)
    → parse_rows n (chunks (n * 2) left stream) ≡ some (rows_of n left stream)
unfolding parse_rows chunks
parse_rows_total n zero stream e = refl
parse_rows_total n (suc left) stream e = rw (
  parse_extension_vector_total n (take (n * 2) stream)
      (length-take (n * 2) stream ∙ omega (arith, e)),
  parse_rows,
  parse_rows_total n left (drop (n * 2) stream) (length-drop (n * 2) stream ∙ omega (arith, e)),
)
