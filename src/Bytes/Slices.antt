-- ===== src/Bytes/Slices.antt =====
-- Slices of an array into which a part was copied.
use mqom_rs.Base.{
  ℕ, zero, suc, ◌+◌, ◌-◌, ◌≤◌, ◌≡◌, ◌⊎◌, inl, inr, sym, ap, ap₂, ◌∙◌, arith, U8, List, [], ◌∷◌,
  ◌++◌, length, take, drop, slice, length-take, length-append, take_within, take_all, drop_all,
  take-take, drop-take,
}
use mathlib.Core.List.{append_assoc}
use mqom_rs.Bytes.{write_at, drop_exactly}

pub take_exactly : (n : ℕ) (xs ys : List U8) → length xs ≡ n → take n (xs ++ ys) ≡ xs
take_exactly n xs ys e = take_within n xs ys (omega arith) ∙ take_all n xs (omega arith)

pub drop-drop : (m n : ℕ) (xs : List U8) → drop m (drop n xs) ≡ drop (n + m) xs
drop-drop m zero xs = ap (λ k. drop k xs) {x = m} {y = 0 + m} (omega arith)
drop-drop m (suc n) [] = drop_all m [] (omega arith) ∙ sym (drop_all (suc n + m) [] (omega arith))
drop-drop m (suc n) (x ∷ xs) =
    drop-drop m n xs ∙ ap (λ k. drop k (x ∷ xs)) {x = suc (n + m)} {y = suc n + m} (omega arith)

-- A slice is what lies before its end.
pub slice-take : (a b : ℕ) (xs : List U8) → a ≤ b → slice a b xs ≡ drop a (take b xs)
slice-take a b xs h =
    sym (drop-take a (b - a) xs)
    ∙ ap (λ k. drop a (take k xs)) {x = a + (b - a)} {y = b} (omega arith)

module _ (xs ys : List U8) (offset : ℕ) (fits : offset + length ys ≤ length xs) where
  prefix_size : length (take offset xs) ≡ offset
  prefix_size = omega (arith, length-take offset xs)

  take_before : (b : ℕ) → b ≤ offset → take b (write_at xs offset ys) ≡ take b xs
  unfolding write_at
  take_before b h =
      take_within b (take offset xs) (ys ++ drop (offset + length ys) xs)
        (omega (arith, prefix_size))
      ∙ take-take b offset xs h

  pub drop_after : drop (offset + length ys) (write_at xs offset ys) ≡ drop (offset + length ys) xs
  unfolding write_at
  drop_after =
      ap (drop (offset + length ys))
        (sym (append_assoc (take offset xs) ys (drop (offset + length ys) xs)))
      ∙ drop_exactly (take offset xs ++ ys) (drop (offset + length ys) xs) (offset + length ys)
          (omega (arith, length-append (take offset xs) ys, prefix_size))

  pub slice_same : (n : ℕ) → length ys ≡ n → slice offset (offset + n) (write_at xs offset ys) ≡ ys
  unfolding write_at
  slice_same n e =
      ap₂ take {x = offset + n - offset} {y = n} (omega arith) (
        drop_exactly (take offset xs) (ys ++ drop (offset + length ys) xs) offset (sym prefix_size))
      ∙ take_exactly n ys (drop (offset + length ys) xs) e

  -- A slice that ends before the part, or starts behind it, is as it was.
  pub slice_other :
      (a b : ℕ)
      → a ≤ b
      → (b ≤ offset) ⊎ (offset + length ys ≤ a)
      → slice a b (write_at xs offset ys) ≡ slice a b xs
  slice_other a b h (inl before) =
      slice-take a b (write_at xs offset ys) h
      ∙ ap (drop a) (take_before b before)
      ∙ sym (slice-take a b xs h)
  slice_other a b h (inr after) = ap (take (b - a)) (
      behind (write_at xs offset ys)
      ∙ ap (drop (a - (offset + length ys))) drop_after
      ∙ sym (behind xs))
    where
      behind :
          (zs : List U8)
          → drop a zs ≡ drop (a - (offset + length ys)) (drop (offset + length ys) zs)
      behind zs =
          ap (λ k. drop k zs) {x = a} {y = offset + length ys + (a - (offset + length ys))}
            (omega arith)
          ∙ sym (drop-drop (a - (offset + length ys)) (offset + length ys) zs)
