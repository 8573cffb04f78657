-- ===== src/Mq/Expand.antt =====
-- `expand_equation` of src/mq.rs: total on the indices of the profile, with the sizes of the
-- profile, and refused beyond them.
use mqom_rs.Base.{
  ℕ, ◌/◌, ◌^◌, ◌≤◌, ◌<◌, ◌≡◌, refl, sym, ap, ◌∙◌, arith, U8, none, some, List, [], ◌∷◌, ◌++◌,
  length, take, drop, true, false, ltb, lt→ltb, ==_iff, length-take, length-drop, take-append-drop,
}
use mqom_rs.Bytes.{filled, length-filled}
use mqom_rs.Params.{mq_n, seed_size, salt_size}
use mqom_rs.Crates.{Crates}
use mqom_rs.Xof.{shake128, length-shake128}
use mqom_rs.Prg.{fill, u16_to_le_bytes}
use mqom_rs.Prg.Stream.{fill_total}
use mqom_rs.Field.Packing.{zero_byte}
use mqom_rs.Field.Gf256x2.Element.{Gf256x2}
use mqom_rs.Field.Gf256x2.Element as Gf256x2
use mqom_rs.Mq.{
  PackedEquation, elements_of, copy_zip, expand_equation, domain, equation_count,
  triangular_element_count, equation_byte_count,
}

ltb-false : (a b : ℕ) → b ≤ a → ltb a b ≡ false
ltb-false a b h = ground arith

length-elements_of : (bytes : List U8) → length (elements_of bytes) ≡ length bytes / 2
unfolding elements_of
length-elements_of [] = refl
length-elements_of (b ∷ []) = refl
length-elements_of (b ∷ (d ∷ rest)) = omega (arith, length-elements_of rest)

-- Copying over a destination of the same length.
copy_zip_all {ℓ} :
    {A : Type ℓ} (destination source : List A)
    → length destination ≡ length source
    → copy_zip destination source ≡ source
unfolding copy_zip
copy_zip_all [] [] e = refl
copy_zip_all [] (s ∷ source) e = absurd (omega arith)
copy_zip_all (d ∷ destination) [] e = absurd (omega arith)
copy_zip_all (d ∷ destination) (s ∷ source) e =
    ap (◌∷◌ s) (copy_zip_all destination source (omega arith))

module _ ⦃c : Crates⦄ where
  -- The seed of equation `i`, and the stream that it expands to.
  abbrev pub equation_seed : List U8 → ℕ → List U8
  equation_seed master_seed i =
      let (low, high) = u16_to_le_bytes i in
      shake128 (domain 0x01 ∷ (master_seed ∷ ((low ∷ high ∷ []) ∷ []))) seed_size

  abbrev pub equation_stream : List U8 → ℕ → List U8
  equation_stream master_seed i =
      (fill (filled salt_size zero_byte) 0 (equation_seed master_seed i)
        (filled equation_byte_count zero_byte)).1

  -- On an index of the profile, `expand_equation` returns an equation: its matrix and its vector
  -- have the sizes of the profile, and together are the elements of the stream, in order.
  pub expand_equation_total :
      (master_seed : List U8) (i : ℕ)
      → i < equation_count
      → (equation : PackedEquation) × (expand_equation master_seed i ≡ some equation)
        × (length equation.quadratic ≡ triangular_element_count)
        × (length equation.linear ≡ mq_n)
        × (equation.quadratic ++ equation.linear ≡ elements_of (equation_stream master_seed i))
  unfolding expand_equation
  expand_equation_total master_seed i h = (
    record { quadratic = quadratic; linear = copied },
    rw (
      lt→ltb i equation_count h,
      expand_equation,
      lt→ltb i (2 ^ 16) (omega arith),
      written.1,
      (==_iff (length quadratic) triangular_element_count).1 length_quadratic,
      (==_iff (length (drop mq_n rest)) 0).1 (omega (arith, length-drop mq_n rest, length_rest)),
    ),
    length_quadratic,
    ap length copied_rest ∙ length_rest,
    ap (◌++◌ quadratic) copied_rest
        ∙ take-append-drop triangular_element_count elements
        ∙ ap (λ r. elements_of r.1) (sym written.1),
  )
    where
      written :
          (out : List U8) × (fill
              (filled salt_size zero_byte)
              0
              (equation_seed master_seed i)
              (filled equation_byte_count zero_byte)
            ≡ (true, out))
          × (length out ≡ length (filled equation_byte_count zero_byte))
      written =
          fill_total (filled salt_size zero_byte) 0 (equation_seed master_seed i)
            (filled equation_byte_count zero_byte) (length-shake128 _ seed_size)
            (omega (arith, length-filled equation_byte_count zero_byte))

      elements : List Gf256x2
      elements = elements_of written.0

      quadratic : List Gf256x2
      quadratic = take triangular_element_count elements

      rest : List Gf256x2
      rest = drop triangular_element_count elements

      copied : List Gf256x2
      copied = copy_zip (filled mq_n Gf256x2.zero) rest

      length_elements : length elements ≡ 1652
      length_elements =
          length-elements_of written.0
          ∙ omega (arith, written.2, length-filled equation_byte_count zero_byte)

      length_quadratic : length quadratic ≡ triangular_element_count
      length_quadratic =
          omega (arith, length-take triangular_element_count elements, length_elements)

      length_rest : length rest ≡ mq_n
      length_rest = omega (arith, length-drop triangular_element_count elements, length_elements)

      copied_rest : copied ≡ rest
      copied_rest =
          copy_zip_all (filled mq_n Gf256x2.zero) rest
            (length-filled mq_n Gf256x2.zero ∙ sym length_rest)

  -- On an index beyond the profile, `expand_equation` returns nothing.
  pub expand_equation-none :
      (master_seed : List U8) (i : ℕ) → equation_count ≤ i → expand_equation master_seed i ≡ none
  unfolding expand_equation
  expand_equation-none master_seed i h = rw (ltb-false i equation_count h, expand_equation)

-- An equation with no coefficients, for the indices beyond the profile.
abbrev pub no_equation : PackedEquation
no_equation = record { quadratic = []; linear = [] }

module _ ⦃c : Crates⦄ where
  -- The equation that `expand_equation` returns.
  unfoldable pub equation_at : List U8 → ℕ → PackedEquation
  equation_at master_seed i = elim (expand_equation master_seed i) [
    | none ↦ no_equation
    | some equation ↦ equation
  ]

  pub expand_equation-some :
      (master_seed : List U8) (i : ℕ)
      → i < equation_count
      → expand_equation master_seed i ≡ some (equation_at master_seed i)
  unfolding equation_at
  expand_equation-some master_seed i h =
      let (equation, e, _, _, _) = expand_equation_total master_seed i h in rw (e, equation_at)

  is_equation_at :
      (master_seed : List U8) (i : ℕ) (equation : PackedEquation)
      → expand_equation master_seed i ≡ some equation
      → equation_at master_seed i ≡ equation
  unfolding equation_at
  is_equation_at master_seed i equation e = rw (e, equation_at)

  pub length-linear :
      (master_seed : List U8) (i : ℕ)
      → i < equation_count
      → length (equation_at master_seed i).linear ≡ mq_n
  length-linear master_seed i h =
      let (equation, e, _, l, _) = expand_equation_total master_seed i h in
      ap (λ (q : PackedEquation). length q.linear) (is_equation_at master_seed i equation e) ∙ l
