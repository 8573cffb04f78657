-- ===== src/Blc/Line/Adjusted.antt =====
-- The adjusted base vector: the partial delta restores the secret vector, up to the hidden leaf.
use mqom_rs.Base.{
  ◌≡◌, sym, ap, ap₂, ◌∙◌, arith, U8, List, ◌++◌, length, take, drop, slice, length-take,
  length-drop, take-take, drop-take, take-append-drop,
}
use mqom_rs.Bytes.{
  xor_zip, length-xor_zip, xor_zip_cancel, xor_zip_comm, xor_zip_assoc, take-xor_zip, drop-xor_zip,
}
use mqom_rs.Params.{seed_size}
use mqom_rs.Blc.{base_vector_size, expanded_leaf_size}
use mqom_rs.Blc.Tree.Sum.{pair_sum}

three_sum :
    (d e t : List U8)
    → length d ≡ length e
    → length t ≡ length d
    → xor_zip (xor_zip d e) (xor_zip t d) ≡ xor_zip t e
three_sum d e t p q =
    xor_zip_comm (xor_zip d e) (xor_zip t d) (length-xor_zip d e ∙ sym q ∙ sym (length-xor_zip t d))
    ∙ xor_zip_assoc t d (xor_zip d e) (sym (length-xor_zip d e))
    ∙ ap (xor_zip t) (pair_sum d e p)

-- For the accumulator of `commit`, with and without the hidden leaf, where its seed part is that of the
-- serialized secret.
pub adjusted_bytes :
    (serialized accumulator shown taken : List U8)
    → length serialized ≡ base_vector_size
    → length shown ≡ expanded_leaf_size
    → length taken ≡ expanded_leaf_size
    → accumulator ≡ xor_zip shown taken
    → take seed_size accumulator ≡ take seed_size serialized
    → take seed_size (take base_vector_size shown)
        ++ xor_zip
            (drop seed_size (take base_vector_size shown))
            (xor_zip (drop seed_size serialized) (slice seed_size base_vector_size accumulator))
      ≡ xor_zip serialized (take base_vector_size taken)
adjusted_bytes serialized accumulator shown taken es eh et sum seeds =
    ap₂ ◌++◌ low high ∙ take-append-drop seed_size whole
  where
    base : List U8 → List U8
    base a = take base_vector_size a

    whole : List U8
    whole = xor_zip serialized (base taken)

    total : base accumulator ≡ xor_zip (base shown) (base taken)
    total = ap base sum ∙ take-xor_zip base_vector_size shown taken

    without : base shown ≡ xor_zip (base accumulator) (base taken)
    without =
        sym (xor_zip_cancel (base shown) (base taken))
        ∙ ap (λ t. xor_zip t (base taken)) (sym total)

    sizes : (length (base accumulator) ≡ 28) × (length (base taken) ≡ 28)
    sizes = (
      ap length total
          ∙ length-xor_zip (base shown) (base taken)
          ∙ omega (arith, length-take base_vector_size shown, eh),
      omega (arith, length-take base_vector_size taken, et),
    )

    low : take seed_size (base shown) ≡ take seed_size whole
    low =
        ap (take seed_size) without
        ∙ take-xor_zip seed_size (base accumulator) (base taken)
        ∙ ap (λ t. xor_zip t (take seed_size (base taken)))
            (take-take seed_size base_vector_size accumulator (omega arith) ∙ seeds)
        ∙ sym (take-xor_zip seed_size serialized (base taken))

    high :
        xor_zip
          (drop seed_size (base shown))
          (xor_zip (drop seed_size serialized) (slice seed_size base_vector_size accumulator))
        ≡ drop seed_size whole
    high =
        ap₂ xor_zip
          (ap (drop seed_size) without ∙ drop-xor_zip seed_size (base accumulator) (base taken))
          (ap (xor_zip (drop seed_size serialized)) (sym (drop-take 16 12 accumulator)))
        ∙ three_sum (drop seed_size (base accumulator)) (drop seed_size (base taken))
            (drop seed_size serialized)
            (omega (
              arith,
              sizes,
              length-drop seed_size (base accumulator),
              length-drop seed_size (base taken),
            ))
            (omega (
              arith,
              sizes,
              es,
              length-drop seed_size (base accumulator),
              length-drop seed_size serialized,
            ))
        ∙ sym (drop-xor_zip seed_size serialized (base taken))
