-- ===== src/Field/Packing/Laws.antt =====
-- Packing and unpacking: what the loops compute, and the round trips.
use mqom_rs.Base.{
  ℕ, suc, ◌+◌, ◌*◌, ◌/◌, ◌%◌, ◌^◌, ◌<◌, bit_and, bit_or, ◌<<<◌, u8, U8, U8_ext, to_u8, some, List,
  [], ◌∷◌, ◌++◌, length, replicate, true, arith, ◌≡◌, refl, sym, ap, ap₂, ◌∙◌, and_mask, all_below,
  agree_below₂, lt→ltb, ==_iff, get_or-append, set-append, length-append,
}
use mathlib.Core.List.{append_assoc}
use mqom_rs.Field.Gf16.Element.{Gf16}
use mqom_rs.Field.Gf16.Element as Gf16
use mqom_rs.Field.Gf16.Laws.{Gf16_ext}
use mqom_rs.Field.Gf16.Rounds.{low_nibble}
use mqom_rs.Field.Packing.{
  zero_byte, nibble_at, unpack_loop, unpack_gf16, put_nibble, pack_loop, pack_gf16, checked_add,
}

-- A byte of two nibbles, the first one low.
abbrev pub join : Gf16 → Gf16 → U8
join x y = to_u8 (x.value + 16 * y.value)

-- What `pack_gf16` writes, two elements at a time; a last odd element leaves its high nibble zero.
abbrev pub packed : List Gf16 → List U8
packed [] = []
packed (x ∷ []) = join x Gf16.zero ∷ []
packed (x ∷ (y ∷ rest)) = join x y ∷ packed rest

-- The two nibbles of a byte.
abbrev pub low_half : U8 → Gf16
low_half b = record { value = b.value % 16; bounded = omega arith }

abbrev pub high_half : U8 → Gf16
high_half b = record { value = b.value / 16; bounded = (let h = b.bounded in omega arith) }

parity_even : (n : ℕ) → bit_and (n + n) 1 ≡ 0
parity_even n = and_mask 1 (n + n) ∙ (omega arith)

parity_odd : (n : ℕ) → bit_and (n + n + 1) 1 ≡ 1
parity_odd n = and_mask 1 (n + n + 1) ∙ (omega arith)

half_even : (n : ℕ) → (n + n) / 2 ≡ n
half_even n = omega arith

half_odd : (n : ℕ) → (n + n + 1) / 2 ≡ n
half_odd n = omega arith

or_low : (x : ℕ) → x < 16 → bit_or 0 (u8 (x <<< 0)) % 256 ≡ x
unfolding all_below
or_low x h =
    agree_below₂ 1 16 (λ a b. bit_or a (u8 (b <<< 0)) % 256) (λ a b. b) 0 x refl (omega arith) h

or_high : (x y : ℕ) → x < 16 → y < 16 → bit_or x (u8 (y <<< 4)) % 256 ≡ (x + 16 * y) % 256
unfolding all_below
or_high x y hx hy =
    agree_below₂ 16 16 (λ a b. bit_or a (u8 (b <<< 4)) % 256) (λ a b. (a + 16 * b) % 256) x y refl
      hx hy

put_low :
    (done rest : List U8) (x : Gf16)
    → put_nibble (done ++ zero_byte ∷ rest) (length done + length done) x
      ≡ done ++ join x Gf16.zero ∷ rest
unfolding put_nibble to_u8 Gf16.zero
put_low done rest x =
    rw
      (
        parity_even (length done),
        half_even (length done),
        get_or-append done zero_byte rest zero_byte,
      )
      (set-append done zero_byte rest _
        ∙ ap (λ b. done ++ b ∷ rest)
            (U8_ext _ _ (or_low x.value x.bounded ∙ (let h = x.bounded in omega arith))))

put_high :
    (done rest : List U8) (x y : Gf16)
    → put_nibble (done ++ join x Gf16.zero ∷ rest) (length done + length done + 1) y
      ≡ done ++ join x y ∷ rest
unfolding put_nibble to_u8 Gf16.zero
put_high done rest x y =
    rw
      (
        parity_odd (length done),
        half_odd (length done),
        get_or-append done (join x Gf16.zero) rest zero_byte,
      )
      (set-append done (join x Gf16.zero) rest _
        ∙ ap (λ b. done ++ b ∷ rest)
            (U8_ext _ _ (
              ap (λ t. bit_or t (u8 (y.value <<< 4)) % 256) {x = (x.value + 16 * 0) % 256}
                {y = x.value} (let h = x.bounded in omega arith)
              ∙ or_high x.value y.value x.bounded y.bounded)))

-- The next pair starts two further on.
following_index :
    (done : List U8) (b : U8)
    → length (done ++ b ∷ []) + length (done ++ b ∷ []) ≡ length done + length done + 1 + 1
following_index done b = omega (arith, length-append done (b ∷ []))

pack_loop-packed :
    (elements : List Gf16) (done : List U8)
    → pack_loop elements
        (length done + length done)
        (done ++ replicate ((length elements + 1) / 2) zero_byte)
      ≡ done ++ packed elements
unfolding pack_loop
pack_loop-packed [] done = refl
pack_loop-packed (x ∷ []) done = put_low done [] x
pack_loop-packed (x ∷ (y ∷ rest)) done =
    let more : (length (x ∷ y ∷ rest) + 1) / 2 ≡ suc ((length rest + 1) / 2) = omega arith in
    let zeros = replicate ((length rest + 1) / 2) zero_byte in
    rw (more, put_low done zeros x, put_high done zeros x y, sym (following_index done (join x y)))
      (ap (pack_loop rest _) (sym (append_assoc done (join x y ∷ []) zeros))
        ∙ pack_loop-packed rest (done ++ join x y ∷ [])
        ∙ append_assoc done (join x y ∷ []) (packed rest))

nibble_at-low :
    (done rest : List U8) (b : U8)
    → nibble_at (done ++ b ∷ rest) (length done + length done) ≡ low_half b
unfolding nibble_at Gf16.new to_u8 low_nibble
nibble_at-low done rest b =
    rw (parity_even (length done), half_even (length done), get_or-append done b rest zero_byte)
      (Gf16_ext _ _ (and_mask 4 (b.value / 1 % 256) ∙ (let h = b.bounded in omega arith)))

nibble_at-high :
    (done rest : List U8) (b : U8)
    → nibble_at (done ++ b ∷ rest) (length done + length done + 1) ≡ high_half b
unfolding nibble_at Gf16.new to_u8 low_nibble
nibble_at-high done rest b =
    rw (parity_odd (length done), half_odd (length done), get_or-append done b rest zero_byte)
      (Gf16_ext _ _ (and_mask 4 (b.value / 16 % 256) ∙ (let h = b.bounded in omega arith)))

low_half-join : (x y : Gf16) → low_half (join x y) ≡ x
unfolding to_u8
low_half-join x y = Gf16_ext _ _ (let h = x.bounded in let k = y.bounded in omega arith)

high_half-join : (x y : Gf16) → high_half (join x y) ≡ y
unfolding to_u8
high_half-join x y = Gf16_ext _ _ (let h = x.bounded in let k = y.bounded in omega arith)

join-halves : (b : U8) → join (low_half b) (high_half b) ≡ b
unfolding to_u8
join-halves b = U8_ext _ _ (let h = b.bounded in omega arith)

abbrev pub halves : List U8 → List Gf16
halves [] = []
halves (b ∷ bytes) = low_half b ∷ (high_half b ∷ halves bytes)

pub packed-halves : (bytes : List U8) → packed (halves bytes) ≡ bytes
packed-halves [] = refl
packed-halves (b ∷ bytes) = ap₂ ◌∷◌ (join-halves b) (packed-halves bytes)

unpack_loop-halves :
    (bytes : List U8) (output : List Gf16) (done : List U8)
    → length output ≡ length bytes + length bytes
    → unpack_loop (done ++ bytes) (length done + length done) output ≡ halves bytes
unfolding unpack_loop
unpack_loop-halves [] [] done e = refl
unpack_loop-halves [] (o ∷ output) done e = absurd (omega arith)
unpack_loop-halves (b ∷ bytes) [] done e = absurd (omega arith)
unpack_loop-halves (b ∷ bytes) (o ∷ []) done e = absurd (omega arith)
unpack_loop-halves (b ∷ bytes) (o ∷ (p ∷ output)) done e = ap₂ ◌∷◌ (nibble_at-low done bytes b) (
    ap₂ ◌∷◌ (nibble_at-high done bytes b) (
      rw (sym (following_index done b)) (
        ap (λ l. unpack_loop l (length (done ++ b ∷ []) + length (done ++ b ∷ [])) output)
          (sym (append_assoc done (b ∷ []) bytes))
        ∙ unpack_loop-halves bytes output (done ++ b ∷ []) (omega arith))))

unpack_loop-packed :
    (elements output : List Gf16) (done : List U8)
    → length output ≡ length elements
    → unpack_loop (done ++ packed elements) (length done + length done) output ≡ elements
unfolding unpack_loop
unpack_loop-packed [] [] done e = refl
unpack_loop-packed [] (o ∷ output) done e = absurd (omega arith)
unpack_loop-packed (x ∷ _) [] done e = absurd (omega arith)
unpack_loop-packed (x ∷ []) (o ∷ []) done e =
    ap (λ t. t ∷ []) (nibble_at-low done [] (join x Gf16.zero) ∙ low_half-join x Gf16.zero)
unpack_loop-packed (x ∷ []) (o ∷ (p ∷ output)) done e = absurd (omega arith)
unpack_loop-packed (x ∷ (y ∷ rest)) (o ∷ []) done e = absurd (omega arith)
unpack_loop-packed (x ∷ (y ∷ rest)) (o ∷ (p ∷ output)) done e =
    ap₂ ◌∷◌ (nibble_at-low done (packed rest) (join x y) ∙ low_half-join x y) (
      ap₂ ◌∷◌ (nibble_at-high done (packed rest) (join x y) ∙ high_half-join x y) (
        rw (sym (following_index done (join x y))) (
          ap
            (λ l.
              unpack_loop l (length (done ++ join x y ∷ []) + length (done ++ join x y ∷ []))
                output)
            (sym (append_assoc done (join x y ∷ []) (packed rest)))
          ∙ unpack_loop-packed rest output (done ++ join x y ∷ []) (omega arith))))

pub length-packed : (elements : List Gf16) → length (packed elements) ≡ (length elements + 1) / 2
length-packed [] = refl
length-packed (x ∷ []) = refl
length-packed (x ∷ (y ∷ rest)) = omega (arith, length-packed rest)

pub length-halves : (bytes : List U8) → length (halves bytes) ≡ length bytes + length bytes
length-halves [] = refl
length-halves (b ∷ bytes) = omega (arith, length-halves bytes)

-- The guard of both functions.
checked_add_one : (n : ℕ) → n + 1 < 2 ^ 64 → checked_add n 1 ≡ some (n + 1)
checked_add_one n h = rw (lt→ltb (n + 1) (2 ^ 64) h)

pub pack_gf16-eq_packed :
    (elements : List Gf16) (output : List U8)
    → length elements + 1 < 2 ^ 64
    → length output ≡ (length elements + 1) / 2
    → pack_gf16 elements output ≡ (true, packed elements)
unfolding pack_gf16
pack_gf16-eq_packed elements output fits e =
    rw
      (
        checked_add_one (length elements) fits,
        pack_gf16,
        (==_iff (length output) ((length elements + 1) / 2)).1 e,
        e,
      )
      (ap (λ l. (true, l)) (pack_loop-packed elements []))

pub unpack_gf16-packed :
    (elements output : List Gf16)
    → length output + 1 < 2 ^ 64
    → length output ≡ length elements
    → unpack_gf16 (packed elements) output ≡ (true, elements)
unfolding unpack_gf16
unpack_gf16-packed elements output fits e =
    rw
      (
        checked_add_one (length output) fits,
        unpack_gf16,
        (==_iff (length (packed elements)) ((length output + 1) / 2)).1
            (length-packed elements ∙ ap (λ n. (n + 1) / 2) (sym e)),
      )
      (ap (λ l. (true, l)) (unpack_loop-packed elements output [] e))

pub unpack_gf16-eq_halves :
    (bytes : List U8) (output : List Gf16)
    → length output + 1 < 2 ^ 64
    → length output ≡ length bytes + length bytes
    → unpack_gf16 bytes output ≡ (true, halves bytes)
unfolding unpack_gf16
unpack_gf16-eq_halves bytes output fits e =
    rw
      (
        checked_add_one (length output) fits,
        unpack_gf16,
        (==_iff (length bytes) ((length output + 1) / 2)).1 (omega arith),
      )
      (ap (λ l. (true, l)) (unpack_loop-halves bytes output [] e))
