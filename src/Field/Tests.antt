-- ===== src/Field/Tests.antt =====
-- The theorems of src/field.rs at concrete elements.
use mqom_rs.Base.{ℕ, ◌≡◌, ◌≢◌, ◌↔◌, refl, ap, arith, true, U8, to_u8, List, [], ◌∷◌}
use mqom_rs.Field.Ring.{RingLaws}
use mqom_rs.Field.Axioms.{gf16_laws, gf256_laws, gf256x2_laws, gf256_invert_iff, gf256x2_invert_iff}
use mqom_rs.Field.Gf16.Element.{Gf16}
use mqom_rs.Field.Gf16.Element as Gf16
use mqom_rs.Field.Gf16.Embed.{embed, embed_is_subfield}
use mqom_rs.Field.Gf256.Element.{Gf256}
use mqom_rs.Field.Gf256.Element as Gf256
use mqom_rs.Field.Gf256.Inverse as Gf256Inverse
use mqom_rs.Field.Gf256x2.Element.{Gf256x2, scale, scale_right}
use mqom_rs.Field.Gf256x2.Element as Gf256x2
use mqom_rs.Field.Gf256x2.Inverse as Gf256x2Inverse
use mqom_rs.Field.Gf256x2.Lift.{scale_laws}
use mqom_rs.Field.Packing.{unpack_gf16, pack_gf16, zero_byte}
use mqom_rs.Field.Packing.RoundTrip.{unpack_gf16-pack_gf16, pack_gf16-unpack_gf16}

abbrev seven : Gf16
seven = record { value = 7; bounded = omega arith }

abbrev nine : Gf16
nine = record { value = 9; bounded = omega arith }

abbrev byte : ℕ → U8
byte n = to_u8 n

abbrev fifty_three : Gf256
fifty_three = Gf256.new (record { value = 0x53; bounded = omega arith })

abbrev ca : Gf256
ca = Gf256.new (record { value = 0xca; bounded = omega arith })

abbrev mixed : Gf256x2
mixed = Gf256x2.new ca fifty_three

fifty_three-nonzero : fifty_three ≢ Gf256.zero
unfolding Gf256.zero to_u8
fifty_three-nonzero e = absurd (omega (arith, ap (λ (x : Gf256). x.byte.value) e))

mixed-nonzero : mixed ≢ Gf256x2.zero
unfolding Gf256.zero to_u8
mixed-nonzero e = absurd (omega (arith, ap (λ (x : Gf256x2). x.c1.byte.value) e))

gf16_laws_example :
    RingLaws Gf16.zero Gf16.one Gf16.add Gf16.sub Gf16.mul Gf16.invert seven nine seven
gf16_laws_example = gf16_laws seven nine seven

gf256_laws_example :
    RingLaws Gf256.zero Gf256.one Gf256.add Gf256.sub Gf256.mul Gf256Inverse.invert fifty_three ca
      ca
gf256_laws_example = gf256_laws fifty_three ca ca

gf256x2_laws_example :
    RingLaws Gf256x2.zero Gf256x2.one Gf256x2.add Gf256x2.sub Gf256x2.mul Gf256x2Inverse.invert
      mixed mixed Gf256x2.one
gf256x2_laws_example = gf256x2_laws mixed mixed Gf256x2.one

gf256_invert_iff_example :
    (Gf256.mul fifty_three ca ≡ Gf256.one) ↔ (ca ≡ Gf256Inverse.invert fifty_three)
gf256_invert_iff_example = gf256_invert_iff fifty_three ca fifty_three-nonzero

gf256x2_invert_iff_example :
    (Gf256x2.mul mixed mixed ≡ Gf256x2.one) ↔ (mixed ≡ Gf256x2Inverse.invert mixed)
gf256x2_invert_iff_example = gf256x2_invert_iff mixed mixed mixed-nonzero

embed_is_subfield_example :
    (embed (Gf16.add seven nine) ≡ Gf256.add (embed seven) (embed nine))
    × (embed (Gf16.mul seven nine) ≡ Gf256.mul (embed seven) (embed nine))
    × (embed Gf16.one ≡ Gf256.one)
    × ((embed seven ≡ embed nine) ↔ (seven ≡ nine))
embed_is_subfield_example = embed_is_subfield seven nine

scale_laws_example :
    (scale_right mixed seven ≡ scale seven mixed)
    × (scale (Gf16.mul seven nine) mixed ≡ scale seven (scale nine mixed))
    × (scale (Gf16.add seven nine) mixed ≡ Gf256x2.add (scale seven mixed) (scale nine mixed))
    × (scale seven (Gf256x2.add mixed mixed) ≡ Gf256x2.add (scale seven mixed) (scale seven mixed))
    × (scale Gf16.one mixed ≡ mixed)
scale_laws_example = scale_laws seven nine mixed mixed

abbrev three_elements : List Gf16
three_elements = seven ∷ nine ∷ seven ∷ []

abbrev two_bytes : List U8
two_bytes = byte 0x97 ∷ byte 0x21 ∷ []

abbrev four_elements : List Gf16
four_elements = seven ∷ nine ∷ seven ∷ nine ∷ []

unpack_gf16-pack_gf16_example :
    ((pack_gf16 three_elements two_bytes).0 ≡ true)
    × (unpack_gf16 (pack_gf16 three_elements two_bytes).1 (nine ∷ nine ∷ nine ∷ [])
        ≡ (true, three_elements))
unpack_gf16-pack_gf16_example =
    unpack_gf16-pack_gf16 three_elements two_bytes (nine ∷ nine ∷ nine ∷ []) (omega arith) refl refl

pack_gf16-unpack_gf16_example :
    ((unpack_gf16 two_bytes four_elements).0 ≡ true)
    × (pack_gf16 (unpack_gf16 two_bytes four_elements).1 (zero_byte ∷ zero_byte ∷ [])
        ≡ (true, two_bytes))
pack_gf16-unpack_gf16_example =
    pack_gf16-unpack_gf16 two_bytes (zero_byte ∷ zero_byte ∷ []) four_elements (omega arith) refl
      refl
