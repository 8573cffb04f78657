-- ===== src/Field/Gf16/Embed.antt =====
-- `Gf16::embed`: GF(16) is a subfield of GF(256).
use mqom_rs.Base.{◌≡◌, ◌↔◌, refl, ap, xor_u8, to_u8}
use mqom_rs.Field.Gf16.Rounds.{embed_nibble}
use mqom_rs.Field.Gf16.Table.{embed_nibble-lt, embed_nibble_inj, embed_nibble-xor, embed_nibble-mul}
use mqom_rs.Field.Gf16.Element
use mqom_rs.Field.Gf16.Element.{Gf16}
use mqom_rs.Field.Gf256.Element.{Gf256, new}
use mqom_rs.Field.Gf256.Element as Gf256
use mqom_rs.Field.Gf256.Laws.{Gf256_ext}
use mqom_rs.Field.Gf16.Laws.{Gf16_ext}

unfoldable pub embed : Gf16 → Gf256
embed a = new (record { value = embed_nibble a.value; bounded = embed_nibble-lt a.value a.bounded })

pub embed-add : (a b : Gf16) → embed (Element.add a b) ≡ Gf256.add (embed a) (embed b)
unfolding embed Element.add Gf256.add xor_u8
embed-add a b = Gf256_ext _ _ (embed_nibble-xor a.value b.value a.bounded b.bounded)

pub embed-mul : (a b : Gf16) → embed (Element.mul a b) ≡ Gf256.mul (embed a) (embed b)
unfolding embed Element.mul Gf256.mul
embed-mul a b = Gf256_ext _ _ (embed_nibble-mul a.value b.value a.bounded b.bounded)

pub embed-one : embed Element.one ≡ Gf256.one
unfolding embed Element.one Gf256.one to_u8 embed_nibble
embed-one = Gf256_ext _ _ refl

-- `embed` keeps sums, products and one, and no two elements have one image: the image is a copy of
-- GF(16) inside GF(256).
pub embed_is_subfield :
    (a b : Gf16)
    → (embed (Element.add a b) ≡ Gf256.add (embed a) (embed b))
      × (embed (Element.mul a b) ≡ Gf256.mul (embed a) (embed b))
      × (embed Element.one ≡ Gf256.one)
      × ((embed a ≡ embed b) ↔ (a ≡ b))
unfolding embed
embed_is_subfield a b = (
  embed-add a b,
  embed-mul a b,
  embed-one,
  (
    λ e.
        Gf16_ext a b (
          embed_nibble_inj a.value b.value a.bounded b.bounded
            (ap (λ (x : Gf256). x.byte.value) e)),
    ap embed,
  ),
)
