-- ===== src/Field/Gf256x2/Lift.antt =====
-- GF(16) inside GF(256^2): `scale` is multiplication by the embedded scalar.
use mqom_rs.Base.{◌≡◌, sym, ap, ap₂, ◌∙◌}
use mqom_rs.Field.Ring.{◌⊕◌, ◌⊗◌, add-mul, one-mul}
use mqom_rs.Field.Gf16.Element.{Gf16}
use mqom_rs.Field.Gf16.Element as Gf16
use mqom_rs.Field.Gf16.Embed.{embed, embed-add, embed-mul, embed-one}
use mqom_rs.Field.Gf256.Element as Gf256
use mqom_rs.Field.Gf256.Laws as Coefficient
use mqom_rs.Field.Gf256x2.Element.{Gf256x2, new, add, mul, one, scale, scale_right}
use mqom_rs.Field.Gf256x2.Product.{low, low-mul, low-low, mul_comm}
use mqom_rs.Field.Gf256x2.Laws.{gf256x2_ring}

unfoldable pub lift : Gf16 → Gf256x2
lift a = low (embed a)

pub scale-eq_mul : (s : Gf16) (a : Gf256x2) → scale s a ≡ lift s ⊗ a
unfolding scale lift
scale-eq_mul s a = sym (low-mul (embed s) a)

pub scale_right-eq_mul : (a : Gf256x2) (s : Gf16) → scale_right a s ≡ a ⊗ lift s
unfolding scale_right
scale_right-eq_mul a s = scale-eq_mul s a ∙ mul_comm (lift s) a

pub lift-add : (a b : Gf16) → lift (Gf16.add a b) ≡ lift a ⊕ lift b
unfolding lift add
lift-add a b = ap₂ new (embed-add a b) (sym (Coefficient.add-zero Gf256.zero))

pub lift-mul : (a b : Gf16) → lift (Gf16.mul a b) ≡ lift a ⊗ lift b
unfolding lift
lift-mul a b = ap low (embed-mul a b) ∙ sym (low-low (embed a) (embed b))

pub lift-one : lift Gf16.one ≡ one
unfolding lift
lift-one = ap low embed-one

-- Scaling by elements of GF(16), on either side, makes `Gf256x2` a vector space over GF(16).
pub scale_laws :
    (s t : Gf16) (a b : Gf256x2)
    → (scale_right a s ≡ scale s a)
      × (scale (Gf16.mul s t) a ≡ scale s (scale t a))
      × (scale (Gf16.add s t) a ≡ add (scale s a) (scale t a))
      × (scale s (add a b) ≡ add (scale s a) (scale s b))
      × (scale Gf16.one a ≡ a)
scale_laws s t a b = (
  scale_right-eq_mul a s ∙ mul_comm a (lift s) ∙ sym (scale-eq_mul s a),
  scale-eq_mul (Gf16.mul s t) a
      ∙ ap (λ l. l ⊗ a) (lift-mul s t)
      ∙ gf256x2_ring.mul_assoc (lift s) (lift t) a
      ∙ sym (scale-eq_mul s (scale t a) ∙ ap (mul (lift s)) (scale-eq_mul t a)),
  scale-eq_mul (Gf16.add s t) a
      ∙ ap (λ l. l ⊗ a) (lift-add s t)
      ∙ add-mul (lift s) (lift t) a
      ∙ sym (ap₂ add (scale-eq_mul s a) (scale-eq_mul t a)),
  scale-eq_mul s (add a b)
      ∙ gf256x2_ring.mul-add (lift s) a b
      ∙ sym (ap₂ add (scale-eq_mul s a) (scale-eq_mul s b)),
  scale-eq_mul Gf16.one a ∙ ap (λ l. l ⊗ a) lift-one ∙ one-mul a,
)
