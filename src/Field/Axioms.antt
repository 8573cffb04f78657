-- ===== src/Field/Axioms.antt =====
-- The three fields of src/field.rs are fields of characteristic two.
use mqom_rs.Base.{◌≡◌, ◌≢◌, ◌↔◌}
use mqom_rs.Field.Ring.{RingLaws, inverse_unique}
use mqom_rs.Field.Gf16.Element.{Gf16}
use mqom_rs.Field.Gf16.Element as Gf16
use mqom_rs.Field.Gf16.Laws as Gf16Laws
use mqom_rs.Field.Gf256.Element.{Gf256}
use mqom_rs.Field.Gf256.Element as Gf256
use mqom_rs.Field.Gf256.Laws as Gf256Laws
use mqom_rs.Field.Gf256.Inverse as Gf256Inverse
use mqom_rs.Field.Gf256x2.Element.{Gf256x2}
use mqom_rs.Field.Gf256x2.Element as Gf256x2
use mqom_rs.Field.Gf256x2.Product as Gf256x2Product
use mqom_rs.Field.Gf256x2.Laws as Gf256x2Laws
use mqom_rs.Field.Gf256x2.Inverse as Gf256x2Inverse

-- The operations of `Gf16` obey the laws of a commutative ring of characteristic two: addition and
-- multiplication are associative and commutative with units zero and one, multiplication
-- distributes over addition, every element added to itself is zero, subtraction is addition and undoes
-- it, and the inverse of zero is zero.
pub gf16_laws :
    (a b c : Gf16) → RingLaws Gf16.zero Gf16.one Gf16.add Gf16.sub Gf16.mul Gf16.invert a b c
gf16_laws a b c = (
  Gf16Laws.add_assoc a b c,
  Gf16Laws.add_comm a b,
  Gf16Laws.add-zero a,
  Gf16Laws.add_self a,
  Gf16Laws.sub_lem a b,
  Gf16Laws.sub-add a b,
  Gf16Laws.mul_assoc a b c,
  Gf16Laws.mul_comm a b,
  Gf16Laws.mul-one a,
  Gf16Laws.mul-add a b c,
  Gf16Laws.invert-zero,
)

-- The operations of `Gf256` obey the laws of a commutative ring of characteristic two: addition and
-- multiplication are associative and commutative with units zero and one, multiplication distributes
-- over addition, every element added to itself is zero, subtraction is addition and undoes it, and the
-- inverse of zero is zero.
pub gf256_laws :
    (a b c : Gf256)
    → RingLaws Gf256.zero Gf256.one Gf256.add Gf256.sub Gf256.mul Gf256Inverse.invert a b c
gf256_laws a b c = (
  Gf256Laws.add_assoc a b c,
  Gf256Laws.add_comm a b,
  Gf256Laws.add-zero a,
  Gf256Laws.add_self a,
  Gf256Laws.sub_lem a b,
  Gf256Laws.sub-add a b,
  Gf256Laws.mul_assoc a b c,
  Gf256Laws.mul_comm a b,
  Gf256Laws.mul-one a,
  Gf256Laws.mul-add a b c,
  Gf256Inverse.invert-zero,
)

-- The operations of `Gf256x2` obey the laws of a commutative ring of characteristic two: addition and
-- multiplication are associative and commutative with units zero and one, multiplication distributes
-- over addition, every element added to itself is zero, subtraction is addition and undoes it, and the
-- inverse of zero is zero.
pub gf256x2_laws :
    (a b c : Gf256x2)
    → RingLaws Gf256x2.zero Gf256x2.one Gf256x2.add Gf256x2.sub Gf256x2.mul Gf256x2Inverse.invert a
        b c
gf256x2_laws a b c = (
  Gf256x2Laws.add_assoc a b c,
  Gf256x2Laws.add_comm a b,
  Gf256x2Laws.add-zero a,
  Gf256x2Laws.add_self a,
  Gf256x2Laws.sub_lem a b,
  Gf256x2Laws.sub-add a b,
  Gf256x2Laws.mul_assoc a b c,
  Gf256x2Product.mul_comm a b,
  Gf256x2Laws.mul-one a,
  Gf256x2Product.mul-add a b c,
  Gf256x2Inverse.invert-zero,
)

-- At a nonzero element of `Gf16`, `invert` gives the one element whose product with it is one.
pub gf16_invert_iff : (a b : Gf16) → a ≢ Gf16.zero → (Gf16.mul a b ≡ Gf16.one) ↔ (b ≡ Gf16.invert a)
gf16_invert_iff a b h =
    inverse_unique ⦃r = Gf16Laws.gf16_ring⦄ a (Gf16.invert a) b (Gf16Laws.mul-invert a h)

-- At a nonzero element of `Gf256`, `invert` gives the one element whose product with it is one.
pub gf256_invert_iff :
    (a b : Gf256) → a ≢ Gf256.zero → (Gf256.mul a b ≡ Gf256.one) ↔ (b ≡ Gf256Inverse.invert a)
gf256_invert_iff a b h =
    inverse_unique ⦃r = Gf256Laws.gf256_ring⦄ a (Gf256Inverse.invert a) b
      (Gf256Inverse.mul-invert a h)

-- At a nonzero element of `Gf256x2`, `invert` gives the one element whose product with it is one.
pub gf256x2_invert_iff :
    (a b : Gf256x2)
    → a ≢ Gf256x2.zero
    → (Gf256x2.mul a b ≡ Gf256x2.one) ↔ (b ≡ Gf256x2Inverse.invert a)
gf256x2_invert_iff a b h =
    inverse_unique ⦃r = Gf256x2Laws.gf256x2_ring⦄ a (Gf256x2Inverse.invert a) b
      (Gf256x2Inverse.mul-invert a h)
