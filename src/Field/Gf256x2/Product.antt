-- ===== src/Field/Gf256x2/Product.antt =====
-- Products in GF(256^2) of elements with one coefficient, and additivity in each factor.
use mqom_rs.Base.{◌≡◌, sym, ap, ap₂, ◌∙◌}
use mqom_rs.Field.Ring.{
  ◌⊕◌, ◌⊗◌, zero-add, add-mul, mul-zero, zero-mul, add_interchange, add_cancel,
}
use mqom_rs.Field.Gf256.Element.{Gf256}
use mqom_rs.Field.Gf256.Element as Gf256
use mqom_rs.Field.Gf256.Laws as Coefficient
use mqom_rs.Field.Gf256.Laws.{gf256_ring}
use mqom_rs.Field.Gf256x2.Element.{Gf256x2, new, add, mul, thirty_two}

abbrev pub low : Gf256 → Gf256x2
low x = new x Gf256.zero

abbrev pub high : Gf256 → Gf256x2
high x = new Gf256.zero x

pub ruleset trivial = (mul-zero, zero-mul, zero-add, Coefficient.add-zero, Coefficient.add_self)

pub low-low : (x y : Gf256) → mul (low x) (low y) ≡ low (x ⊗ y)
unfolding mul
low-low x y = simp trivial

pub low-high : (x y : Gf256) → mul (low x) (high y) ≡ high (x ⊗ y)
unfolding mul
low-high x y = simp trivial

pub high-high : (x y : Gf256) → mul (high x) (high y) ≡ new (x ⊗ y ⊗ thirty_two) (x ⊗ y)
unfolding mul
high-high x y = simp trivial

pub low-mul : (x : Gf256) (a : Gf256x2) → mul (low x) a ≡ new (x ⊗ a.c0) (x ⊗ a.c1)
unfolding mul
low-mul x a = simp (trivial, Coefficient.mul-add, add_cancel)

pub mul-low : (a : Gf256x2) (x : Gf256) → mul a (low x) ≡ new (a.c0 ⊗ x) (a.c1 ⊗ x)
unfolding mul
mul-low a x = simp (trivial, add-mul, add_cancel)

pub high-mul :
    (x : Gf256) (a : Gf256x2) → mul (high x) a ≡ new (x ⊗ a.c1 ⊗ thirty_two) (x ⊗ a.c0 ⊕ x ⊗ a.c1)
unfolding mul
high-mul x a = simp (trivial, Coefficient.mul-add)

pub mul-high :
    (a : Gf256x2) (x : Gf256) → mul a (high x) ≡ new (a.c1 ⊗ x ⊗ thirty_two) (a.c0 ⊗ x ⊕ a.c1 ⊗ x)
unfolding mul
mul-high a x = simp (trivial, add-mul)

pub mul_comm : (a b : Gf256x2) → mul a b ≡ mul b a
unfolding mul
mul_comm a b = simp (
  gf256_ring.mul_comm a.c1 b.c1,
  gf256_ring.mul_comm a.c0 b.c0,
  gf256_ring.mul_comm (a.c0 ⊕ a.c1) (b.c0 ⊕ b.c1),
)

pub mul-add : (a b c : Gf256x2) → mul a (add b c) ≡ add (mul a b) (mul a c)
unfolding mul add
mul-add a b c = ap₂ new first second
  where
    first :
        a.c0 ⊗ (b.c0 ⊕ c.c0) ⊕ a.c1 ⊗ (b.c1 ⊕ c.c1) ⊗ thirty_two
        ≡ (a.c0 ⊗ b.c0 ⊕ a.c1 ⊗ b.c1 ⊗ thirty_two) ⊕ (a.c0 ⊗ c.c0 ⊕ a.c1 ⊗ c.c1 ⊗ thirty_two)
    first =
        rw
          (
            gf256_ring.mul-add a.c0 b.c0 c.c0,
            gf256_ring.mul-add a.c1 b.c1 c.c1,
            add-mul (a.c1 ⊗ b.c1) (a.c1 ⊗ c.c1) thirty_two,
          )
          (add_interchange (a.c0 ⊗ b.c0) (a.c0 ⊗ c.c0) (a.c1 ⊗ b.c1 ⊗ thirty_two)
            (a.c1 ⊗ c.c1 ⊗ thirty_two))

    second :
        a.c0 ⊗ (b.c0 ⊕ c.c0) ⊕ (a.c0 ⊕ a.c1) ⊗ ((b.c0 ⊕ c.c0) ⊕ (b.c1 ⊕ c.c1))
        ≡ (a.c0 ⊗ b.c0 ⊕ (a.c0 ⊕ a.c1) ⊗ (b.c0 ⊕ b.c1))
          ⊕ (a.c0 ⊗ c.c0 ⊕ (a.c0 ⊕ a.c1) ⊗ (c.c0 ⊕ c.c1))
    second =
        rw
          (
            add_interchange b.c0 c.c0 b.c1 c.c1,
            gf256_ring.mul-add a.c0 b.c0 c.c0,
            gf256_ring.mul-add (a.c0 ⊕ a.c1) (b.c0 ⊕ b.c1) (c.c0 ⊕ c.c1),
          )
          (add_interchange (a.c0 ⊗ b.c0) (a.c0 ⊗ c.c0) ((a.c0 ⊕ a.c1) ⊗ (b.c0 ⊕ b.c1))
            ((a.c0 ⊕ a.c1) ⊗ (c.c0 ⊕ c.c1)))

pub add-mul_lem : (a b c : Gf256x2) → mul (add a b) c ≡ add (mul a c) (mul b c)
add-mul_lem a b c = mul_comm (add a b) c ∙ mul-add c a b ∙ ap₂ add (mul_comm c a) (mul_comm c b)

pub split : (a : Gf256x2) → a ≡ add (low a.c0) (high a.c1)
unfolding add
split a = ap₂ new (sym (gf256_ring.add-zero a.c0)) (sym (zero-add a.c1))

-- An additive function is determined by its values at one-coefficient elements.
abbrev pub IsAdditive : (Gf256x2 → Gf256x2) → Type 0
IsAdditive f = (x y : Gf256x2) → f (add x y) ≡ add (f x) (f y)

pub by_parts :
    (f g : Gf256x2 → Gf256x2)
    → IsAdditive f
    → IsAdditive g
    → ((x : Gf256) → f (low x) ≡ g (low x))
    → ((x : Gf256) → f (high x) ≡ g (high x))
    → (a : Gf256x2) → f a ≡ g a
by_parts f g fa ga at_low at_high a =
    ap f (split a)
    ∙ fa (low a.c0) (high a.c1)
    ∙ ap₂ add (at_low a.c0) (at_high a.c1)
    ∙ sym (ga (low a.c0) (high a.c1))
    ∙ sym (ap g (split a))
