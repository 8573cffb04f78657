-- ===== src/Field/Gf16/Table.antt =====
-- The laws of the product of nibbles and of the embedding, checked at every value.
use mqom_rs.Base.{
  ℕ, ◌<◌, bit_xor, ◌≡◌, refl, all_below, all_below_sound, agree_below, agree_below₂, agree_below₃,
  ltb, ltb→lt, Bool, true, false, not, ◌||◌, ◌==◌, ==_iff,
}
use mqom_rs.Field.Gf16.Rounds.{low_nibble, mul_rounds, mul_nibbles, embed_nibble}
use mqom_rs.Field.Gf256.Rounds
use mqom_rs.Field.Gf256.Rounds.{mul_bytes}

pub low_nibble-lt : (x : ℕ) → x < 256 → low_nibble x < 16
unfolding all_below low_nibble
low_nibble-lt x h = ltb→lt _ _ (all_below_sound 256 (λ y. ltb (low_nibble y) 16) x refl h)

pub low_nibble-id : (x : ℕ) → x < 16 → low_nibble x ≡ x
unfolding all_below low_nibble
low_nibble-id x h = agree_below 16 low_nibble (λ y. y) x refl h

pub mul_nibbles-lt : (a b : ℕ) → a < 16 → b < 16 → mul_nibbles a b < 16
unfolding all_below mul_nibbles mul_rounds
mul_nibbles-lt a b ha hb = ltb→lt _ _ (
    all_below_sound 16 (λ y. ltb (mul_nibbles a y) 16) b
      (all_below_sound 16 (λ x. all_below 16 (λ y. ltb (mul_nibbles x y) 16)) a refl ha) hb)

pub mul_nibbles_comm : (a b : ℕ) → a < 16 → b < 16 → mul_nibbles a b ≡ mul_nibbles b a
unfolding all_below mul_nibbles mul_rounds
mul_nibbles_comm a b ha hb = agree_below₂ 16 16 mul_nibbles (λ x y. mul_nibbles y x) a b refl ha hb

pub mul_nibbles_assoc :
    (a b c : ℕ)
    → a < 16
    → b < 16
    → c < 16
    → mul_nibbles (mul_nibbles a b) c ≡ mul_nibbles a (mul_nibbles b c)
unfolding all_below mul_nibbles mul_rounds
mul_nibbles_assoc a b c ha hb hc =
    agree_below₃ 16 (λ x y z. mul_nibbles (mul_nibbles x y) z)
      (λ x y z. mul_nibbles x (mul_nibbles y z)) a b c refl ha hb hc

pub mul_nibbles-xor :
    (a b c : ℕ)
    → a < 16
    → b < 16
    → c < 16
    → mul_nibbles a (bit_xor b c) ≡ bit_xor (mul_nibbles a b) (mul_nibbles a c)
unfolding all_below mul_nibbles mul_rounds
mul_nibbles-xor a b c ha hb hc =
    agree_below₃ 16 (λ x y z. mul_nibbles x (bit_xor y z))
      (λ x y z. bit_xor (mul_nibbles x y) (mul_nibbles x z)) a b c refl ha hb hc

pub mul_nibbles-one : (a : ℕ) → a < 16 → mul_nibbles a 1 ≡ a
unfolding all_below mul_nibbles mul_rounds
mul_nibbles-one a h = agree_below 16 (λ x. mul_nibbles x 1) (λ x. x) a refl h

pub embed_nibble-lt : (x : ℕ) → x < 16 → embed_nibble x < 256
unfolding all_below embed_nibble
embed_nibble-lt x h = ltb→lt _ _ (all_below_sound 16 (λ y. ltb (embed_nibble y) 256) x refl h)

pub embed_nibble-xor :
    (x y : ℕ)
    → x < 16
    → y < 16
    → embed_nibble (bit_xor x y) ≡ bit_xor (embed_nibble x) (embed_nibble y)
unfolding all_below embed_nibble
embed_nibble-xor x y hx hy =
    agree_below₂ 16 16 (λ a b. embed_nibble (bit_xor a b))
      (λ a b. bit_xor (embed_nibble a) (embed_nibble b)) x y refl hx hy

pub embed_nibble-mul :
    (x y : ℕ)
    → x < 16
    → y < 16
    → embed_nibble (mul_nibbles x y) ≡ mul_bytes (embed_nibble x) (embed_nibble y)
unfolding all_below embed_nibble mul_nibbles mul_rounds mul_bytes Rounds.mul_rounds
embed_nibble-mul x y hx hy =
    agree_below₂ 16 16 (λ a b. embed_nibble (mul_nibbles a b))
      (λ a b. mul_bytes (embed_nibble a) (embed_nibble b)) x y refl hx hy

pub embed_nibble_inj : (x y : ℕ) → x < 16 → y < 16 → embed_nibble x ≡ embed_nibble y → x ≡ y
unfolding all_below embed_nibble
embed_nibble_inj x y hx hy e = (==_iff x y).0 (
    implied (embed_nibble x == embed_nibble y) (x == y)
      (all_below_sound 16 (λ b. not (embed_nibble x == embed_nibble b) || x == b) y
        (all_below_sound 16
          (λ a. all_below 16 (λ b. not (embed_nibble a == embed_nibble b) || a == b)) x refl hx)
        hy)
      ((==_iff (embed_nibble x) (embed_nibble y)).1 e))
  where
    implied : (p q : Bool) → not p || q ≡ true → p ≡ true → q ≡ true
    implied true q h e = h
    implied false q h e = absurd cc
