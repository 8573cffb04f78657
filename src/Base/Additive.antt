-- ===== src/Base/Additive.antt =====
-- Functions of words that are additive over `^` are determined by the powers of two.
use Prim.Native.Nat.{ℕ, zero, suc, ◌+◌, ◌-◌, ◌/◌, ◌^◌, ◌≤◌, ◌<◌, bit_xor}
use mathlib.Core.Path.{◌≡◌, sym, ◌∙◌}
use native.Mathlib.Nat.{pow-suc, pow-le-pow_right}
use native.Mathlib.Decide.{dec_lt}
use native.Mathlib.Omega.{arith}
use mqom_rs.Base.Bits.{xor_step}

-- The top bit of a word is added by `^`.
xor-top : (k r : ℕ) → r < 2 ^ k → bit_xor r (2 ^ k) ≡ r + 2 ^ k
xor-top zero r h = let e : r ≡ 0 = omega arith in rw e
xor-top (suc k) r h =
    let half : 2 ^ suc k / 2 ≡ 2 ^ k = omega (arith, pow-suc 2 k) in
    let ih : bit_xor (r / 2) (2 ^ k) ≡ r / 2 + 2 ^ k =
      xor-top k (r / 2) (omega (arith, pow-suc 2 k)) in
    ground (arith, xor_step r (2 ^ suc k), pow-suc 2 k, half, ih)

-- Additive on the words of `k` bits.
abbrev pub IsAdditive : ℕ → (ℕ → ℕ) → Type 0
IsAdditive k f = (x y : ℕ) → x < 2 ^ k → y < 2 ^ k → f (bit_xor x y) ≡ bit_xor (f x) (f y)

module _ (n : ℕ) (f g : ℕ → ℕ) (fa : IsAdditive n f) (ga : IsAdditive n g) (at_zero : f 0 ≡ g 0)
    (at_bits : (i : ℕ) → i < n → f (2 ^ i) ≡ g (2 ^ i)) where
  room : (k : ℕ) → suc k ≤ n → 2 ^ k + 2 ^ k ≤ 2 ^ n
  room k h =
      omega (arith, pow-suc 2 k, pow-le-pow_right {n = 2} (omega arith) {i = suc k} {j = n} h)

  with_top :
      (k r x : ℕ)
      → r < 2 ^ k
      → x ≡ r + 2 ^ k
      → 2 ^ k + 2 ^ k ≤ 2 ^ n
      → f r ≡ g r
      → f (2 ^ k) ≡ g (2 ^ k)
      → f x ≡ g x
  with_top k r x hr e fits low top =
      let split : x ≡ bit_xor r (2 ^ k) = e ∙ sym (xor-top k r hr) in
      let small : r < 2 ^ n = omega arith in
      let power : 2 ^ k < 2 ^ n = omega arith in
      rw (split, fa r (2 ^ k) small power, ga r (2 ^ k) small power, low, top)

  ext_below : (k x : ℕ) → k ≤ n → x < 2 ^ k → f x ≡ g x
  ext_below zero x h lt = let e : x ≡ 0 = omega arith in rw e at_zero
  ext_below (suc k) x h lt = elim (dec_lt x (2 ^ k)) [
    | yes small ↦ ext_below k x (omega arith) small
    | no large ↦
        with_top k (x - 2 ^ k) x (omega (arith, pow-suc 2 k)) (omega arith) (room k h)
          (ext_below k (x - 2 ^ k) (omega arith) (omega (arith, pow-suc 2 k)))
          (at_bits k (omega arith))
  ]

  pub additive_ext : (x : ℕ) → x < 2 ^ n → f x ≡ g x
  additive_ext x lt = ext_below n x (omega arith) lt
