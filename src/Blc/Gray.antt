-- ===== src/Blc/Gray.antt =====
-- The Gray code of src/blc.rs, which orders the leaves.
mod Tests
use mqom_rs.Base.{
  ℕ, zero, suc, ◌+◌, ◌/◌, ◌%◌, ◌^◌, ◌≤◌, ◌<◌, bit_xor, ◌>>>◌, ◌≡◌, ◌≢◌, ◌↔◌, refl, sym, ap, ap₂,
  ◌∙◌, arith, Option, none, some, Bool, true, false, ltb, lt→ltb, ltb→lt, ◌==◌, ==_iff, ◌&&◌,
  if◌then◌else◌, ◌>>=◌, ◌>>◌, guard, all_below, all_below_sound, xor-half, xor_assoc, xor_self,
  xor-zero, ◌⊎◌, inl, inr,
}
use mqom_rs.Prg.{u16_try_from}
use mqom_rs.Params.{nb_evals, nb_evals_log}

unfoldable pub gray_code : ℕ → Option ℕ
gray_code index = do index ← u16_try_from index; some (bit_xor index (index >>> 1))

-- `trailing_zeros` of a number of `width` bits.
unfoldable pub trailing_zeros : ℕ → ℕ → ℕ
trailing_zeros zero x = 0
trailing_zeros (suc width) x =
    let rest = trailing_zeros width (x / 2) in if x % 2 == 0 then suc rest else 0

unfoldable pub gray_code_bit_position : ℕ → Option ℕ
gray_code_bit_position index = do
  current ← gray_code index
  next ← if ltb (index + 1) nb_evals then gray_code (index + 1) else some 0
  let position = trailing_zeros 16 (bit_xor current next)
  guard (ltb position nb_evals_log)
  some position

-- The index that follows, in the cycle of the leaves.
abbrev pub next_index : ℕ → ℕ
next_index index = if ltb (index + 1) nb_evals then index + 1 else 0

abbrev pub gray : ℕ → ℕ
gray index = bit_xor index (index >>> 1)

one_bit : ℕ → ℕ → Option ℕ → Bool
one_bit current next none = false
one_bit current next (some position) =
    ltb position nb_evals_log && bit_xor current next == 2 ^ position

transition_table :
    all_below nb_evals (λ i. one_bit (gray i) (gray (next_index i)) (gray_code_bit_position i))
    ≡ true
unfolding all_below one_bit gray_code_bit_position gray_code trailing_zeros
transition_table = refl

one_bit_lem :
    (current next : ℕ) (found : Option ℕ)
    → one_bit current next found ≡ true
    → (position : ℕ) × (found ≡ some position)
      × (position < nb_evals_log)
      × (bit_xor current next ≡ 2 ^ position)
unfolding one_bit
one_bit_lem current next none h = absurd cc
one_bit_lem current next (some position) h =
    let parts : (ltb position nb_evals_log ≡ true)
        × ((bit_xor current next == 2 ^ position) ≡ true) =
      ground arith in
    (
      position,
      refl,
      ltb→lt position nb_evals_log parts.0,
      (==_iff (bit_xor current next) (2 ^ position)).0 parts.1,
    )

-- On every leaf, `gray_code_bit_position` succeeds, and gives the one bit in which the code of the
-- leaf differs from that of the next, where the first leaf follows the last.
pub gray_code_bit_position_total :
    (index : ℕ)
    → index < nb_evals
    → (position : ℕ) × (gray_code_bit_position index ≡ some position)
      × (position < nb_evals_log)
      × (bit_xor (gray index) (gray (next_index index)) ≡ 2 ^ position)
gray_code_bit_position_total index h =
    one_bit_lem (gray index) (gray (next_index index)) (gray_code_bit_position index) (
      all_below_sound nb_evals
        (λ i. one_bit (gray i) (gray (next_index i)) (gray_code_bit_position i)) index
        transition_table h)

gray-half : (x : ℕ) → gray x / 2 ≡ gray (x / 2)
gray-half x = xor-half x (x >>> 1)

xor_cancel : (x m : ℕ) → bit_xor (bit_xor x m) m ≡ x
xor_cancel x m = xor_assoc x m m ∙ ap (bit_xor x) (xor_self m) ∙ xor-zero x

gray_inj : (n x y : ℕ) → x ≤ n → y ≤ n → gray x ≡ gray y → x ≡ y
gray_inj zero x y hx hy e = omega arith
gray_inj (suc n) x y hx hy e = elim (both_zero x y) [
  | inl q ↦ q
  | inr some_pos ↦
      let halves : x / 2 ≡ y / 2 =
        gray_inj n (x / 2) (y / 2) (omega arith) (omega arith)
          (sym (gray-half x) ∙ ap (λ (t : ℕ). t / 2) e ∙ gray-half y) in
      sym (xor_cancel x (x / 2)) ∙ ap₂ bit_xor e halves ∙ xor_cancel y (y / 2)
]
  where
    both_zero : (a b : ℕ) → (a ≡ b) ⊎ (a ≢ b)
    both_zero a b = ground arith

pub gray_code-some : (index : ℕ) → index < 2 ^ 16 → gray_code index ≡ some (gray index)
unfolding gray_code
gray_code-some index h = rw (lt→ltb index (2 ^ 16) h)

unwrap : (a b : ℕ) → some a ≡ some b → a ≡ b
unwrap a b e = ap (λ o. elim o [ none ↦ a | some x ↦ x ]) e

-- Two indices of 16 bits have one code only if they are equal: the evaluation points of the leaves
-- differ.
pub gray_code_iff : (i j : ℕ) → i < 2 ^ 16 → j < 2 ^ 16 → (gray_code i ≡ gray_code j) ↔ (i ≡ j)
gray_code_iff i j hi hj = (
  λ e.
      gray_inj (i + j) i j (omega arith) (omega arith)
        (unwrap (gray i) (gray j) (sym (gray_code-some i hi) ∙ e ∙ gray_code-some j hj)),
  ap gray_code,
)
