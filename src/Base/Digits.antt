-- ===== src/Base/Digits.antt =====
-- The digit recursion that the native `^` and `&` stand for: any fuel that reaches the first number
-- gives the same digits.
use Prim.Native.Nat.{ℕ, zero, suc, ◌/◌, ◌≤◌, digits}
use mathlib.Core.Path.{◌≡◌, refl, sym, ◌∙◌}
use native.Mathlib.Omega.{arith}

module _ (last : ℕ → ℕ) (digit : ℕ → ℕ → ℕ) where
  digits-zero : (fuel y : ℕ) → digits last digit fuel zero y ≡ last y
  digits-zero zero y = refl
  digits-zero (suc fuel) y = refl

  pub digits_settle :
      (fuel x other y : ℕ)
      → x ≤ fuel
      → x ≤ other
      → digits last digit fuel x y ≡ digits last digit other x y
  digits_settle fuel zero other y h k = digits-zero fuel y ∙ sym (digits-zero other y)
  digits_settle zero (suc x) other y h k = absurd (omega arith)
  digits_settle (suc fuel) (suc x) zero y h k = absurd (omega arith)
  digits_settle (suc fuel) (suc x) (suc other) y h k =
      rw (digits_settle fuel (suc x / 2) other (y / 2) (omega arith) (omega arith))
