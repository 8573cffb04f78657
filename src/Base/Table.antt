-- ===== src/Base/Table.antt =====
-- Checks of every value in a small range by evaluation.
use Prim.Native.Nat.{ℕ, zero, suc, ◌<◌}
use mathlib.Core.Path.{◌≡◌}
use mathlib.Core.Bool.{Bool, true, ◌&&◌}
use native.Mathlib.Omega.{arith}
use mqom_rs.Base.Tests.{◌==◌, ==_iff}

-- Whether a test holds at every number below `count`.
unfoldable pub all_below : ℕ → (ℕ → Bool) → Bool
all_below zero test = true
all_below (suc count) test = all_below count test && test count

pub all_below_sound :
    (count : ℕ) (test : ℕ → Bool) (i : ℕ) → all_below count test ≡ true → i < count → test i ≡ true
unfolding all_below
all_below_sound zero test i every below = absurd (omega arith)
all_below_sound (suc count) test i every below = ground (arith, all_below_sound count test i)

-- Two functions that agree on a checked range.
pub agree_below :
    (n : ℕ) (f g : ℕ → ℕ) (x : ℕ) → all_below n (λ y. f y == g y) ≡ true → x < n → f x ≡ g x
agree_below n f g x h lt = (==_iff (f x) (g x)).0 (all_below_sound n (λ y. f y == g y) x h lt)

pub agree_below₂ :
    (n m : ℕ) (f g : ℕ → ℕ → ℕ) (x y : ℕ)
    → all_below n (λ a. all_below m (λ b. f a b == g a b)) ≡ true
    → x < n
    → y < m
    → f x y ≡ g x y
agree_below₂ n m f g x y h hx hy =
    agree_below m (f x) (g x) y (all_below_sound n (λ a. all_below m (λ b. f a b == g a b)) x h hx)
      hy

pub agree_below₃ :
    (n : ℕ) (f g : ℕ → ℕ → ℕ → ℕ) (x y z : ℕ)
    → all_below n (λ a. all_below n (λ b. all_below n (λ c. f a b c == g a b c))) ≡ true
    → x < n
    → y < n
    → z < n
    → f x y z ≡ g x y z
agree_below₃ n f g x y z h hx hy hz =
    agree_below₂ n n (f x) (g x) y z
      (all_below_sound n (λ a. all_below n (λ b. all_below n (λ c. f a b c == g a b c))) x h hx) hy
      hz
