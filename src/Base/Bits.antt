-- ===== src/Base/Bits.antt =====
-- Shifts and masks of machine words, and the laws of `^` at every width.
use Prim.Native.Nat.{
  ℕ, zero, suc, ◌+◌, ◌-◌, ◌*◌, ◌/◌, ◌%◌, ◌^◌, ◌≤◌, ◌<◌, bit_xor, differ, bit_xor-bitwise,
}
use mathlib.Core.Path.{◌≡◌, refl, sym, ap, ◌∙◌, ◌≡⟨◌⟩◌, ◌∎}
use native.Mathlib.Nat.{pow-suc, mul_comm, div-div-eq-div-mul, div-add-mod}
use native.Mathlib.Omega.{arith}
use mqom_rs.Base.Digits.{digits_settle}

infixl 75 ◌<<<◌ ◌>>>◌
abbrev pub ◌<<<◌ : ℕ → ℕ → ℕ
x <<< k = x * 2 ^ k

abbrev pub ◌>>>◌ : ℕ → ℕ → ℕ
x >>> k = x / 2 ^ k

-- What a `u8` or a `u16` keeps of a number.
abbrev pub u8 : ℕ → ℕ
u8 n = n % 2 ^ 8

abbrev pub u16 : ℕ → ℕ
u16 n = n % 2 ^ 16

-- `0u8.wrapping_sub(bit)`.
abbrev pub mask_of : ℕ → ℕ
mask_of bit = u8 (2 ^ 8 - bit)

differ_parity : (x y : ℕ) → x < 2 → y < 2 → differ x y ≡ (x + y) % 2
differ_parity zero y p q = omega arith
differ_parity (suc zero) zero p q = omega arith
differ_parity (suc zero) (suc zero) p q = omega arith
differ_parity (suc zero) (suc (suc y)) p q = absurd (omega arith)
differ_parity (suc (suc x)) y p q = absurd (omega arith)

pub zero-xor : (b : ℕ) → bit_xor 0 b ≡ b
zero-xor b = bit_xor-bitwise 0 b

pub xor_step : (a b : ℕ) → bit_xor a b ≡ bit_xor (a / 2) (b / 2) * 2 + (a + b) % 2
xor_step zero b = omega (arith, zero-xor b, zero-xor (b / 2))
xor_step (suc a) b = omega (
  arith,
  bit_xor-bitwise (suc a) b,
  bit_xor-bitwise (suc a / 2) (b / 2),
  digits_settle (λ rest. rest) differ a (suc a / 2) (suc a / 2) (b / 2) (omega arith) (omega arith),
  differ_parity (suc a % 2) (b % 2) (omega arith) (omega arith),
)

pub xor-half : (a b : ℕ) → bit_xor a b / 2 ≡ bit_xor (a / 2) (b / 2)
xor-half a b = omega (arith, xor_step a b)

pub xor_parity : (a b : ℕ) → bit_xor a b % 2 ≡ (a + b) % 2
xor_parity a b = omega (arith, xor_step a b)

xor_comm_fuel : (n a b : ℕ) → a ≤ n → b ≤ n → bit_xor a b ≡ bit_xor b a
xor_comm_fuel zero zero zero p q = refl
xor_comm_fuel zero (suc a) b p q = absurd (omega arith)
xor_comm_fuel zero zero (suc b) p q = absurd (omega arith)
xor_comm_fuel (suc n) a b p q =
    omega (
      arith,
      xor_step a b,
      xor_step b a,
      xor_comm_fuel n (a / 2) (b / 2) (omega arith) (omega arith),
    )

pub xor_comm : (a b : ℕ) → bit_xor a b ≡ bit_xor b a
xor_comm a b = xor_comm_fuel (a + b) a b (omega arith) (omega arith)

xor_assoc_fuel :
    (n a b c : ℕ) → a ≤ n → b ≤ n → c ≤ n → bit_xor (bit_xor a b) c ≡ bit_xor a (bit_xor b c)
xor_assoc_fuel zero zero b c p q r = rw (zero-xor b, zero-xor (bit_xor b c))
xor_assoc_fuel zero (suc a) b c p q r = absurd (omega arith)
xor_assoc_fuel (suc n) a b c p q r =
    let halves : bit_xor (bit_xor (a / 2) (b / 2)) (c / 2)
        ≡ bit_xor (a / 2) (bit_xor (b / 2) (c / 2)) =
      xor_assoc_fuel n (a / 2) (b / 2) (c / 2) (omega arith) (omega arith) (omega arith) in
    ground (
      arith,
      xor_step (bit_xor a b) c,
      xor_step a (bit_xor b c),
      xor-half a b,
      xor-half b c,
      xor_parity a b,
      xor_parity b c,
    )

pub xor_assoc : (a b c : ℕ) → bit_xor (bit_xor a b) c ≡ bit_xor a (bit_xor b c)
xor_assoc a b c = xor_assoc_fuel (a + b + c) a b c (omega arith) (omega arith) (omega arith)

xor_self_fuel : (n a : ℕ) → a ≤ n → bit_xor a a ≡ 0
xor_self_fuel zero zero p = refl
xor_self_fuel zero (suc a) p = absurd (omega arith)
xor_self_fuel (suc n) a p = omega (arith, xor_step a a, xor_self_fuel n (a / 2) (omega arith))

pub xor_self : (a : ℕ) → bit_xor a a ≡ 0
xor_self a = xor_self_fuel a a (omega arith)

pub xor-zero : (a : ℕ) → bit_xor a 0 ≡ a
xor-zero a = xor_comm a 0 ∙ zero-xor a

pub xor_interchange :
    (a b c d : ℕ) → bit_xor (bit_xor a b) (bit_xor c d) ≡ bit_xor (bit_xor a c) (bit_xor b d)
xor_interchange a b c d =
    bit_xor (bit_xor a b) (bit_xor c d)
    ≡⟨ xor_assoc a b (bit_xor c d) ⟩ bit_xor a (bit_xor b (bit_xor c d))
    ≡⟨ ap (bit_xor a) (sym (xor_assoc b c d)) ⟩ bit_xor a (bit_xor (bit_xor b c) d)
    ≡⟨ ap (λ x. bit_xor a (bit_xor x d)) (xor_comm b c) ⟩ bit_xor a (bit_xor (bit_xor c b) d)
    ≡⟨ ap (bit_xor a) (xor_assoc c b d) ⟩ bit_xor a (bit_xor c (bit_xor b d))
    ≡⟨ sym (xor_assoc a c (bit_xor b d)) ⟩ bit_xor (bit_xor a c) (bit_xor b d) ∎

pub xor-lt : (k a b : ℕ) → a < 2 ^ k → b < 2 ^ k → bit_xor a b < 2 ^ k
xor-lt zero a b p q =
    let ea : a ≡ 0 = omega arith in let eb : b ≡ 0 = omega arith in rw (ea, eb) (omega arith)
xor-lt (suc k) a b p q = omega (
  arith,
  pow-suc 2 k,
  xor_step a b,
  xor-lt k (a / 2) (b / 2) (omega (arith, pow-suc 2 k)) (omega (arith, pow-suc 2 k)),
)

xor-double : (a b : ℕ) → bit_xor (a * 2) (b * 2) ≡ bit_xor a b * 2
xor-double a b =
    let ea : a * 2 / 2 ≡ a = omega arith in
    let eb : b * 2 / 2 ≡ b = omega arith in ground (arith, xor_step (a * 2) (b * 2), ea, eb)

shr-suc : (k a : ℕ) → a >>> suc k ≡ (a / 2) >>> k
shr-suc k a = rw (pow-suc 2 k, mul_comm (2 ^ k) 2) (sym (div-div-eq-div-mul a 2 (2 ^ k)))

pub low-suc : (k a : ℕ) → a % 2 ^ suc k ≡ a / 2 % 2 ^ k * 2 + a % 2
low-suc k a = omega (
  arith,
  shr-suc k a,
  pow-suc 2 k,
  ap (λ (t : ℕ). a / 2 ^ suc k * t) (pow-suc 2 k),
  ap (λ (t : ℕ). t * 2 ^ k) (shr-suc k a),
  div-add-mod a (2 ^ suc k),
  div-add-mod (a / 2) (2 ^ k),
)

-- A right shift, a left shift and the low bits distribute over `^`.
pub xor_shr : (k a b : ℕ) → bit_xor a b >>> k ≡ bit_xor (a >>> k) (b >>> k)
xor_shr zero a b =
    let e : (x : ℕ) → x / 1 ≡ x = λ x. omega arith in ground (arith, e a, e b, e (bit_xor a b))
xor_shr (suc k) a b =
    rw (shr-suc k (bit_xor a b), shr-suc k a, shr-suc k b, xor-half a b) (xor_shr k (a / 2) (b / 2))

pub xor_shl : (k a b : ℕ) → bit_xor a b <<< k ≡ bit_xor (a <<< k) (b <<< k)
xor_shl zero a b =
    let e : (x : ℕ) → x * 1 ≡ x = λ x. omega arith in ground (arith, e a, e b, e (bit_xor a b))
xor_shl (suc k) a b =
    let e : (x : ℕ) → x * 2 ^ suc k ≡ x * 2 ^ k * 2 =
      λ x. omega (arith, ap (λ (t : ℕ). x * t) (pow-suc 2 k)) in
    rw (e (bit_xor a b), e a, e b, xor-double (a * 2 ^ k) (b * 2 ^ k))
      (ap (λ t. t * 2) (xor_shl k a b))

pub xor_low : (k a b : ℕ) → bit_xor a b % 2 ^ k ≡ bit_xor (a % 2 ^ k) (b % 2 ^ k)
xor_low zero a b = let e : (x : ℕ) → x % 1 ≡ 0 = λ x. omega arith in rw (e (bit_xor a b), e a, e b)
xor_low (suc k) a b =
    let h : (x : ℕ) → (x % 2 ^ suc k) / 2 ≡ x / 2 % 2 ^ k = λ x. omega (arith, low-suc k x) in
    ground (
      arith,
      low-suc k (bit_xor a b),
      low-suc k a,
      low-suc k b,
      xor_step (a % 2 ^ suc k) (b % 2 ^ suc k),
      h a,
      h b,
      xor-half a b,
      xor_parity a b,
      xor_low k (a / 2) (b / 2),
    )
