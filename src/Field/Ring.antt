-- ===== src/Field/Ring.antt =====
-- The interface of the three fields: a commutative ring where every element is its own negative.
-- `◌⊕◌` and `◌⊗◌` stand for the `Add` and `Mul` traits.
use mqom_rs.Base.{ℕ, zero, suc, ◌+◌, ◌*◌, ◌≡◌, ◌↔◌, refl, sym, ap, ap₂, ◌∙◌, ◌≡⟨◌⟩◌, ◌∎, arith}
use native.Mathlib.Nat.{mul-suc}

-- The laws of a commutative ring of characteristic two at three elements: every element is its own
-- negative, so that subtraction is addition. The inverse of zero is zero.
abbrev pub RingLaws {ℓ} :
    {A : Type ℓ} → A → A → (A → A → A) → (A → A → A) → (A → A → A) → (A → A) → A → A → A → Type ℓ
RingLaws nil one add sub mul invert a b c =
    (add (add a b) c ≡ add a (add b c))
    × (add a b ≡ add b a)
    × (add a nil ≡ a)
    × (add a a ≡ nil)
    × (sub a b ≡ add a b)
    × (sub (add a b) b ≡ a)
    × (mul (mul a b) c ≡ mul a (mul b c))
    × (mul a b ≡ mul b a)
    × (mul a one ≡ a)
    × (mul a (add b c) ≡ add (mul a b) (mul a c))
    × (invert nil ≡ nil)

pub record BinaryRing {ℓ} (A : Type ℓ) : Type ℓ where
  pub zero : A
  pub add : A → A → A
  pub add_comm : (a b : A) → add a b ≡ add b a
  pub add_assoc : (a b c : A) → add (add a b) c ≡ add a (add b c)
  pub add-zero : (a : A) → add a zero ≡ a
  pub add_self : (a : A) → add a a ≡ zero
  pub one : A
  pub mul : A → A → A
  pub mul_comm : (a b : A) → mul a b ≡ mul b a
  pub mul-one : (a : A) → mul a one ≡ a
  pub mul_assoc : (a b c : A) → mul (mul a b) c ≡ mul a (mul b c)
  pub mul-add : (a b c : A) → mul a (add b c) ≡ add (mul a b) (mul a c)

abbrev pub chain_exponent : ℕ → ℕ → ℕ
chain_exponent zero e = e + e
chain_exponent (suc rounds) e = chain_exponent rounds (suc (e + e))

module _ {ℓ} {A : Type ℓ} ⦃r : BinaryRing A⦄ where
  infixl 70 ◌⊗◌
  abbrev pub ◌⊗◌ : A → A → A
  x ⊗ y = r.mul x y

  infixl 65 ◌⊕◌
  abbrev pub ◌⊕◌ : A → A → A
  x ⊕ y = r.add x y

  pub zero-add : (a : A) → r.zero ⊕ a ≡ a
  zero-add a = r.add_comm r.zero a ∙ r.add-zero a

  pub add-mul : (a b c : A) → (a ⊕ b) ⊗ c ≡ a ⊗ c ⊕ b ⊗ c
  add-mul a b c =
      r.mul_comm (a ⊕ b) c ∙ r.mul-add c a b ∙ ap₂ r.add (r.mul_comm c a) (r.mul_comm c b)

  pub mul-zero : (a : A) → a ⊗ r.zero ≡ r.zero
  mul-zero a =
      ap (r.mul a) (sym (r.add_self r.zero)) ∙ r.mul-add a r.zero r.zero ∙ r.add_self (a ⊗ r.zero)

  pub zero-mul : (a : A) → r.zero ⊗ a ≡ r.zero
  zero-mul a = r.mul_comm r.zero a ∙ mul-zero a

  pub one-mul : (a : A) → r.one ⊗ a ≡ a
  one-mul a = r.mul_comm r.one a ∙ r.mul-one a

  pub add_cancel : (a b : A) → a ⊕ (a ⊕ b) ≡ b
  add_cancel a b = sym (r.add_assoc a a b) ∙ ap (λ x. x ⊕ b) (r.add_self a) ∙ zero-add b

  pub add_left_comm : (a b c : A) → a ⊕ (b ⊕ c) ≡ b ⊕ (a ⊕ c)
  add_left_comm a b c =
      sym (r.add_assoc a b c) ∙ ap (λ x. x ⊕ c) (r.add_comm a b) ∙ r.add_assoc b a c

  pub add_interchange : (a b c d : A) → (a ⊕ b) ⊕ (c ⊕ d) ≡ (a ⊕ c) ⊕ (b ⊕ d)
  add_interchange a b c d =
      r.add_assoc a b (c ⊕ d) ∙ ap (r.add a) (add_left_comm b c d) ∙ sym (r.add_assoc a c (b ⊕ d))

  pub mul_left_comm : (a b c : A) → a ⊗ (b ⊗ c) ≡ b ⊗ (a ⊗ c)
  mul_left_comm a b c =
      sym (r.mul_assoc a b c) ∙ ap (λ x. x ⊗ c) (r.mul_comm a b) ∙ r.mul_assoc b a c

  pub mul_interchange : (a b c d : A) → (a ⊗ b) ⊗ (c ⊗ d) ≡ (a ⊗ c) ⊗ (b ⊗ d)
  mul_interchange a b c d =
      r.mul_assoc a b (c ⊗ d) ∙ ap (r.mul a) (mul_left_comm b c d) ∙ sym (r.mul_assoc a c (b ⊗ d))

  -- Squaring is additive.
  pub square-add : (a b : A) → (a ⊕ b) ⊗ (a ⊕ b) ≡ a ⊗ a ⊕ b ⊗ b
  square-add a b =
      (a ⊕ b) ⊗ (a ⊕ b)
      ≡⟨ r.mul-add (a ⊕ b) a b ⟩ (a ⊕ b) ⊗ a ⊕ (a ⊕ b) ⊗ b
      ≡⟨ ap₂ r.add (add-mul a b a) (add-mul a b b) ⟩ (a ⊗ a ⊕ b ⊗ a) ⊕ (a ⊗ b ⊕ b ⊗ b)
      ≡⟨ ap (λ x. (a ⊗ a ⊕ x) ⊕ (a ⊗ b ⊕ b ⊗ b)) (r.mul_comm b a) ⟩
        (a ⊗ a ⊕ a ⊗ b) ⊕ (a ⊗ b ⊕ b ⊗ b)
      ≡⟨ r.add_assoc (a ⊗ a) (a ⊗ b) (a ⊗ b ⊕ b ⊗ b) ⟩ a ⊗ a ⊕ (a ⊗ b ⊕ (a ⊗ b ⊕ b ⊗ b))
      ≡⟨ ap (r.add (a ⊗ a)) (add_cancel (a ⊗ b) (b ⊗ b)) ⟩ a ⊗ a ⊕ b ⊗ b ∎

  -- A right factor that gives one is the only one that does.
  pub inverse_unique : (a i b : A) → a ⊗ i ≡ r.one → (a ⊗ b ≡ r.one) ↔ (b ≡ i)
  inverse_unique a i b e = (
    λ f.
        sym (r.mul-one b)
        ∙ ap (r.mul b) (sym e)
        ∙ sym (r.mul_assoc b a i)
        ∙ ap (λ t. t ⊗ i) (r.mul_comm b a ∙ f)
        ∙ one-mul i,
    λ f. ap (r.mul a) f ∙ e,
  )

  unfoldable pub pow : A → ℕ → A
  pow a zero = r.one
  pow a (suc n) = a ⊗ pow a n

  pub pow-one : (a : A) → pow a 1 ≡ a
  unfolding pow
  pow-one a = r.mul-one a

  pub pow-suc : (a : A) (n : ℕ) → pow a (suc n) ≡ a ⊗ pow a n
  unfolding pow
  pow-suc a n = refl

  pub pow-add : (a : A) (m n : ℕ) → pow a (m + n) ≡ pow a m ⊗ pow a n
  unfolding pow
  pow-add a zero n = ap (pow a) {x = zero + n} {y = n} (omega arith) ∙ sym (one-mul (pow a n))
  pow-add a (suc m) n =
      ap (pow a) {x = suc m + n} {y = suc (m + n)} (omega arith)
      ∙ ap (r.mul a) (pow-add a m n)
      ∙ sym (r.mul_assoc a (pow a m) (pow a n))

  pub pow-pow : (a : A) (m n : ℕ) → pow (pow a m) n ≡ pow a (m * n)
  unfolding pow
  pow-pow a m zero = ap (pow a) {x = 0} {y = m * 0} (omega arith)
  pow-pow a m (suc n) =
      ap (r.mul (pow a m)) (pow-pow a m n)
      ∙ sym (pow-add a m (m * n))
      ∙ ap (pow a) {x = m + m * n} {y = m * suc n} (omega (arith, mul-suc m n))

  -- The loop of `invert`: `rounds` times square and multiply, then a square.
  unfoldable pub invert_rounds : ℕ → A → A → A
  invert_rounds zero a product = product ⊗ product
  invert_rounds (suc rounds) a product = invert_rounds rounds a (product ⊗ product ⊗ a)

  -- It computes a power, with this exponent.
  pub invert_rounds-pow :
      (rounds : ℕ) (a : A) (e : ℕ)
      → invert_rounds rounds a (pow a e) ≡ pow a (chain_exponent rounds e)
  unfolding invert_rounds
  invert_rounds-pow zero a e = sym (pow-add a e e)
  invert_rounds-pow (suc rounds) a e =
      ap (invert_rounds rounds a) (step e) ∙ invert_rounds-pow rounds a (suc (e + e))
    where
      step : (n : ℕ) → pow a n ⊗ pow a n ⊗ a ≡ pow a (suc (n + n))
      step n =
          ap (λ x. x ⊗ a) (sym (pow-add a n n))
          ∙ r.mul_comm (pow a (n + n)) a
          ∙ sym (pow-suc a (n + n))
