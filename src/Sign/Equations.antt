-- ===== src/Sign/Equations.antt =====
-- The coefficients of the equations along a line: those of the signer are those of the verifier.
use mqom_rs.Base.{
  ℕ, zero, suc, ◌+◌, ◌<◌, ◌≡◌, refl, sym, ap, ap₂, ◌∙◌, arith, List, [], ◌∷◌, map, length, drop,
  drop_all, get_or,
}
use mqom_rs.Params.{mq_n}
use mqom_rs.Field.Ring.{◌⊕◌, ◌⊗◌, zero-add}
use mqom_rs.Field.Gf16.Element.{Gf16}
use mqom_rs.Field.Gf256x2.Element.{Gf256x2}
use mqom_rs.Field.Gf256x2.Element as Gf256x2
use mqom_rs.Field.Gf256x2.Laws.{gf256x2_ring}
use mqom_rs.Field.Gf256x2.Lift.{lift, scale_right-eq_mul}
use mqom_rs.Mq.{PackedEquation, multiply_base, multiply_extension, evaluate_base, row_extension}
use mqom_rs.Mq.Vectors.{vadd, vscale, dot, dot-vadd_left}
use mqom_rs.Mq.Expand.{no_equation}
use mqom_rs.Mq.Linear.{
  row_extension-dot, multiply_base-multiply_extension, length-multiply_extension,
}
use mqom_rs.Verify.{z_evaluations}
use mqom_rs.Verify.Line.{z_evaluation-line}
use mqom_rs.Sign.{add_zip, t_ones, z_round, z_values, z_lists}

add_zip-vadd : (x y : List Gf256x2) → length x ≡ length y → add_zip x y ≡ vadd x y
unfolding add_zip vadd
add_zip-vadd [] y e = refl
add_zip-vadd (a ∷ x) [] e = absurd (omega arith)
add_zip-vadd (a ∷ x) (b ∷ y) e = ap (◌∷◌ (a ⊕ b)) (add_zip-vadd x y (omega arith))

pub pair {ℓ κ} :
    {A : Type ℓ} {B : Type κ} {a a' : A} {b b' : B}
    → a ≡ a'
    → b ≡ b'
    → ◌≡◌ {A = A × B} (a, b) (a', b')
pair p q = λ i. (p i, q i)

z_round-dot :
    (z_zero z_one : Gf256x2) (t x : List Gf256x2) (secret : List Gf16)
    → length t ≡ length x
    → length x ≡ length secret
    → z_round z_zero z_one t x secret ≡ (z_zero ⊕ dot t x, z_one ⊕ dot t (map lift secret))
unfolding z_round dot
z_round-dot z_zero z_one [] x secret e f =
    pair (sym (gf256x2_ring.add-zero z_zero)) (sym (gf256x2_ring.add-zero z_one))
z_round-dot z_zero z_one (a ∷ t) [] secret e f = absurd (omega arith)
z_round-dot z_zero z_one (a ∷ t) (b ∷ x) [] e f = absurd (omega arith)
z_round-dot z_zero z_one (a ∷ t) (b ∷ x) (s ∷ secret) e f =
    z_round-dot (z_zero ⊕ a ⊗ b) (Gf256x2.add z_one (Gf256x2.scale_right a s)) t x secret
      (omega arith) (omega arith)
    ∙ pair (gf256x2_ring.add_assoc z_zero (a ⊗ b) (dot t x)) (
        ap (λ y. z_one ⊕ y ⊕ dot t (map lift secret)) (scale_right-eq_mul a s)
        ∙ gf256x2_ring.add_assoc z_one (a ⊗ lift s) (dot t (map lift secret)))

-- The coefficients of an equation along the line x_zero + r secret.
abbrev pub z_zero_of : PackedEquation → List Gf256x2 → Gf256x2
z_zero_of equation x_zero = dot (multiply_extension equation x_zero) x_zero

abbrev pub z_one_of : PackedEquation → List Gf256x2 → List Gf16 → Gf256x2
z_one_of equation x_zero secret =
    dot (multiply_extension equation x_zero) (map lift secret)
    ⊕ dot (multiply_extension equation (map lift secret)) x_zero
    ⊕ dot equation.linear x_zero

abbrev t_one_of : PackedEquation → List Gf16 → List Gf256x2
t_one_of equation secret = add_zip (multiply_base equation secret) equation.linear

z_values-z_of :
    (equation : PackedEquation) (x_zero : List Gf256x2) (secret : List Gf16)
    → length x_zero ≡ mq_n
    → length secret ≡ mq_n
    → length equation.linear ≡ mq_n
    → z_values equation (t_one_of equation secret) x_zero secret
      ≡ (z_zero_of equation x_zero, z_one_of equation x_zero secret)
unfolding z_values
z_values-z_of equation x_zero secret e f g =
    ap (λ (p : Gf256x2 × Gf256x2). (p.0, row_extension p.1 (t_one_of equation secret) x_zero))
      (z_round-dot Gf256x2.zero Gf256x2.zero product x_zero secret
        (length-multiply_extension equation x_zero ∙ sym e) (e ∙ sym f))
    ∙ pair (zero-add (dot product x_zero)) (
        row_extension-dot (Gf256x2.zero ⊕ dot product s) (t_one_of equation secret) x_zero
        ∙ ap₂ Gf256x2.add (zero-add (dot product s)) (
            ap (λ t. dot t x_zero) t_one
            ∙ dot-vadd_left (multiply_extension equation s) equation.linear x_zero
                (length-multiply_extension equation s ∙ sym g))
        ∙ sym (
            gf256x2_ring.add_assoc (dot product s) (dot (multiply_extension equation s) x_zero)
              (dot equation.linear x_zero)))
  where
    s : List Gf256x2
    s = map lift secret

    product : List Gf256x2
    product = multiply_extension equation x_zero

    t_one : t_one_of equation secret ≡ vadd (multiply_extension equation s) equation.linear
    t_one =
        ap (λ t. add_zip t equation.linear) (multiply_base-multiply_extension equation secret)
        ∙ add_zip-vadd (multiply_extension equation s) equation.linear
            (length-multiply_extension equation s ∙ sym g)

-- All equations have vectors of the size of the profile.
abbrev pub AllLinear : List PackedEquation → Type 0
AllLinear equations =
    (j : ℕ) → j < length equations → length (get_or equations j no_equation).linear ≡ mq_n

abbrev pub z_zeros : List PackedEquation → List Gf256x2 → List Gf256x2
z_zeros equations x_zero = map (λ q. z_zero_of q x_zero) equations

abbrev pub z_ones : List PackedEquation → List Gf256x2 → List Gf16 → List Gf256x2
z_ones equations x_zero secret = map (λ q. z_one_of q x_zero secret) equations

get_or-t_ones :
    (equations : List PackedEquation) (secret : List Gf16) (j : ℕ)
    → j < length equations
    → get_or (t_ones equations secret) j [] ≡ t_one_of (get_or equations j no_equation) secret
unfolding t_ones
get_or-t_ones [] secret j lt = absurd (omega arith)
get_or-t_ones (q ∷ equations) secret zero lt = refl
get_or-t_ones (q ∷ equations) secret (suc j) lt = get_or-t_ones equations secret j (omega arith)

-- A list from an index in range on.
pub drop-get_or {ℓ} :
    {A : Type ℓ} (xs : List A) (i : ℕ) (d : A)
    → i < length xs
    → drop i xs ≡ get_or xs i d ∷ drop (i + 1) xs
drop-get_or [] i d lt = absurd (omega arith)
drop-get_or (x ∷ xs) zero d lt = refl
drop-get_or (x ∷ xs) (suc i) d lt =
    drop-get_or xs i d (omega arith)
    ∙ ap (λ k. get_or xs i d ∷ drop k (x ∷ xs)) {x = suc (i + 1)} {y = suc i + 1} (omega arith)

module _ (equations : List PackedEquation) (x_zero : List Gf256x2) (secret : List Gf16)
    (x_size : length x_zero ≡ mq_n) (secret_size : length secret ≡ mq_n)
    (linear : AllLinear equations) where
  pub z_lists-z_of :
      (index left : ℕ)
      → length equations ≡ index + left
      → z_lists equations (t_ones equations secret) x_zero secret index left
        ≡ (z_zeros (drop index equations) x_zero, z_ones (drop index equations) x_zero secret)
  unfolding z_lists
  z_lists-z_of index zero e =
      ap (λ (es : List PackedEquation). (z_zeros es x_zero, z_ones es x_zero secret))
        (sym (drop_all index equations (omega arith)))
  z_lists-z_of index (suc left) e =
      rw
        (
          get_or-t_ones equations secret index (omega arith),
          z_values-z_of (get_or equations index no_equation) x_zero secret x_size secret_size
              (linear index (omega arith)),
          z_lists-z_of (index + 1) left (omega arith),
        )
        (ap (λ (es : List PackedEquation). (z_zeros es x_zero, z_ones es x_zero secret))
          (sym (drop-get_or equations index no_equation (omega arith))))

-- The public outputs of a secret vector.
abbrev pub outputs_of : List PackedEquation → List Gf16 → List Gf256x2
outputs_of equations secret = map (λ q. evaluate_base q secret) equations

pub z_evaluations-line :
    (equations : List PackedEquation) (x_zero : List Gf256x2) (secret : List Gf16) (point : Gf256x2)
    → length x_zero ≡ mq_n
    → length secret ≡ mq_n
    → AllLinear equations
    → z_evaluations equations
        (outputs_of equations secret)
        (vadd x_zero (vscale point (map lift secret)))
        point
      ≡ vadd (z_zeros equations x_zero) (vscale point (z_ones equations x_zero secret))
unfolding z_evaluations vadd vscale
z_evaluations-line [] x_zero secret point e f linear = refl
z_evaluations-line (q ∷ equations) x_zero secret point e f linear =
    ap₂ ◌∷◌ (z_evaluation-line q x_zero secret point e f (linear 0 (omega arith)))
      (z_evaluations-line equations x_zero secret point e f (λ j lt. linear (suc j) (omega arith)))
