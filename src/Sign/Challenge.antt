-- ===== src/Sign/Challenge.antt =====
-- The search for a nonce: the signer's challenge is the one that the verifier reads, at the first nonce
-- that the grinding accepts.
use mqom_rs.Base.{
  ℕ, zero, suc, ◌+◌, ◌^◌, ◌≤◌, ◌<◌, ◌≡◌, ◌≢◌, refl, sym, ap, ◌∙◌, arith, U8, Option, none, some,
  List, Bool, true, false, guard, ◌>>◌, some_inj,
}
use mathlib.Core.Path.{subst}
use native.Mathlib.Decide.{dec_lt}
use mqom_rs.Crates.{Crates}
use mqom_rs.Verify.{parse_challenge}
use mqom_rs.Sign.{nonce_bytes, sample_loop, sample_challenge}

abbrev Challenge : Type 0
Challenge = List ℕ × List U8

-- What one round of the search gives, from the answer of the verifier.
abbrev round : Option (List ℕ) → List U8 → Option Challenge → Option Challenge
round none nonce rest = rest
round (some indices) nonce rest = some (indices, nonce)

decide :
    (test : Bool) (indices : List ℕ) (nonce : List U8) (rest : Option Challenge)
    → elim test [ true ↦ some (indices, nonce) | false ↦ rest ]
      ≡ round (guard test >> some indices) nonce rest
decide true indices nonce rest = refl
decide false indices nonce rest = refl

round-none :
    (a : Option (List ℕ)) (nonce : List U8) (rest : Option Challenge)
    → round a nonce rest ≡ none
    → (a ≡ none) × (rest ≡ none)
round-none none nonce rest e = (refl, e)
round-none (some indices) nonce rest e = absurd cc

pub none≢some : {A : Type 0} {a : A} → none ≢ some a
none≢some e = cc

settle : {A : Type 0} (o : Option A) → o ≢ none → (a : A) × (o ≡ some a)
settle none ne = absurd (ne refl)
settle (some a) ne = (a, refl)

module _ ⦃c : Crates⦄ (hash : List U8) where
  -- The answer of the verifier at nonce `n`.
  abbrev pub answer : ℕ → Option (List ℕ)
  answer n = parse_challenge hash (nonce_bytes n)

  sample_loop_step :
      (n left : ℕ)
      → sample_loop hash n (suc left)
        ≡ round (answer n) (nonce_bytes n) (sample_loop hash (n + 1) left)
  unfolding sample_loop parse_challenge
  sample_loop_step n left = decide _ _ (nonce_bytes n) (sample_loop hash (n + 1) left)

  -- The challenge is that of nonce `n`, and no nonce from `start` up to it is accepted.
  abbrev pub IsFirst : ℕ → ℕ → Challenge → Type 0
  IsFirst start n challenge =
      (start ≤ n)
      × (challenge.1 ≡ nonce_bytes n)
      × (answer n ≡ some challenge.0)
      × ((earlier : ℕ) → start ≤ earlier → earlier < n → answer earlier ≡ none)

  IsFirst-suc :
      (start n : ℕ) (challenge : Challenge)
      → answer start ≡ none
      → IsFirst (start + 1) n challenge
      → IsFirst start n challenge
  IsFirst-suc start n challenge refused first = (
    omega arith,
    first.1,
    first.2,
    λ earlier lo hi. elim (dec_lt start earlier) [
      | yes later ↦ first.3 earlier (omega arith) hi
      | no here ↦
          let same : start ≡ earlier = omega arith in subst (λ k. answer k ≡ none) same refused
    ],
  )

  abbrev Found : ℕ → ℕ → Challenge → Type 0
  Found start left challenge = (n : ℕ) × (n < start + left) × IsFirst start n challenge

  one_round :
      (start left : ℕ) (challenge : Challenge) (a : Option (List ℕ))
      → (sample_loop hash (start + 1) left ≡ some challenge → Found (start + 1) left challenge)
      → answer start ≡ a
      → sample_loop hash start (suc left) ≡ some challenge
      → Found start (suc left) challenge
  one_round start left challenge none later refused e =
      let rest : sample_loop hash (start + 1) left ≡ some challenge =
        sym (
          sample_loop_step start left
          ∙ ap (λ a. round a (nonce_bytes start) (sample_loop hash (start + 1) left)) refused)
        ∙ e in
      let (n, below, first) = later rest in
      (n, omega arith, IsFirst-suc start n challenge refused first)
  one_round start left challenge (some indices) later accepted e =
      let same : (indices, nonce_bytes start) ≡ challenge = some_inj (
        sym (
          sample_loop_step start left
          ∙ ap (λ a. round a (nonce_bytes start) (sample_loop hash (start + 1) left)) accepted)
        ∙ e) in
      (
        start,
        omega arith,
        (
          omega arith,
          ap (λ p. p.1) (sym same),
          accepted ∙ ap (λ p. some p.0) same,
          λ earlier lo hi. absurd (omega arith),
        ),
      )

  sample_loop-IsFirst :
      (start left : ℕ) (challenge : Challenge)
      → sample_loop hash start left ≡ some challenge
      → Found start left challenge
  unfolding sample_loop
  sample_loop-IsFirst start zero challenge e = absurd cc
  sample_loop-IsFirst start (suc left) challenge e =
      one_round start left challenge (answer start) (sample_loop-IsFirst (start + 1) left challenge)
        refl e

  sample_loop-none :
      (start left : ℕ)
      → sample_loop hash start left ≡ none
      → (n : ℕ) → start ≤ n
      → n < start + left
      → answer n ≡ none
  unfolding sample_loop
  sample_loop-none start zero e n lo hi = absurd (omega arith)
  sample_loop-none start (suc left) e n lo hi =
      let (refused, rest) =
        round-none (answer start) (nonce_bytes start) _ (sym (sample_loop_step start left) ∙ e) in
      elim (dec_lt start n) [
        | yes later ↦ sample_loop-none (start + 1) left rest n (omega arith) (omega arith)
        | no here ↦ let same : start ≡ n = omega arith in subst (λ k. answer k ≡ none) same refused
      ]

  -- The challenge that `sample_challenge` returns is the one that the verifier reads from the nonce
  -- beside it, and the verifier reads none from any nonce before that one.
  pub sample_challenge-IsFirst :
      (challenge : List ℕ × List U8)
      → sample_challenge hash ≡ some challenge
      → (n : ℕ) × (n < 2 ^ 32)
        × (challenge.1 ≡ nonce_bytes n)
        × (parse_challenge hash (nonce_bytes n) ≡ some challenge.0)
        × ((earlier : ℕ) → earlier < n → parse_challenge hash (nonce_bytes earlier) ≡ none)
  unfolding sample_challenge
  sample_challenge-IsFirst challenge e =
      let (n, below, first) = sample_loop-IsFirst 0 (2 ^ 32) challenge e in
      (n, omega arith, first.1, first.2, λ earlier hi. first.3 earlier (omega arith) hi)

  -- Where some nonce of 32 bits is accepted by the verifier, `sample_challenge` returns a challenge.
  pub sample_challenge_total :
      (n : ℕ) (indices : List ℕ)
      → n < 2 ^ 32
      → parse_challenge hash (nonce_bytes n) ≡ some indices
      → (challenge : List ℕ × List U8) × (sample_challenge hash ≡ some challenge)
  unfolding sample_challenge
  sample_challenge_total n indices below accepted = settle (sample_challenge hash) λ failed.
      none≢some (sym (sample_loop-none 0 (2 ^ 32) failed n (omega arith) below) ∙ accepted)
