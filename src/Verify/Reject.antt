-- ===== src/Verify/Reject.antt =====
-- What the verifier refuses, and what its parts always give.
use mqom_rs.Base.{
  ℕ, zero, suc, ◌+◌, ◌*◌, ◌≤◌, ◌<◌, ◌≡◌, ◌≢◌, ◌⊎◌, inl, inr, refl, sym, ap, ◌∙◌, arith, U8, Option,
  none, some, List, [], ◌∷◌, length, get_or, Bool, true, false, ◌==◌, ==_iff, ◌&&◌, Bool-cases,
  and_mask, guard, ◌>>◌,
}
use mqom_rs.Params.{tau, nb_evals, public_key_size, signature_size}
use mqom_rs.Crates.{Crates}
use mqom_rs.Xof.{shake128}
use mqom_rs.Mq.{PackedEquation, equation_count, domain}
use mqom_rs.Mq.Expand.{equation_at, expand_equation-some}
use mqom_rs.Verify.{
  read_u16, read_indices, parse_challenge, collect_equations, expand_equations, verify_inner,
  verify, challenge_stream_size,
}

read_indices-lt :
    (stream : List U8) (execution left j : ℕ)
    → get_or (read_indices stream execution left) j 0 < nb_evals
unfolding read_indices
read_indices-lt stream execution zero j = omega arith
read_indices-lt stream execution (suc left) zero =
    omega (arith, and_mask 11 (read_u16 stream (2 * execution)))
read_indices-lt stream execution (suc left) (suc j) = read_indices-lt stream (execution + 1) left j

length-read_indices :
    (stream : List U8) (execution left : ℕ) → length (read_indices stream execution left) ≡ left
unfolding read_indices
length-read_indices stream execution zero = refl
length-read_indices stream execution (suc left) =
    ap suc (length-read_indices stream (execution + 1) left)

guarded :
    (b : Bool) (found indices : List ℕ) → guard b >> some found ≡ some indices → found ≡ indices
guarded true found indices e = ap (λ (o : Option (List ℕ)). elim o [ none ↦ found | some i ↦ i ]) e
guarded false found indices e = absurd cc

pub true≢false : true ≢ false
true≢false e = cc

module _ ⦃c : Crates⦄ where
  -- Whenever `parse_challenge` returns hidden indices, there is one for each of the 12 executions,
  -- and each is the index of a leaf.
  pub parse_challenge-lt :
      (hash nonce : List U8) (indices : List ℕ) (j : ℕ)
      → parse_challenge hash nonce ≡ some indices
      → (length indices ≡ tau) × (get_or indices j 0 < nb_evals)
  unfolding parse_challenge
  parse_challenge-lt hash nonce indices j e =
      let same : read_indices stream 0 tau ≡ indices =
        guarded _ (read_indices stream 0 tau) indices e in
      (
        ap length (sym same) ∙ length-read_indices stream 0 tau,
        omega (arith, ap (λ l. get_or l j 0) same, read_indices-lt stream 0 tau j),
      )
    where
      stream : List U8
      stream = shake128 (domain 0x05 ∷ (hash ∷ (nonce ∷ []))) challenge_stream_size

  abbrev pub equations_from : List U8 → ℕ → ℕ → List PackedEquation
  equations_from master_seed index zero = []
  equations_from master_seed index (suc left) =
      equation_at master_seed index ∷ equations_from master_seed (index + 1) left

  pub collect_equations_total :
      (master_seed : List U8) (index left : ℕ)
      → index + left ≤ equation_count
      → collect_equations master_seed index left ≡ some (equations_from master_seed index left)
  unfolding collect_equations
  collect_equations_total master_seed index zero h = refl
  collect_equations_total master_seed index (suc left) h = rw (
    expand_equation-some master_seed index (omega arith),
    collect_equations,
    collect_equations_total master_seed (index + 1) left (omega arith),
  )

  -- On every master seed `expand_equations` returns the 14 equations of the profile, in order.
  pub expand_equations_total :
      (master_seed : List U8)
      → expand_equations master_seed ≡ some (equations_from master_seed 0 equation_count)
  unfolding expand_equations
  expand_equations_total master_seed =
      rw (collect_equations_total master_seed 0 equation_count (omega arith), expand_equations)

  -- A public key or a signature of another length is refused.
  pub verify-rejects :
      (public_key message signature : List U8)
      → (length public_key ≢ public_key_size) ⊎ (length signature ≢ signature_size)
      → verify public_key message signature ≡ false
  unfolding verify verify_inner
  verify-rejects public_key message signature wrong =
      elim (Bool-cases
        (length public_key == public_key_size && length signature == signature_size)) [
          | inl e ↦ absurd (refuse wrong ((==_iff _ _).0 (both e).0) ((==_iff _ _).0 (both e).1))
          | inr e ↦ rw (e, verify, verify_inner)
        ]
    where
      both :
          (length public_key == public_key_size && length signature == signature_size) ≡ true
          → ((length public_key == public_key_size) ≡ true)
            × ((length signature == signature_size) ≡ true)
      both e = ground arith

      refuse :
          (length public_key ≢ public_key_size) ⊎ (length signature ≢ signature_size)
          → length public_key ≡ public_key_size
          → length signature ≡ signature_size
          → ⊥
      refuse (inl ne) p s = ne p
      refuse (inr ne) p s = ne s

  pub verify-signature_size :
      (public_key message signature : List U8)
      → verify public_key message signature ≡ true
      → length signature ≡ signature_size
  verify-signature_size public_key message signature accepted =
      elim (Bool-cases (length signature == signature_size)) [
        | inl e ↦ (==_iff (length signature) signature_size).0 e
        | inr e ↦ absurd (refuse λ same. true≢false (sym ((==_iff _ _).1 same) ∙ e))
      ]
    where
      refuse : length signature ≢ signature_size → ⊥
      refuse wrong =
          true≢false (sym accepted ∙ verify-rejects public_key message signature (inr wrong))
