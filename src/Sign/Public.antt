-- ===== src/Sign/Public.antt =====
-- The outputs that the verifier reads from the public key are those of the equations at the secret vector.
use mqom_rs.Base.{
  ℕ, zero, suc, ◌+◌, ◌-◌, ◌*◌, ◌≤◌, ◌<◌, ◌≡◌, refl, sym, ap, ◌∙◌, arith, U8, some, List, [], ◌∷◌,
  length, take, drop, slice, get_or, true, take-take, length-take, length-drop, length-map,
}
use mqom_rs.Bytes.Slices.{slice-take, drop-drop}
use mqom_rs.Params.{public_key_size, secret_key_size}
use mqom_rs.Crates.{Crates}
use mqom_rs.Keygen.{byte_array, keygen_seed_size, secret_key_is_consistent}
use mqom_rs.Keygen.Check.{secret_key_is_consistent_iff}
use mqom_rs.Field.Packing.Laws.{halves}
use mqom_rs.Field.Gf16.Element.{Gf16}
use mqom_rs.Field.Gf256x2.Element.{Gf256x2}
use mqom_rs.Field.Gf256x2.Element as Gf256x2
use mqom_rs.Mq.{PackedEquation, equation_count, evaluate_base}
use mqom_rs.Mq.Expand.{equation_at, no_equation}
use mqom_rs.Blc.Fold.{parse_extension_vector, read_elements}
use mqom_rs.Blc.Fold.Total.{parse_extension_vector_total}
use mqom_rs.Verify.{public_seed_size}
use mqom_rs.Sign.Encoding.{read_elements-at}
use mqom_rs.Sign.Equations.{outputs_of}
use mqom_rs.Sign.Alpha.{equations_of, get_or-equations_from, length-equations_from}

get_or-outputs_of :
    (equations : List PackedEquation) (secret : List Gf16) (j : ℕ)
    → j < length equations
    → get_or (outputs_of equations secret) j Gf256x2.zero
      ≡ evaluate_base (get_or equations j no_equation) secret
get_or-outputs_of [] secret j lt = absurd (omega arith)
get_or-outputs_of (q ∷ equations) secret zero lt = refl
get_or-outputs_of (q ∷ equations) secret (suc j) lt =
    get_or-outputs_of equations secret j (omega arith)

-- A slice of the beginning of a list.
slice-take_before :
    (a b n : ℕ) (xs : List U8) → a ≤ b → b ≤ n → slice a b (take n xs) ≡ slice a b xs
slice-take_before a b n xs h before =
    slice-take a b (take n xs) h ∙ ap (drop a) (take-take b n xs before) ∙ sym (slice-take a b xs h)

module _ ⦃c : Crates⦄ (secret_key : List U8) (size : length secret_key ≡ secret_key_size)
    (consistent : secret_key_is_consistent secret_key ≡ true) where
  abbrev seed : List U8
  seed = take keygen_seed_size secret_key

  abbrev secret : List Gf16
  secret = halves (drop public_key_size secret_key)

  abbrev encoded_outputs : List U8
  encoded_outputs = drop public_seed_size (take public_key_size secret_key)

  output_bytes :
      (j : ℕ)
      → j < equation_count
      → take 2 (drop ((0 + j) * 2) encoded_outputs)
        ≡ byte_array (get_or (outputs_of (equations_of seed) secret) j Gf256x2.zero)
  output_bytes j lt =
      ap (take 2) (
        drop-drop ((0 + j) * 2) 32 (take 60 secret_key)
        ∙ ap (λ k. drop k (take 60 secret_key)) {x = 32 + (0 + j) * 2} {y = 32 + j * 2}
            (omega arith))
      ∙ ap (λ k. take k (drop (32 + j * 2) (take 60 secret_key))) {x = 2}
          {y = 32 + j * 2 + 2 - (32 + j * 2)} (omega arith)
      ∙ slice-take_before (32 + j * 2) (32 + j * 2 + 2) 60 secret_key (omega arith)
          (omega (arith, lt))
      ∙ sym ((secret_key_is_consistent_iff secret_key size).0 consistent j lt)
      ∙ ap (λ q. byte_array (evaluate_base q secret))
          (ap (equation_at seed) {x = j} {y = 0 + j} (omega arith)
            ∙ sym (get_or-equations_from seed 0 equation_count j lt))
      ∙ ap byte_array (
          sym (
            get_or-outputs_of (equations_of seed) secret j
              (omega (arith, lt, length-equations_from seed 0 equation_count))))

  pub public_output_lem :
      parse_extension_vector equation_count encoded_outputs
      ≡ some (outputs_of (equations_of seed) secret)
  public_output_lem =
      parse_extension_vector_total equation_count encoded_outputs
        (omega (arith, size, length-take 60 secret_key, length-drop 32 (take 60 secret_key)))
      ∙ ap some (
          ap (read_elements encoded_outputs 0) (sym count)
          ∙ read_elements-at encoded_outputs (outputs_of (equations_of seed) secret) 0
              λ j lt. output_bytes j (omega (arith, lt, count)))
    where
      count : length (outputs_of (equations_of seed) secret) ≡ equation_count
      count =
          length-map (λ q. evaluate_base q secret) (equations_of seed)
          ∙ length-equations_from seed 0 equation_count
