-- ===== src/Prg/Tests.antt =====
-- The theorems of src/prg.rs at concrete blocks and the concrete crates.
use mqom_rs.Base.{
  ℕ, ◌+◌, ◌*◌, ◌^◌, ◌≡◌, ◌↔◌, refl, arith, true, U8, to_u8, List, [], ◌∷◌, length, take,
}
use mqom_rs.Bytes.{filled, length-filled, xor_zip}
use mqom_rs.Toy.{toy}
use mqom_rs.Prg.{linear_orthomorphism, tweak_salt, fill}
use mqom_rs.Prg.Tweak.{tweak_salt_iff}
use mqom_rs.Prg.Orthomorphism.{linear_orthomorphism_iff}
use mqom_rs.Prg.Stream.{stream, block_count, fill-stream}

abbrev salt : List U8
salt =
    to_u8 1
    ∷ to_u8 2
    ∷ to_u8 3
    ∷ to_u8 4
    ∷ to_u8 5
    ∷ to_u8 6
    ∷ to_u8 7
    ∷ to_u8 8
    ∷ to_u8 9
    ∷ to_u8 10
    ∷ to_u8 11
    ∷ to_u8 12
    ∷ to_u8 13
    ∷ to_u8 14
    ∷ to_u8 15
    ∷ to_u8 16
    ∷ []

tweak_salt_iff_example :
    (tweak_salt salt 1 5 700 ≡ tweak_salt salt 3 5 700)
    ↔ ((◌≡◌ {A = ℕ} 1 3) × (◌≡◌ {A = ℕ} 5 5) × (◌≡◌ {A = ℕ} 700 700))
tweak_salt_iff_example =
    tweak_salt_iff salt 1 3 5 5 700 700 (omega arith) (omega arith) (omega arith) (omega arith)
      (omega arith) (omega arith) (omega arith)

linear_orthomorphism_iff_example :
    ((linear_orthomorphism salt ≡ linear_orthomorphism salt) ↔ (salt ≡ salt))
    × ((xor_zip salt (linear_orthomorphism salt) ≡ xor_zip salt (linear_orthomorphism salt))
        ↔ (salt ≡ salt))
linear_orthomorphism_iff_example = linear_orthomorphism_iff salt salt refl refl

abbrev twenty : List U8
twenty = filled 20 (to_u8 0)

fill-stream_example :
    fill ⦃c = toy⦄ salt 1 salt twenty
    ≡ (true, take (length twenty) (stream ⦃c = toy⦄ salt 1 salt 0 (block_count (length twenty))))
fill-stream_example =
    fill-stream ⦃c = toy⦄ salt 1 salt twenty refl (omega (arith, length-filled 20 (to_u8 0)))

abbrev too_long : List U8
too_long = filled (16 * 2 ^ 16 + 1) (to_u8 0)
