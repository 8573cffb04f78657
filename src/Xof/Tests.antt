-- ===== src/Xof/Tests.antt =====
-- The helper of src/xof.rs at the concrete crates: the theorem there, and what a cut of the parts gives.
use mqom_rs.Base.{◌≡◌, U8, to_u8, List, [], ◌∷◌, length}
use mqom_rs.Toy.{toy, padded}
use mqom_rs.Xof.{shake128, shake128-joined}

abbrev cut : List (List U8)
cut = (to_u8 1 ∷ []) ∷ ([] ∷ ((to_u8 2 ∷ []) ∷ []))

shake128-joined_example :
    (shake128 ⦃c = toy⦄ cut 4 ≡ padded (to_u8 1 ∷ to_u8 2 ∷ []) 4)
    × (length (shake128 ⦃c = toy⦄ cut 4) ≡ 4)
shake128-joined_example = shake128-joined ⦃c = toy⦄ cut 4
