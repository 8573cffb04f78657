-- ===== src/Blc/Line/Tests.antt =====
-- An honest opening at a concrete commitment and the concrete crates.
use mqom_rs.Base.{
  ℕ, ◌<◌, ltb, ltb→lt, all_below, all_below_sound, ◌≡◌, refl, U8, to_u8, some, true, List, [], ◌∷◌,
  map, length, get_or,
}
use mqom_rs.Bytes.{filled, length-filled}
use mqom_rs.Params.{mq_n, tau, nb_evals, seed_size, opening_size}
use mqom_rs.Toy.{toy}
use mqom_rs.Field.Gf16.Element.{Gf16}
use mqom_rs.Field.Gf16.Element as Gf16
use mqom_rs.Field.Gf256x2.Lift.{lift}
use mqom_rs.Blc.Commit.{SigningCommitment, open_commitment}
use mqom_rs.Blc.Commit.Total.{commit_total}
use mqom_rs.Blc.Evaluate.{OpenedEvaluations, evaluate_opening}
use mqom_rs.Blc.Line.Lists.{x_lines, u_lines}
use mqom_rs.Blc.Line.Accepted.{evaluate_opening-line}

abbrev master_seed : List U8
master_seed = filled seed_size (to_u8 1)

abbrev salt : List U8
salt = filled 16 (to_u8 2)

abbrev secret : List Gf16
secret = filled mq_n Gf16.one

-- One hidden leaf for each execution, the first and the last leaf among them.
abbrev indices : List ℕ
indices = 0 ∷ 2047 ∷ 1 ∷ 1024 ∷ 5 ∷ 6 ∷ 700 ∷ 8 ∷ 2046 ∷ 10 ∷ 11 ∷ 1023 ∷ []

indices_below : all_below tau (λ k. ltb (get_or indices k 0) nb_evals) ≡ true
unfolding all_below
indices_below = refl

indices_small : (j : ℕ) → j < tau → get_or indices j 0 < nb_evals
indices_small j lt =
    ltb→lt (get_or indices j 0) nb_evals
      (all_below_sound tau (λ k. ltb (get_or indices k 0) nb_evals) j indices_below lt)

abbrev committed : SigningCommitment ⦃c = toy⦄
committed =
    (commit_total ⦃c = toy⦄ master_seed salt secret (length-filled seed_size (to_u8 1))
      (length-filled mq_n Gf16.one)).0

evaluate_opening-line_example :
    (opening : List U8) × (opened : OpenedEvaluations ⦃c = toy⦄) × (open_commitment ⦃c = toy⦄
        committed indices
      ≡ some opening)
    × (length opening ≡ opening_size)
    × (evaluate_opening ⦃c = toy⦄ salt committed.commitment opening indices ≡ some opened)
    × (opened.x ≡ x_lines (map lift secret) indices committed.x_zero)
    × (opened.u ≡ u_lines indices committed.u_zero committed.u_one)
evaluate_opening-line_example =
    evaluate_opening-line ⦃c = toy⦄ master_seed salt secret (length-filled seed_size (to_u8 1))
      (length-filled mq_n Gf16.one) committed indices
      (commit_total ⦃c = toy⦄ master_seed salt secret (length-filled seed_size (to_u8 1))
        (length-filled mq_n Gf16.one)).1
      refl indices_small
