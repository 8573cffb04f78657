-- ===== src/Blc/Line/Execution.antt =====
-- One execution on both sides: what `commit` keeps, and what `evaluate_opening` makes of its opening.
use mqom_rs.Base.{
  ℕ, ◌^◌, ◌<◌, ◌≡◌, ◌∙◌, arith, U8, some, List, length, take, drop, slice, lt→ltb, ==_iff,
  length-take, length-drop, length-map,
}
use mqom_rs.Bytes.{filled, length-filled, xor_zip}
use mqom_rs.Params.{mq_n, eta, nb_evals, seed_size}
use mqom_rs.Crates.{Crates}
use mqom_rs.Xof.{new_state, absorb, squeeze}
use mqom_rs.Mq.{domain}
use mqom_rs.Prg.{Generator, new_generator}
use mqom_rs.Field.Gf256x2.Element.{Gf256x2}
use mqom_rs.Field.Gf256x2.Element as Gf256x2
use mqom_rs.Field.Gf256x2.Laws.{gf256x2_ring}
use mqom_rs.Blc.{commitment_size, base_vector_size, leaf_prg_size, leaf_offset}
use mqom_rs.Blc.Tree.{Nodes, SeedCommitter, new_committer, fully_expand_tree}
use mqom_rs.Blc.Fold.{LeafState, initial_state}
use mqom_rs.Blc.Fold.Total.{AllLeafSized, initial_state-IsSized, parse_extension_vector_total}
use mqom_rs.Blc.Commit.{Committed, commit_execution}
use mqom_rs.Blc.Commit.Leaves.{leaves_lem, AllSeeds, Fills, generator_total}
use mqom_rs.Blc.Line.Functional.{base_part, mask_part}
use mqom_rs.Blc.Line.Folding.{fold_onto, add_folded-fold_onto}
use mqom_rs.Blc.Line.Rounds.{fold_rounds, Ran, fold_rounds_lem, expansions}
use mqom_rs.Blc.Line.Leaves.{rounds_of, rounds_of-sized, commit_leaves-fold_rounds}

-- The inputs of one execution, of the sizes of the profile.
pub record Run : Type 0 where
  pub salt : List U8
  pub serialized : List U8
  pub root_seed : List U8
  pub execution : ℕ
  pub serialized_size : length serialized ≡ base_vector_size
  pub root_block : length root_seed ≡ 16
  pub small : execution < 256

abbrev pub run_at :
    (salt serialized : List U8) (serialized_size : length serialized ≡ base_vector_size)
    (root_seed : List U8) (execution : ℕ)
    → length root_seed ≡ 16
    → execution < 256
    → Run
run_at salt serialized serialized_size root_seed execution root_block small = record {
  salt = salt;
  serialized = serialized;
  root_seed = root_seed;
  execution = execution;
  serialized_size = serialized_size;
  root_block = root_block;
  small = small;
}

module _ ⦃c : Crates⦄ (run : Run) where
  abbrev pub delta : List U8
  delta = take seed_size run.serialized

  pub delta_block : length delta ≡ 16
  delta_block = omega (arith, length-take seed_size run.serialized, run.serialized_size)

  abbrev pub committer : SeedCommitter
  committer = new_committer run.salt run.execution

  abbrev pub made :
      (generator : Generator) × (new_generator run.salt run.execution leaf_prg_size
        ≡ some generator)
      × Fills generator
  made = generator_total run.salt run.execution

  abbrev pub leaves : Nodes
  leaves = drop leaf_offset (fully_expand_tree run.salt run.root_seed delta run.execution)

  pub leaves_laws : (length leaves ≡ nb_evals) × AllSeeds leaves
  leaves_laws = leaves_lem run.salt run.root_seed delta run.execution run.root_block delta_block

  abbrev pub rounds : List (List U8 × List U8)
  rounds = rounds_of committer made.0 made.2 leaves

  pub length-rounds : length rounds ≡ nb_evals
  length-rounds = length-map _ leaves ∙ leaves_laws.0

  pub rounds_sized : AllLeafSized (expansions rounds)
  rounds_sized = rounds_of-sized committer made.0 made.2 leaves leaves_laws.1

  abbrev pub start : LeafState
  start = initial_state (absorb new_state (domain 0x06))

  pub honest :
      (done : LeafState) × (fold_rounds 0 rounds start ≡ some done) × Ran 0 rounds start done
  honest =
      fold_rounds_lem 0 rounds start (omega (arith, length-rounds)) rounds_sized
        (initial_state-IsSized (absorb new_state (domain 0x06)))

  abbrev pub no_x : List Gf256x2
  no_x = filled mq_n Gf256x2.zero

  abbrev pub no_u : List Gf256x2
  no_u = filled eta Gf256x2.zero

  abbrev pub committed_of : LeafState → Committed
  committed_of done = record {
    x_zero = fold_onto base_part done.folding 0 no_x;
    u_zero = fold_onto mask_part done.folding 0 no_u;
    u_one = mask_part done.accumulator;
    partial_delta =
        xor_zip (drop seed_size run.serialized) (slice seed_size base_vector_size done.accumulator);
    leaf_commitment_hash = squeeze done.commitment_hash commitment_size;
  }

  pub commit_execution_lem :
      commit_execution run.salt delta run.serialized run.execution run.root_seed
      ≡ some (committed_of honest.0)
  unfolding commit_execution
  commit_execution_lem = rw (
    lt→ltb run.execution (2 ^ 8) run.small,
    commit_execution,
    (==_iff (length leaves) nb_evals).1 leaves_laws.0,
    made.1,
    commit_leaves-fold_rounds committer made.0 made.2 0 leaves start leaves_laws.1,
    honest.1,
    add_folded-fold_onto honest.0.folding 0 no_x no_u honest.2.0.2 (length-filled mq_n Gf256x2.zero)
        (length-filled eta Gf256x2.zero),
    parse_extension_vector_total eta (drop base_vector_size honest.0.accumulator)
        (omega (arith, honest.2.0.0, length-drop base_vector_size honest.0.accumulator)),
  )

  abbrev pub committed : Committed
  committed = committed_of honest.0
