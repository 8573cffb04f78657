-- ===== src/Blc/Commit/Tests.antt =====
-- `commit` at a concrete seed and secret and the concrete crates.
use mqom_rs.Base.{◌≡◌, U8, to_u8, some, List, length, take}
use mqom_rs.Bytes.{filled, length-filled}
use mqom_rs.Params.{mq_n, tau, seed_size}
use mqom_rs.Toy.{toy}
use mqom_rs.Field.Packing.Laws.{packed}
use mqom_rs.Field.Gf16.Element.{Gf16}
use mqom_rs.Field.Gf16.Element as Gf16
use mqom_rs.Blc.Commit.{SigningCommitment, commit}
use mqom_rs.Blc.Commit.Total.{commit_total}

abbrev master_seed : List U8
master_seed = filled seed_size (to_u8 1)

abbrev salt : List U8
salt = filled 16 (to_u8 2)

abbrev secret : List Gf16
secret = filled mq_n Gf16.one

commit_total_example :
    (committed : SigningCommitment ⦃c = toy⦄) × (commit ⦃c = toy⦄ master_seed salt secret
      ≡ some committed)
    × (length committed.x_zero ≡ tau)
    × (length committed.u_zero ≡ tau)
    × (length committed.u_one ≡ tau)
    × (length committed.root_seeds ≡ tau)
    × (length committed.partial_deltas ≡ tau)
    × (committed.salt ≡ salt)
    × (committed.delta ≡ take seed_size (packed secret))
commit_total_example =
    commit_total ⦃c = toy⦄ master_seed salt secret (length-filled seed_size (to_u8 1))
      (length-filled mq_n Gf16.one)
