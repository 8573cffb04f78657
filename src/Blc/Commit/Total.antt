-- ===== src/Blc/Commit/Total.antt =====
-- `commit` succeeds on every secret vector and seed of the profile.
use mqom_rs.Base.{◌≡◌, U8, some, List, length, take}
use mqom_rs.Params.{mq_n, tau, seed_size}
use mqom_rs.Crates.{Crates}
use mqom_rs.Field.Packing.Laws.{packed}
use mqom_rs.Field.Gf16.Element.{Gf16}
use mqom_rs.Blc.Commit.{SigningCommitment, commit}
use mqom_rs.Blc.Line.Accepted.{committed_lem}

module _ ⦃c : Crates⦄ where
  -- For a master seed of 16 bytes and a secret vector of 56 elements, `commit` succeeds, with one
  -- entry for each of the 12 executions, and keeps the salt and the first 16 bytes of the packed
  -- secret vector.
  pub commit_total :
      (master_seed salt : List U8) (secret : List Gf16)
      → length master_seed ≡ seed_size
      → length secret ≡ mq_n
      → (committed : SigningCommitment) × (commit master_seed salt secret ≡ some committed)
        × (length committed.x_zero ≡ tau)
        × (length committed.u_zero ≡ tau)
        × (length committed.u_one ≡ tau)
        × (length committed.root_seeds ≡ tau)
        × (length committed.partial_deltas ≡ tau)
        × (committed.salt ≡ salt)
        × (committed.delta ≡ take seed_size (packed secret))
  commit_total master_seed salt secret e f =
      let (committed, run, sizes, kept, _) = committed_lem master_seed salt secret e f in
      (committed, run, sizes.0, sizes.1, sizes.2, sizes.7, sizes.8, kept.0, kept.1)
