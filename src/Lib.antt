-- ===== src/Lib.antt =====
-- mqom-rs, a Rust implementation of the signature scheme MQOM v2.1.1 in the profile
-- MQOM2-L1-gf16-short-r5: the parts of the crate on which signing and verification stand.
--
-- The program and the files that model it:
--   src/params.rs   Params: the constants of the profile.
--   src/field.rs    Field: GF(16) (Field.Gf16), GF(256) (Field.Gf256), GF(256^2) (Field.Gf256x2),
--                   each with its type and operators in Element or Rounds, and the packed encoding
--                   `unpack_gf16`, `pack_gf16` (Field.Packing). Field.Ring is the interface of the
--                   three fields that the other parts use.
--   src/xof.rs      Xof: the SHAKE128 helper.
--   src/prg.rs      Prg: tweaks, seed derivation, and the generator.
--   src/mq.rs       Mq: the packed equations, their products, evaluation, and expansion.
--   src/keygen.rs   Keygen: the key pair of a seed, and the check of a secret key.
--   src/blc.rs      Blc: the line commitment. Blc.Tree has the seed trees with their full
--                   expansion, the opening path and the partial expansion, Blc.Gray the Gray code,
--                   Blc.Fold the parts that both sides share, Blc.Commit `commit` and `open`, and
--                   Blc.Evaluate `evaluate_opening`. Blc.Tree.Node describes the seeds of a tree by
--                   depth and index; Full, Path, and Placed, Round, Partial, Depths compare the
--                   functions with it. Blc.Line compares `commit` with `evaluate_opening`: Execution and Shown
--                   are the two sides of one execution, Hidden what its hidden leaf changes, Opening its
--                   result, All and Batch all executions, and Accepted the contract.
--   src/verify.rs   Verify: the challenge, the recomputation of alpha_zero, and `verify`.
--   src/sign.rs     Sign: alpha, the search for a nonce, and `sign`. Sign.Equations, Masked, Batching,
--                   Executions and Alpha compare alpha with the verifier's; Encoding, Written and Layout
--                   are about the bytes of a signature, Public about those of the public key; Accepted
--                   and Transcript are the verifier and the signer on such bytes, Challenge is the
--                   search, and Complete puts them together.
--   src/mqom2_l1_gf16_short_r5/mod.rs
--                   Api: the errors and results of the profile, with its types in Api.VerifyingKey,
--                   Api.Signature and Api.SigningKey; Api.Import, Api.Generate and Api.Sign are about
--                   the imports, `generate` and `try_sign_with_rng`, Api.Complete about its success.
--   xtask/src/main.rs
--                   Xtask.Hex: the reader and the writer of hexadecimal texts; Hex.Digits is about one
--                   digit, Hex.RoundTrip about texts. Xtask.Drbg: `KatDrbg`, the generator of the known
--                   answers; Drbg.Counter is about its counter, Drbg.Stream about the blocks that it
--                   encrypts, Drbg.State about its states, and Drbg.Rng makes it a randomness source of
--                   the public API.
-- A seed is expanded by the sponge to a secret vector and a master seed, the master seed by sponge
-- and generator to the equations, and the equations are evaluated at the secret vector; the public
-- key is the master seed with the encoded values. A commitment hides seeds behind trees; the verifier
-- expands the opened trees, evaluates the committed lines at the challenge, and checks the equations
-- there. The signer commits, computes the equations along the lines, searches a nonce, opens, and runs
-- the verifier on the result. The public API wraps byte arrays, draws seeds from the caller's randomness
-- source, and turns each failure into an error value.
--
-- How the code is read. A `u8` is a record of a number and its bound (Base.Word); wider integers are
-- numbers with the wrap-around or the check of the source written out. A slice or an array is a list;
-- where the source has an array type, the length is a hypothesis. A function that writes to an output
-- slice takes the old contents and returns the new ones, beside its Boolean. `Option` with `?` is a
-- do block. The loops run on the number of rounds left, which the source fixes, so that no fuel is
-- needed. A loop over `zip` stops at the shorter list.
--
-- The crates sha3, aes and subtle are not read: Crates is a record of their types and operations with
-- what their documentation says, which every part takes as an instance argument. Toy is a concrete
-- one, at which the tests run. A randomness source of the crate rand_core is likewise the record
-- Api.TryCryptoRng, whose state a call takes and returns, and the block cipher AES-256 the record
-- Xtask.Drbg.Aes256. `signature::Error` is a value without content, and an error that xtask writes as a
-- text is a constructor.
--
-- `SigningCommitment::open` is `open_commitment` here. The search for a nonce has 2^32 rounds, as in the
-- source. Not modelled: zeroization, the clearing of dropped values and constant time, which have no
-- values; the formatters `Debug` and `Display`; of the task runner in xtask, what runs processes, reads
-- and writes files and compares the known answers in them; the benchmark and the fuzz targets.
pub mod Base
pub mod Bytes
pub mod Crates
pub mod Params
pub mod Field
pub mod Toy
pub mod Xof
pub mod Prg
pub mod Mq
pub mod Keygen
pub mod Blc
pub mod Verify
pub mod Sign
pub mod Api
pub mod Xtask
