-- ===== src/Keygen/Generate.antt =====
-- Key generation always returns a pair.
use mqom_rs.Base.{
  ℕ, ◌+◌, ◌≤◌, ◌≡◌, sym, ap, ap₂, ◌∙◌, arith, U8, some, List, [], ◌++◌, length, drop, true,
  length-drop,
}
use mathlib.Core.List.{append-nil}
use mqom_rs.Bytes.{filled, length-filled, try_into-some, write_at, write_at-append}
use mqom_rs.Params.{mq_n, public_key_size, secret_key_size}
use mqom_rs.Crates.{Crates}
use mqom_rs.Field.Packing.{zero_byte, unpack_gf16}
use mqom_rs.Field.Packing.Laws.{halves, unpack_gf16-eq_halves}
use mqom_rs.Field.Gf16.Element.{Gf16}
use mqom_rs.Field.Gf16.Element as Gf16
use mqom_rs.Mq.{equation_count}
use mqom_rs.Keygen.{keygen_seed_size, output_loop, keypair_from_seed}
use mqom_rs.Keygen.Outputs.{
  output_loop-outputs, packed_secret, master_seed_of, public_key_of, sizes, length-public_key_of,
}

-- Writing at the start of an array.
pub write_first :
    (n : ℕ) (new : List U8)
    → length new ≤ n
    → write_at (filled n zero_byte) 0 new ≡ new ++ drop (length new) (filled n zero_byte)
unfolding write_at
write_first n new h =
    ap (λ k. new ++ drop k (filled n zero_byte)) {x = 0 + length new} {y = length new} (omega arith)

-- The unpacked bytes of a secret vector of 28 bytes.
pub unpack_secret :
    (bytes : List U8)
    → length bytes ≡ 28
    → unpack_gf16 bytes (filled mq_n Gf16.zero) ≡ (true, halves bytes)
unpack_secret bytes e =
    unpack_gf16-eq_halves bytes (filled mq_n Gf16.zero)
      (omega (arith, length-filled mq_n Gf16.zero)) (omega (arith, length-filled mq_n Gf16.zero))

module _ ⦃c : Crates⦄ (seed : List U8) where
  public_loop :
      output_loop
        (master_seed_of seed)
        (halves (packed_secret seed))
        0
        equation_count
        (write_at (filled public_key_size zero_byte) 0 (master_seed_of seed))
      ≡ some (public_key_of seed)
  public_loop =
      ap (output_loop (master_seed_of seed) (halves (packed_secret seed)) 0 equation_count)
        (write_first public_key_size (master_seed_of seed) (omega (arith, sizes seed)))
      ∙ output_loop-outputs (master_seed_of seed) (halves (packed_secret seed)) 0 equation_count
          (master_seed_of seed)
          (drop (length (master_seed_of seed)) (filled public_key_size zero_byte))
          (omega (arith, sizes seed))
          (omega (
            arith,
            sizes seed,
            length-drop (length (master_seed_of seed)) (filled public_key_size zero_byte),
            length-filled public_key_size zero_byte,
          ))
          (omega arith)

  secret_write :
      write_at
        (write_at (filled secret_key_size zero_byte) 0 (public_key_of seed))
        public_key_size
        (packed_secret seed)
      ≡ public_key_of seed ++ packed_secret seed
  secret_write =
      ap₂ (λ xs k. write_at xs k (packed_secret seed))
        (write_first secret_key_size (public_key_of seed) (omega (arith, length-public_key_of seed))
          ∙ ap (◌++◌ (public_key_of seed)) (sym (append-nil old)))
        (sym (length-public_key_of seed))
      ∙ write_at-append (public_key_of seed) old [] (packed_secret seed) (
          omega (
            arith,
            sizes seed,
            length-public_key_of seed,
            length-drop (length (public_key_of seed)) (filled secret_key_size zero_byte),
            length-filled secret_key_size zero_byte,
          ))
      ∙ ap (◌++◌ (public_key_of seed)) (append-nil (packed_secret seed))
    where
      old : List U8
      old = drop (length (public_key_of seed)) (filled secret_key_size zero_byte)

  -- Every seed gives a key pair: the public key is the master seed with the outputs of the
  -- equations, and the secret key is the public key with the packed secret vector.
  pub keypair_from_seed_total :
      keypair_from_seed seed ≡ some (public_key_of seed ++ packed_secret seed, public_key_of seed)
  unfolding keypair_from_seed
  keypair_from_seed_total = rw (
    unpack_secret (packed_secret seed) (sizes seed).0,
    keypair_from_seed,
    try_into-some keygen_seed_size (master_seed_of seed) (sizes seed).1,
    public_loop,
    secret_write,
  )
