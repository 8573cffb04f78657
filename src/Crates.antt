-- ===== src/Crates.antt =====
-- The third-party crates that the sources call: `sha3`, `aes` and `subtle`. Each stands here as a
-- type with the operations that are called, and with the behaviour that their documentation gives.
use mqom_rs.Base.{ℕ, ◌≡◌, ◌↔◌, Bool, true, List, [], ◌++◌, length, U8}

pub record Crates : Type 1 where
  -- sha3::Shake128
  pub Shake128 : Type 0
  pub default : Shake128
  pub update : Shake128 → List U8 → Shake128
  pub read : Shake128 → ℕ → List U8
  pub length-read : (state : Shake128) (n : ℕ) → length (read state n) ≡ n
  pub update-nil : (state : Shake128) → update state [] ≡ state
  pub update-append :
      (state : Shake128) (a b : List U8) → update (update state a) b ≡ update state (a ++ b)
  -- aes::Aes128
  pub Aes128 : Type 0
  pub new_cipher : List U8 → Aes128
  pub encrypt_block : Aes128 → List U8 → List U8
  pub length-encrypt_block :
      (cipher : Aes128) (block : List U8) → length (encrypt_block cipher block) ≡ length block
  -- subtle::ConstantTimeEq on byte slices
  pub ct_eq : List U8 → List U8 → Bool
  pub ct_eq_iff : (a b : List U8) → (ct_eq a b ≡ true) ↔ (a ≡ b)
