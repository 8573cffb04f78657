-- ===== src/Xof.antt =====
-- src/xof.rs: the SHAKE128 transcript helper, over the hasher of the `sha3` crate. `squeeze` takes
-- the length of the output slice and returns what it writes.
mod Tests
use mqom_rs.Base.{ℕ, ◌≡◌, sym, ap, ◌∙◌, List, [], ◌∷◌, ◌++◌, length, U8}
use mqom_rs.Crates.{Crates}

module _ ⦃c : Crates⦄ where
  abbrev pub Shake128State : Type 0
  Shake128State = c.Shake128

  -- `Shake128State::new`.
  unfoldable pub new_state : Shake128State
  new_state = c.default

  unfoldable pub absorb : Shake128State → List U8 → Shake128State
  absorb state input = c.update state input

  unfoldable pub squeeze : Shake128State → ℕ → List U8
  squeeze state n = c.read state n

  unfoldable pub absorb_all : Shake128State → List (List U8) → Shake128State
  absorb_all state [] = state
  absorb_all state (part ∷ parts) = absorb_all (absorb state part) parts

  unfoldable pub shake128 : List (List U8) → ℕ → List U8
  shake128 parts n = squeeze (absorb_all new_state parts) n

  abbrev pub joined : List (List U8) → List U8
  joined [] = []
  joined (part ∷ parts) = part ++ joined parts

  pub absorb-append :
      (state : Shake128State) (a b : List U8) → absorb (absorb state a) b ≡ absorb state (a ++ b)
  unfolding absorb
  absorb-append state a b = c.update-append state a b

  -- Absorbing the parts one by one is absorbing their concatenation.
  pub absorb_all-joined :
      (state : Shake128State) (parts : List (List U8))
      → absorb_all state parts ≡ absorb state (joined parts)
  unfolding absorb_all
  absorb_all-joined state [] = unfold absorb in sym (c.update-nil state)
  absorb_all-joined state (part ∷ parts) =
      absorb_all-joined (absorb state part) parts ∙ absorb-append state part (joined parts)

  pub length-squeeze : (state : Shake128State) (n : ℕ) → length (squeeze state n) ≡ n
  unfolding squeeze
  length-squeeze state n = c.length-read state n

  pub length-shake128 : (parts : List (List U8)) (n : ℕ) → length (shake128 parts n) ≡ n
  unfolding shake128 squeeze
  length-shake128 parts n = c.length-read (absorb_all new_state parts) n

  -- The digest of parts has the length that is asked for, and is what the hasher, fresh and updated once
  -- with the concatenation of all parts in their order, reads.
  pub shake128-joined :
      (parts : List (List U8)) (n : ℕ)
      → (shake128 parts n ≡ c.read (c.update c.default (joined parts)) n)
        × (length (shake128 parts n) ≡ n)
  unfolding shake128 absorb squeeze new_state
  shake128-joined parts n = (
    ap (λ s. c.read s n) (absorb_all-joined c.default parts),
    c.length-read (absorb_all c.default parts) n,
  )
