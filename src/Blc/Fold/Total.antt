-- ===== src/Blc/Fold/Total.antt =====
-- The shared parts of the line commitment succeed on the sizes of the profile.
use mqom_rs.Base.{
  ℕ, zero, suc, ◌^◌, bit_xor, ◌*◌, ◌<◌, ◌≡◌, ◌≢◌, sym, ap, ◌∙◌, arith, U8, some, List, [], length,
  set, get_or, ==_iff, length-set, get_or-set_same, get_or-set_other, ◌⊎◌, inl, inr,
}
use mqom_rs.Bytes.{filled, length-filled, xor_zip, length-xor_zip}
use mqom_rs.Params.{nb_evals, nb_evals_log}
use mqom_rs.Crates.{Crates}
use mqom_rs.Xof.{Shake128State}
use mqom_rs.Field.Packing.{zero_byte}
use mqom_rs.Blc.{expanded_leaf_size}
use mqom_rs.Blc.Gray.{gray, next_index, gray_code_bit_position_total}
use mqom_rs.Blc.Fold.{
  read_elements, parse_extension_vector, xor_bytes, LeafState, fold_leaf, initial_state,
}

pub xor_bytes_total : (a b : List U8) → length a ≡ length b → xor_bytes a b ≡ some (xor_zip a b)
unfolding xor_bytes
xor_bytes_total a b e = rw ((==_iff (length a) (length b)).1 e)

pub parse_extension_vector_total :
    (n : ℕ) (bytes : List U8)
    → length bytes ≡ n * 2
    → parse_extension_vector n bytes ≡ some (read_elements bytes 0 n)
unfolding parse_extension_vector
parse_extension_vector_total n bytes e = rw ((==_iff (length bytes) (n * 2)).1 e)

-- All vectors of a list have the size of an expanded leaf.
abbrev pub AllLeafSized : List (List U8) → Type 0
AllLeafSized vectors =
    (k : ℕ) → k < length vectors → length (get_or vectors k []) ≡ expanded_leaf_size

module _ ⦃c : Crates⦄ where
  -- The accumulator and the folded vectors have their sizes.
  abbrev pub IsSized : LeafState → Type 0
  IsSized state =
      (length state.accumulator ≡ expanded_leaf_size)
      × (length state.folding ≡ nb_evals_log)
      × AllLeafSized state.folding

  filled_sized :
      (n k : ℕ) (vector : List U8)
      → length vector ≡ expanded_leaf_size
      → k < n
      → length (get_or (filled n vector) k []) ≡ expanded_leaf_size
  unfolding filled
  filled_sized zero k vector e h = absurd (omega arith)
  filled_sized (suc n) zero vector e h = e
  filled_sized (suc n) (suc k) vector e h = filled_sized n k vector e (omega arith)

  pub initial_state-IsSized : (hash : Shake128State) → IsSized (initial_state hash)
  unfolding initial_state
  initial_state-IsSized hash = (
    length-filled expanded_leaf_size zero_byte,
    length-filled nb_evals_log zeros,
    λ k lt.
        filled_sized nb_evals_log k zeros (length-filled expanded_leaf_size zero_byte)
          (omega (arith, lt, length-filled nb_evals_log zeros)),
  )
    where
      zeros : List U8
      zeros = filled expanded_leaf_size zero_byte

  set_sized :
      (vectors : List (List U8)) (i : ℕ) (v : List U8)
      → length v ≡ expanded_leaf_size
      → AllLeafSized vectors
      → AllLeafSized (set vectors i v)
  set_sized vectors i v e sized k lt = elim (equal_or i k) [
    | inl q ↦
        ap (λ n. length (get_or (set vectors n v) k [])) q
        ∙ ap length (get_or-set_same vectors k v [] (omega (arith, lt, length-set vectors i v)))
        ∙ e
    | inr ne ↦
        ap length (get_or-set_other vectors i k v [] ne)
        ∙ sized k (omega (arith, lt, length-set vectors i v))
  ]
    where
      equal_or : (a b : ℕ) → (a ≡ b) ⊎ (a ≢ b)
      equal_or a b = ground arith

  -- The state after a leaf that goes into one of the vectors.
  abbrev pub folded_at : ℕ → List U8 → Shake128State → LeafState → LeafState
  folded_at position expanded hash state =
      let summed = xor_zip state.accumulator expanded in
      record {
        commitment_hash = hash;
        accumulator = summed;
        folding = set state.folding position (xor_zip (get_or state.folding position []) summed);
      }

  -- A round over an expanded leaf succeeds and keeps the sizes; the leaf goes into the vector of the
  -- bit in which the Gray code changes.
  pub fold_leaf_at :
      (index : ℕ) (expanded : List U8) (hash : Shake128State) (state : LeafState)
      → index < nb_evals
      → length expanded ≡ expanded_leaf_size
      → IsSized state
      → (position : ℕ) × (position < nb_evals_log)
        × (bit_xor (gray index) (gray (next_index index)) ≡ 2 ^ position)
        × (fold_leaf index expanded hash state ≡ some (folded_at position expanded hash state))
        × IsSized (folded_at position expanded hash state)
  unfolding fold_leaf
  fold_leaf_at index expanded hash state lt size (acc, count, sized) =
      let (position, found, small, bit) = gray_code_bit_position_total index lt in
      let summed = xor_zip state.accumulator expanded in
      let summed_size : length summed ≡ expanded_leaf_size =
        length-xor_zip state.accumulator expanded ∙ acc in
      let old : length (get_or state.folding position []) ≡ expanded_leaf_size =
        sized position (omega (arith, small, count)) in
      (
        position,
        small,
        bit,
        rw (
          xor_bytes_total state.accumulator expanded (acc ∙ sym size),
          fold_leaf,
          found,
          xor_bytes_total (get_or state.folding position []) summed (old ∙ sym summed_size),
        ),
        (
          summed_size,
          length-set state.folding position _ ∙ count,
          set_sized state.folding position (xor_zip (get_or state.folding position []) summed)
              (length-xor_zip (get_or state.folding position []) summed ∙ old) sized,
        ),
      )

  pub fold_leaf_total :
      (index : ℕ) (expanded : List U8) (hash : Shake128State) (state : LeafState)
      → index < nb_evals
      → length expanded ≡ expanded_leaf_size
      → IsSized state
      → (next : LeafState) × (fold_leaf index expanded hash state ≡ some next) × IsSized next
  fold_leaf_total index expanded hash state lt size sized =
      let (position, _, _, run, kept) = fold_leaf_at index expanded hash state lt size sized in
      (folded_at position expanded hash state, run, kept)
