-- ===== src/Blc/Tree/Path.antt =====
-- `opening_path` writes the siblings on the way from a leaf to the root, and returns the leaf.
use mqom_rs.Base.{
  ℕ, zero, suc, ◌+◌, ◌-◌, ◌*◌, ◌/◌, ◌%◌, ◌^◌, ◌<◌, bit_and, bit_xor, ◌≡◌, refl, sym, ap, ap₂, ◌∙◌,
  arith, U8, some, List, [], ◌∷◌, ◌++◌, length, take, drop, ◌==◌, ==_iff, if◌then◌else◌,
  length-append, length-take, length-drop, take-append-drop, lt→ltb, and_mask, true, false,
}
use mathlib.Core.List.{append_assoc, append-nil}
use native.Mathlib.Decide.{dec_lt}
use mqom_rs.Bytes.{xor_zip, write_at, write_at-append}
use mqom_rs.Params.{nb_evals, nb_evals_log}
use mqom_rs.Crates.{Crates}
use mqom_rs.Blc.{path_size_per_execution}
use mqom_rs.Blc.Tree.{left_child, path_loop, opening_path}
use mqom_rs.Blc.Tree.Node.{
  sibling_half, sibling_side, above, above-suc, left_of, tree_node, tree_node-left, tree_node-right,
  length-tree_node,
}

module _ ⦃c : Crates⦄ (salt root_seed delta : List U8) (execution : ℕ)
    (root_block : length root_seed ≡ 16) (delta_block : length delta ≡ 16) where
  abbrev pub tree : ℕ → ℕ → List U8
  tree depth i = tree_node salt root_seed delta execution depth i

  -- The siblings from `height` levels above the leaf to the children of the root, of which there are
  -- `depth`.
  abbrev pub path_to : ℕ → ℕ → ℕ → List U8
  path_to leaf height zero = []
  path_to leaf height (suc depth) =
      tree (suc depth) (bit_xor (above leaf height) 1) ++ path_to leaf (suc height) depth

  left_child-some :
      (depth : ℕ) (parent : List U8)
      → depth < 2 ^ 16
      → left_child salt root_seed execution depth parent
        ≡ some (left_of salt root_seed delta execution depth parent)
  unfolding left_child
  left_child-some zero parent h = refl
  left_child-some (suc depth) parent h =
      let previous : suc depth - 1 ≡ depth = omega arith in
      rw (previous, left_child, lt→ltb depth (2 ^ 16) (omega arith))

  abbrev sides : ℕ → List U8 → List U8 → List U8 × List U8
  sides a left right = if bit_and a 1 == 0 then (left, right) else (right, left)

  -- What one round selects, and what it writes.
  sides_lem :
      (depth a : ℕ)
      → sides a (left_of salt root_seed delta execution depth (tree depth (a / 2))) (
          xor_zip
            (left_of salt root_seed delta execution depth (tree depth (a / 2)))
            (tree depth (a / 2)))
        ≡ (tree (suc depth) a, tree (suc depth) (bit_xor a 1))
  sides_lem depth a = elim (dec_lt (a % 2) 1) [
    | yes even ↦
        let bit : (bit_and a 1 == 0) ≡ true =
          (==_iff (bit_and a 1) 0).1 (omega (arith, and_mask 1 a)) in
        rw bit (
          ap₂ (λ s t. (s, t))
            (sym (tree_node-left salt root_seed delta execution depth a (omega arith)))
            (ap
                (λ q.
                  xor_zip (left_of salt root_seed delta execution depth (tree depth q))
                    (tree depth q))
                (sym (sibling_half a))
              ∙ sym (
                  tree_node-right salt root_seed delta execution depth (bit_xor a 1)
                    (omega (arith, sibling_side a)))))
    | no odd ↦
        let bit : (bit_and a 1 == 0) ≡ false = is_odd (bit_and a 1) (omega (arith, and_mask 1 a)) in
        rw bit (
          ap₂ (λ s t. (s, t))
            (sym (tree_node-right salt root_seed delta execution depth a (omega arith)))
            (ap (λ q. left_of salt root_seed delta execution depth (tree depth q))
                (sym (sibling_half a))
              ∙ sym (
                  tree_node-left salt root_seed delta execution depth (bit_xor a 1)
                    (omega (arith, sibling_side a)))))
  ]
    where
      is_odd : (b : ℕ) → b ≡ 1 → (b == 0) ≡ false
      is_odd b e = rw e

  -- A round writes before what is written.
  write_before :
      (h : ℕ) (before after sibling : List U8)
      → length before ≡ suc h * 16
      → length sibling ≡ 16
      → write_at (before ++ after) (h * 16) sibling ≡ take (h * 16) before ++ (sibling ++ after)
  write_before h before after sibling e f =
      ap₂ (λ xs k. write_at xs k sibling)
        (ap (λ b. b ++ after) (sym (take-append-drop (h * 16) before))
          ∙ append_assoc (take (h * 16) before) (drop (h * 16) before) after)
        (sym kept)
      ∙ write_at-append (take (h * 16) before) (drop (h * 16) before) after sibling
          (omega (arith, length-drop (h * 16) before, f))
    where
      kept : length (take (h * 16) before) ≡ h * 16
      kept = omega (arith, length-take (h * 16) before)

  path_loop_lem :
      (leaf depth height : ℕ) (before : List U8)
      → height + depth ≡ 11
      → length before ≡ height * 16
      → path_loop salt root_seed execution leaf depth height
          (tree depth (above leaf height))
          (before ++ path_to leaf height depth)
        ≡ some (tree 11 (above leaf 0), path_to leaf 0 11)
  unfolding path_loop
  path_loop_lem leaf depth zero [] e f = let whole : depth ≡ 11 = omega arith in rw whole
  path_loop_lem leaf depth zero (x ∷ before) e f = absurd (omega arith)
  path_loop_lem leaf depth (suc h) before e f =
      rw
        (
          left_child-some depth (tree depth (above leaf (suc h))) (omega arith),
          path_loop,
          index,
          above-suc leaf h,
          sides_lem depth (above leaf h),
          write_before h before (path_to leaf (suc h) depth)
              (tree (suc depth) (bit_xor (above leaf h) 1)) f
              (length-tree_node salt root_seed delta execution root_block delta_block (suc depth)
                (bit_xor (above leaf h) 1)),
          next,
        )
        (path_loop_lem leaf (suc depth) h (take (h * 16) before) (omega arith)
          (omega (arith, length-take (h * 16) before)))
    where
      index : nb_evals_log - 1 - depth ≡ h
      index = omega arith

      next : depth + 1 ≡ suc depth
      next = omega arith

  -- The path of a leaf has 176 bytes.
  pub length-path_to : (leaf height depth : ℕ) → length (path_to leaf height depth) ≡ depth * 16
  length-path_to leaf height zero = refl
  length-path_to leaf height (suc depth) = omega (
    arith,
    length-append (tree (suc depth) (bit_xor (above leaf height) 1))
        (path_to leaf (suc height) depth),
    length-path_to leaf (suc height) depth,
    length-tree_node salt root_seed delta execution root_block delta_block (suc depth)
        (bit_xor (above leaf height) 1),
  )

  -- `opening_path` succeeds on every index below 2048, with the path of the leaf and its seed.
  pub opening_path_total :
      (h : ℕ) (path : List U8)
      → h < nb_evals
      → length path ≡ path_size_per_execution
      → opening_path salt root_seed delta execution h path
        ≡ some (tree 11 (above (nb_evals + h) 0), path_to (nb_evals + h) 0 11)
  unfolding opening_path tree_node
  opening_path_total h path lt e =
      rw (lt→ltb h nb_evals lt, opening_path, (==_iff (length path) path_size_per_execution).1 e)
        (ap (path_loop salt root_seed execution (nb_evals + h) 0 nb_evals_log delta)
            (sym (append-nil path))
          ∙ path_loop_lem (nb_evals + h) 0 11 path refl e)
