-- ===== src/Blc/Tree/Full.antt =====
-- `fully_expand_tree` computes the described tree.
use mqom_rs.Base.{
  ℕ, zero, suc, ◌+◌, ◌-◌, ◌*◌, ◌/◌, ◌^◌, ◌≤◌, ◌<◌, ◌≡◌, refl, sym, ap, ◌∙◌, arith, U8, List, length,
  set, ◌<<<◌, length-set, get_or-set_same, get_or-set_other, ◌⊎◌, inl, inr,
}
use mathlib.Core.Path.{subst}
use native.Mathlib.Nat.{pow-suc, pow-le-pow_right}
use native.Mathlib.Decide.{dec_lt}
use mqom_rs.Bytes.{filled, length-filled, xor_zip}
use mqom_rs.Crates.{Crates}
use mqom_rs.Prg.{SeedDeriver, derive}
use mqom_rs.Blc.{zero_seed, full_tree_size}
use mqom_rs.Blc.Tree.{
  Nodes, node, with_children, depth_deriver, full_level, full_depths, fully_expand_tree,
}
use mqom_rs.Blc.Tree.Node.{
  length-with_children, left_written, right_written, others_kept, tree_node, tree_node-left,
  tree_node-right,
}

pub child_cases : (i p : ℕ) → i < p + p ⊎ (i ≡ 2 * p) ⊎ (i ≡ 2 * p + 1) ⊎ (2 * p + 2 ≤ i)
child_cases i p = ground arith

module _ ⦃c : Crates⦄ (salt root_seed delta : List U8) (execution : ℕ) where
  -- The nodes from `lo` to `hi` are those of the tree at depth `depth`.
  abbrev pub Agrees : ℕ → ℕ → ℕ → Nodes → Type 0
  Agrees depth lo hi nodes =
      (i : ℕ) → lo ≤ i → i < hi → node nodes i ≡ tree_node salt root_seed delta execution depth i

  abbrev pub tree : ℕ → ℕ → List U8
  tree depth i = tree_node salt root_seed delta execution depth i

  -- The children that a parent of the tree gets are those of the tree.
  pub left_is_tree :
      (e p : ℕ)
      → derive (depth_deriver salt execution e) (tree (suc e) p) ≡ tree (suc (suc e)) (2 * p)
  left_is_tree e p =
      ap (λ q. derive (depth_deriver salt execution e) (tree (suc e) q)) {x = p} {y = 2 * p / 2}
        (omega arith)
      ∙ sym (tree_node-left salt root_seed delta execution (suc e) (2 * p) (omega arith))

  pub right_is_tree :
      (e p : ℕ)
      → xor_zip (derive (depth_deriver salt execution e) (tree (suc e) p)) (tree (suc e) p)
        ≡ tree (suc (suc e)) (2 * p + 1)
  right_is_tree e p =
      ap (λ q. xor_zip (derive (depth_deriver salt execution e) (tree (suc e) q)) (tree (suc e) q))
        {x = p} {y = (2 * p + 1) / 2} (omega arith)
      ∙ sym (tree_node-right salt root_seed delta execution (suc e) (2 * p + 1) (omega arith))

  children_agree :
      (e p base : ℕ) (nodes : Nodes)
      → 2 * p + 1 < length nodes
      → node nodes p ≡ tree (suc e) p
      → Agrees (suc (suc e)) base (p + p) nodes
      → Agrees
          (suc (suc e))
          base
          (p + 1 + (p + 1))
          (with_children (depth_deriver salt execution e) p nodes)
  children_agree e p base nodes room here before i lo hi = elim (child_cases i p) [
    | inl low ↦
        others_kept (depth_deriver salt execution e) p nodes i (λ q. absurd (omega arith))
          (λ q. absurd (omega arith))
        ∙ before i lo low
    | inr (inl q) ↦
        ap (node (with_children (depth_deriver salt execution e) p nodes)) q
        ∙ left_written (depth_deriver salt execution e) p nodes room
        ∙ ap (derive (depth_deriver salt execution e)) here
        ∙ left_is_tree e p
        ∙ ap (tree (suc (suc e))) (sym q)
    | inr (inr (inl q)) ↦
        ap (node (with_children (depth_deriver salt execution e) p nodes)) q
        ∙ right_written (depth_deriver salt execution e) p nodes room
        ∙ ap (λ t. xor_zip (derive (depth_deriver salt execution e) t) t) here
        ∙ right_is_tree e p
        ∙ ap (tree (suc (suc e))) (sym q)
    | inr (inr (inr high)) ↦ absurd (omega arith)
  ]

  full_level-Agrees :
      (e base p left : ℕ) (nodes : Nodes)
      → base + base + (base + base) ≤ length nodes
      → base ≤ p
      → p + left ≡ base + base
      → Agrees (suc e) p (base + base) nodes
      → Agrees (suc (suc e)) (base + base) (p + p) nodes
      → Agrees
          (suc (suc e))
          (base + base)
          (base + base + (base + base))
          (full_level (depth_deriver salt execution e) p left nodes)
  unfolding full_level
  full_level-Agrees e base p zero nodes room low done parents before =
      λ i lo hi. before i lo (omega arith)
  full_level-Agrees e base p (suc left) nodes room low done parents before =
      full_level-Agrees e base (p + 1) left (with_children (depth_deriver salt execution e) p nodes)
        (omega (arith, length-with_children (depth_deriver salt execution e) p nodes)) (omega arith)
        (omega arith)
        (λ i lo hi.
          others_kept (depth_deriver salt execution e) p nodes i (λ q. absurd (omega arith))
            (λ q. absurd (omega arith))
          ∙ parents i (omega arith) hi)
        (children_agree e p (base + base) nodes (omega arith)
          (parents p (omega arith) (omega arith)) before)

  length-full_level :
      (deriver : SeedDeriver) (p left : ℕ) (nodes : Nodes)
      → length (full_level deriver p left nodes) ≡ length nodes
  unfolding full_level
  length-full_level deriver p zero nodes = refl
  length-full_level deriver p (suc left) nodes =
      length-full_level deriver (p + 1) left (with_children deriver p nodes)
      ∙ length-with_children deriver p nodes

  full_depths-Agrees :
      (e left : ℕ) (nodes : Nodes)
      → suc e + left ≡ 11
      → length nodes ≡ 2 ^ 12
      → Agrees (suc e) (2 ^ suc e) (2 ^ suc (suc e)) nodes
      → Agrees 11 (2 ^ 11) (2 ^ 12) (full_depths salt execution (suc e) left nodes)
  unfolding full_depths
  full_depths-Agrees e zero nodes sum size level =
      let whole : suc e ≡ 11 = omega arith in
      subst (λ d. Agrees d (2 ^ d) (2 ^ suc d) nodes) whole level
  full_depths-Agrees e (suc left) nodes sum size level =
      rw (previous, full_depths)
        (subst (λ d. Agrees 11 (2 ^ 11) (2 ^ 12) (full_depths salt execution d left grown))
          next_depth
          (full_depths-Agrees (suc e) left grown (omega arith)
            (length-full_level (depth_deriver salt execution e) start count nodes ∙ size)
            (λ i lo hi.
              next i (omega (arith, pow-suc 2 (suc e)))
                (omega (arith, pow-suc 2 (suc e), pow-suc 2 (suc (suc e)))))))
    where
      previous : suc e - 1 ≡ e
      previous = omega arith

      next_depth : suc (suc e) ≡ suc e + 1
      next_depth = omega arith

      base : ℕ
      base = 2 ^ suc e

      start : ℕ
      start = 1 <<< suc e

      count : ℕ
      count = (1 <<< (suc e + 1)) - (1 <<< suc e)

      grown : Nodes
      grown = full_level (depth_deriver salt execution e) start count nodes

      double : 2 ^ suc (suc e) ≡ base + base
      double = omega (arith, pow-suc 2 (suc e))

      room : base + base + (base + base) ≤ length nodes
      room = omega (
        arith,
        size,
        double,
        pow-suc 2 (suc (suc e)),
        pow-le-pow_right {n = 2} (omega arith) {i = suc (suc (suc e))} {j = 12}
            (omega (arith, sum)),
      )

      next : Agrees (suc (suc e)) (base + base) (base + base + (base + base)) grown
      next =
          full_level-Agrees e base start count nodes room (omega arith)
            (omega (
              arith,
              ap (λ (k : ℕ). 2 ^ k) {x = suc e + 1} {y = suc (suc e)} (omega arith),
              double,
            ))
            (λ i lo hi. level i (omega arith) (omega (arith, double, hi)))
            (λ i lo hi. absurd (omega arith))

  -- Every leaf of the array is that of the tree.
  pub fully_expand_tree-Agrees :
      Agrees 11 (2 ^ 11) (2 ^ 12) (fully_expand_tree salt root_seed delta execution)
  unfolding fully_expand_tree tree_node
  fully_expand_tree-Agrees =
      full_depths-Agrees 0 10 (set roots 3 (xor_zip root_seed delta)) refl
        (length-set roots 3 (xor_zip root_seed delta)
          ∙ length-set (filled full_tree_size zero_seed) 2 root_seed
          ∙ length-filled full_tree_size zero_seed)
        first_level
    where
      roots : Nodes
      roots = set (filled full_tree_size zero_seed) 2 root_seed

      size : length (filled full_tree_size zero_seed) ≡ 2 ^ 12
      size = length-filled full_tree_size zero_seed

      first_level : Agrees 1 2 4 (set roots 3 (xor_zip root_seed delta))
      first_level i lo hi = elim (dec_lt i 3) [
        | yes low ↦
            let q : i ≡ 2 = omega arith in
            rw q (
              get_or-set_other roots 3 2 (xor_zip root_seed delta) zero_seed
                (λ w. absurd (omega arith))
              ∙ get_or-set_same (filled full_tree_size zero_seed) 2 root_seed zero_seed
                  (omega (arith, size)))
        | no high ↦
            let q : i ≡ 3 = omega arith in
            rw q (
              get_or-set_same roots 3 (xor_zip root_seed delta) zero_seed
                (omega (arith, size, length-set (filled full_tree_size zero_seed) 2 root_seed)))
      ]

  length-full_depths :
      (depth left : ℕ) (nodes : Nodes)
      → length (full_depths salt execution depth left nodes) ≡ length nodes
  unfolding full_depths
  length-full_depths depth zero nodes = refl
  length-full_depths depth (suc left) nodes =
      length-full_depths (depth + 1) left _
      ∙ length-full_level (depth_deriver salt execution (depth - 1)) (1 <<< depth)
          ((1 <<< (depth + 1)) - (1 <<< depth)) nodes

  pub length-fully_expand_tree : length (fully_expand_tree salt root_seed delta execution) ≡ 2 ^ 12
  unfolding fully_expand_tree
  length-fully_expand_tree =
      length-full_depths 1 10 _
      ∙ length-set (set (filled full_tree_size zero_seed) 2 root_seed) 3 (xor_zip root_seed delta)
      ∙ length-set (filled full_tree_size zero_seed) 2 root_seed
      ∙ length-filled full_tree_size zero_seed
