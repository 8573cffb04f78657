-- ===== src/Blc/Tree/Node.antt =====
-- The seeds of a tree by depth and index, as an independent description: the two children of a node
-- add up to the node, the root stands for `delta`, and the ancestors of a leaf.
use mqom_rs.Base.{
  ℕ, zero, suc, ◌+◌, ◌*◌, ◌/◌, ◌%◌, ◌^◌, ◌≤◌, ◌<◌, bit_xor, ◌≡◌, ◌≢◌, sym, ◌∙◌, arith, U8, List,
  length, set, Bool, true, false, ◌==◌, if◌then◌else◌, length-set, get_or-set_same,
  get_or-set_other, xor_step, xor-zero,
}
use native.Mathlib.Nat.{pow-suc, div-div-eq-div-mul}
use mqom_rs.Bytes.{xor_zip, length-xor_zip}
use mqom_rs.Crates.{Crates}
use mqom_rs.Prg.{SeedDeriver, derive}
use mqom_rs.Prg.Stream.{length-derive}
use mqom_rs.Blc.{zero_seed}
use mqom_rs.Blc.Tree.{Nodes, node, with_children, depth_deriver}

module _ ⦃c : Crates⦄ (deriver : SeedDeriver) (p : ℕ) (nodes : Nodes) where
  pub length-with_children : length (with_children deriver p nodes) ≡ length nodes
  length-with_children =
      length-set (set nodes (2 * p) (derive deriver (node nodes p))) (2 * p + 1) _
      ∙ length-set nodes (2 * p) (derive deriver (node nodes p))

  pub left_written :
      2 * p + 1 < length nodes
      → node (with_children deriver p nodes) (2 * p) ≡ derive deriver (node nodes p)
  left_written h =
      get_or-set_other (set nodes (2 * p) (derive deriver (node nodes p))) (2 * p + 1) (2 * p) _
        zero_seed (λ e. absurd (omega arith))
      ∙ get_or-set_same nodes (2 * p) (derive deriver (node nodes p)) zero_seed (omega arith)

  pub right_written :
      2 * p + 1 < length nodes
      → node (with_children deriver p nodes) (2 * p + 1)
        ≡ xor_zip (derive deriver (node nodes p)) (node nodes p)
  right_written h =
      get_or-set_same (set nodes (2 * p) (derive deriver (node nodes p))) (2 * p + 1) _ zero_seed
        (omega (arith, length-set nodes (2 * p) (derive deriver (node nodes p))))

  pub others_kept :
      (i : ℕ) → i ≢ 2 * p → i ≢ 2 * p + 1 → node (with_children deriver p nodes) i ≡ node nodes i
  others_kept i h k =
      get_or-set_other (set nodes (2 * p) (derive deriver (node nodes p))) (2 * p + 1) i _ zero_seed
        (λ e. k (sym e))
      ∙ get_or-set_other nodes (2 * p) i (derive deriver (node nodes p)) zero_seed (λ e. h (sym e))

-- The sibling of a node has the same parent and the other side.
pub sibling_half : (i : ℕ) → bit_xor i 1 / 2 ≡ i / 2
sibling_half i = omega (arith, xor_step i 1, xor-zero (i / 2))

pub sibling_side : (i : ℕ) → bit_xor i 1 % 2 ≡ (i + 1) % 2
sibling_side i = omega (arith, xor_step i 1, xor-zero (i / 2))

-- The ancestor of a leaf, so many levels up.
abbrev pub above : ℕ → ℕ → ℕ
above leaf height = leaf / 2 ^ height

pub above-suc : (leaf height : ℕ) → above leaf (suc height) ≡ above leaf height / 2
above-suc leaf height = rw (pow-suc 2 height) (sym (div-div-eq-div-mul leaf (2 ^ height) 2))

-- At depth `depth` it lies between 2 ^ depth and 2 ^ (depth + 1).
pub above_bounds :
    (leaf height depth : ℕ)
    → height + depth ≡ 11
    → 2 ^ 11 ≤ leaf
    → leaf < 2 ^ 12
    → (2 ^ depth ≤ above leaf height) × (above leaf height < 2 ^ suc depth)
above_bounds leaf zero depth e lo hi =
    let whole : depth ≡ 11 = omega arith in rw whole (omega arith, omega arith)
above_bounds leaf (suc height) depth e lo hi =
    let (low, high) = above_bounds leaf height (suc depth) (omega arith) lo hi in
    (
      omega (arith, low, above-suc leaf height, pow-suc 2 depth),
      omega (arith, high, above-suc leaf height, pow-suc 2 (suc depth)),
    )

module _ ⦃c : Crates⦄ (salt root_seed delta : List U8) (execution : ℕ) where
  abbrev pub left_of : ℕ → List U8 → List U8
  left_of zero parent = root_seed
  left_of (suc depth) parent = derive (depth_deriver salt execution depth) parent

  unfoldable pub tree_node : ℕ → ℕ → List U8
  tree_node zero i = delta
  tree_node (suc depth) i =
      let parent = tree_node depth (i / 2) in
      let left = left_of depth parent in if i % 2 == 0 then left else xor_zip left parent

  pub tree_node-left :
      (depth i : ℕ) → i % 2 ≡ 0 → tree_node (suc depth) i ≡ left_of depth (tree_node depth (i / 2))
  unfolding tree_node
  tree_node-left depth i e = rw (e, tree_node)

  pub tree_node-right :
      (depth i : ℕ)
      → i % 2 ≡ 1
      → tree_node (suc depth) i
        ≡ xor_zip (left_of depth (tree_node depth (i / 2))) (tree_node depth (i / 2))
  unfolding tree_node
  tree_node-right depth i e = rw (e, tree_node)

  module _ (root_block : length root_seed ≡ 16) (delta_block : length delta ≡ 16) where
    length-left_of :
        (depth : ℕ) (parent : List U8) → length parent ≡ 16 → length (left_of depth parent) ≡ 16
    length-left_of zero parent e = root_block
    length-left_of (suc depth) parent e =
        length-derive (depth_deriver salt execution depth) parent ∙ e

    length-child :
        (b : Bool) (depth : ℕ) (parent : List U8)
        → length parent ≡ 16
        → length (if b then left_of depth parent else xor_zip (left_of depth parent) parent) ≡ 16
    length-child true depth parent e = length-left_of depth parent e
    length-child false depth parent e =
        length-xor_zip (left_of depth parent) parent ∙ length-left_of depth parent e

    pub length-tree_node : (depth i : ℕ) → length (tree_node depth i) ≡ 16
    unfolding tree_node
    length-tree_node zero i = delta_block
    length-tree_node (suc depth) i =
        length-child (i % 2 == 0) depth (tree_node depth (i / 2)) (length-tree_node depth (i / 2))
