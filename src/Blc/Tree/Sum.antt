-- ===== src/Blc/Tree/Sum.antt =====
-- The leaves of a full tree add up to `delta`: the children of a node add up to the node.
use mqom_rs.Base.{
  ℕ, zero, suc, ◌+◌, ◌/◌, ◌^◌, ◌≤◌, ◌<◌, ◌≡◌, refl, sym, ap, ap₂, ◌∙◌, arith, U8, List, [], ◌∷◌,
  length, xor_u8, xor_u8-zero, to_u8, U8_ext,
}
use native.Mathlib.Nat.{pow-suc}
use mqom_rs.Bytes.{
  filled, length-filled, xor_zip, length-xor_zip, xor_zip_cancel, xor_zip_comm, xor_zip_assoc,
}
use mqom_rs.Params.{seed_size, nb_evals}
use mqom_rs.Crates.{Crates}
use mqom_rs.Field.Packing.{zero_byte}
use mqom_rs.Blc.{zero_seed}
use mqom_rs.Blc.Tree.{node, fully_expand_tree}
use mqom_rs.Blc.Tree.Node.{left_of, tree_node, tree_node-left, tree_node-right, length-tree_node}
use mqom_rs.Blc.Tree.Full.{fully_expand_tree-Agrees}

-- f lo ^ … ^ f (lo + count - 1), on seeds.
abbrev pub xor_range : ℕ → ℕ → (ℕ → List U8) → List U8
xor_range lo zero f = zero_seed
xor_range lo (suc count) f = xor_zip (f lo) (xor_range (lo + 1) count f)

length-xor_range :
    (lo count : ℕ) (f : ℕ → List U8)
    → ((i : ℕ) → length (f i) ≡ 16)
    → length (xor_range lo count f) ≡ 16
length-xor_range lo zero f h = length-filled seed_size zero_byte
length-xor_range lo (suc count) f h = length-xor_zip (f lo) (xor_range (lo + 1) count f) ∙ h lo

xor_range_congr :
    (lo count : ℕ) (f g : ℕ → List U8)
    → ((i : ℕ) → lo ≤ i → i < lo + count → f i ≡ g i)
    → xor_range lo count f ≡ xor_range lo count g
xor_range_congr lo zero f g h = refl
xor_range_congr lo (suc count) f g h =
    ap₂ xor_zip (h lo (omega arith) (omega arith))
      (xor_range_congr (lo + 1) count f g (λ i low high. h i (omega arith) (omega arith)))

-- Two children add up to their parent.
pub pair_sum :
    (left parent : List U8)
    → length left ≡ length parent
    → xor_zip left (xor_zip left parent) ≡ parent
pair_sum left parent e =
    xor_zip_comm left (xor_zip left parent) (sym (length-xor_zip left parent))
    ∙ ap (λ t. xor_zip t left) (xor_zip_comm left parent e)
    ∙ xor_zip_cancel parent left

pub xor_zip-zeros : (a : List U8) (n : ℕ) → length a ≡ n → xor_zip a (filled n zero_byte) ≡ a
unfolding xor_zip filled
xor_zip-zeros [] n e = refl
xor_zip-zeros (x ∷ a) zero e = absurd (omega arith)
xor_zip-zeros (x ∷ a) (suc n) e =
    ap₂ ◌∷◌ (ap (xor_u8 x) zero_is ∙ xor_u8-zero x) (xor_zip-zeros a n (omega arith))
  where
    zero_is : zero_byte ≡ to_u8 0
    zero_is = unfold to_u8 in U8_ext _ _ refl

module _ ⦃c : Crates⦄ (salt root_seed delta : List U8) (execution : ℕ)
    (root_block : length root_seed ≡ 16) (delta_block : length delta ≡ 16) where
  abbrev tree : ℕ → ℕ → List U8
  tree depth i = tree_node salt root_seed delta execution depth i

  sized : (depth i : ℕ) → length (tree depth i) ≡ 16
  sized depth i = length-tree_node salt root_seed delta execution root_block delta_block depth i

  children_sum :
      (depth p : ℕ) (rest : List U8)
      → length rest ≡ 16
      → xor_zip (tree (suc depth) (p + p)) (xor_zip (tree (suc depth) (p + p + 1)) rest)
        ≡ xor_zip (tree depth p) rest
  children_sum depth p rest e =
      sym (
        xor_zip_assoc (tree (suc depth) (p + p)) (tree (suc depth) (p + p + 1)) rest
          (sized (suc depth) (p + p + 1) ∙ sym e))
      ∙ ap (λ t. xor_zip t rest)
          (ap₂ xor_zip left right
            ∙ pair_sum (left_of salt root_seed delta execution depth (tree depth p)) (tree depth p)
                (ap length (sym left) ∙ sized (suc depth) (p + p) ∙ sym (sized depth p)))
    where
      left : tree (suc depth) (p + p) ≡ left_of salt root_seed delta execution depth (tree depth p)
      left =
          tree_node-left salt root_seed delta execution depth (p + p) (omega arith)
          ∙ ap (λ q. left_of salt root_seed delta execution depth (tree depth q)) {x = (p + p) / 2}
              {y = p} (omega arith)

      right :
          tree (suc depth) (p + p + 1)
          ≡ xor_zip (left_of salt root_seed delta execution depth (tree depth p)) (tree depth p)
      right =
          tree_node-right salt root_seed delta execution depth (p + p + 1) (omega arith)
          ∙ ap
              (λ q.
                xor_zip (left_of salt root_seed delta execution depth (tree depth q))
                  (tree depth q))
              {x = (p + p + 1) / 2} {y = p} (omega arith)

  level_sum :
      (depth p count : ℕ)
      → xor_range (p + p) (count + count) (tree (suc depth)) ≡ xor_range p count (tree depth)
  level_sum depth p zero = refl
  level_sum depth p (suc count) =
      ap (λ n. xor_range (p + p) n (tree (suc depth))) {x = suc count + suc count}
        {y = suc (suc (count + count))} (omega arith)
      ∙ ap
          (λ q. xor_zip (tree (suc depth) (p + p)) (
            xor_zip (tree (suc depth) (p + p + 1))
              (xor_range q (count + count) (tree (suc depth)))))
          {x = p + p + 1 + 1} {y = p + 1 + (p + 1)} (omega arith)
      ∙ ap (λ t. xor_zip (tree (suc depth) (p + p)) (xor_zip (tree (suc depth) (p + p + 1)) t))
          (level_sum depth (p + 1) count)
      ∙ children_sum depth p (xor_range (p + 1) count (tree depth))
          (length-xor_range (p + 1) count (tree depth) (sized depth))

  depth_sum : (depth : ℕ) → xor_range (2 ^ depth) (2 ^ depth) (tree depth) ≡ delta
  unfolding tree_node
  depth_sum zero = xor_zip-zeros delta seed_size delta_block
  depth_sum (suc depth) =
      ap (λ n. xor_range n n (tree (suc depth))) {x = 2 ^ suc depth} {y = 2 ^ depth + 2 ^ depth}
        (omega (arith, pow-suc 2 depth))
      ∙ level_sum depth (2 ^ depth) (2 ^ depth)
      ∙ depth_sum depth

-- For a root seed and a `delta` of 16 bytes, the sum of all leaves of the tree of `fully_expand_tree`
-- is `delta`, whatever the root seed is.
pub leaves_sum :
    ⦃c : Crates⦄ (salt root_seed delta : List U8) (execution : ℕ)
    → length root_seed ≡ 16
    → length delta ≡ 16
    → xor_range nb_evals nb_evals (node (fully_expand_tree salt root_seed delta execution)) ≡ delta
leaves_sum ⦃c⦄ salt root_seed delta execution root_block delta_block =
    xor_range_congr nb_evals nb_evals (node (fully_expand_tree salt root_seed delta execution))
      (tree_node salt root_seed delta execution 11)
      (λ i low high.
        fully_expand_tree-Agrees salt root_seed delta execution i (omega arith) (omega arith))
    ∙ depth_sum salt root_seed delta execution root_block delta_block 11
