-- ===== src/Blc/Tree/Placed.antt =====
-- The first loop of `partially_expand_tree` places the path of a leaf: of each level it knows the
-- sibling of the ancestor of the leaf, and not the ancestor.
use mqom_rs.Base.{
  ℕ, zero, suc, ◌+◌, ◌^◌, ◌≤◌, ◌<◌, bit_xor, ◌≡◌, ◌≢◌, sym, ap₂, ◌∙◌, arith, U8, List, length, set,
  length-set, get_or-set_same, get_or-set_other, Bool, true, false,
}
use mathlib.Core.Path.{subst}
use native.Mathlib.Nat.{pow-suc, pow-le-pow_right}
use native.Mathlib.Decide.{dec_lt}
use mqom_rs.Crates.{Crates}
use mqom_rs.Bytes.Slices.{take_exactly}
use mqom_rs.Keygen.Outputs.{drop_exactly}
use mqom_rs.Blc.{zero_seed}
use mqom_rs.Blc.Tree.{Nodes, node, flag, chunks, place_path}
use mqom_rs.Blc.Tree.Node.{
  sibling_half, sibling_side, above, above-suc, above_bounds, tree_node, length-tree_node,
}
use mqom_rs.Blc.Tree.Path.{path_to}

-- The sibling of the ancestor `height` levels above a leaf.
abbrev pub sibling : ℕ → ℕ → ℕ
sibling leaf height = bit_xor (above leaf height) 1

pub sibling_bounds :
    (leaf height depth : ℕ)
    → height + suc depth ≡ 11
    → 2 ^ 11 ≤ leaf
    → leaf < 2 ^ 12
    → (2 ^ suc depth ≤ sibling leaf height) × (sibling leaf height < 2 ^ suc (suc depth))
sibling_bounds leaf height depth e lo hi =
    let (low, high) = above_bounds leaf height (suc depth) e lo hi in
    (
      omega (arith, low, sibling_half (above leaf height), pow-suc 2 depth),
      omega (arith, high, sibling_half (above leaf height), pow-suc 2 depth, pow-suc 2 (suc depth)),
    )

pub sibling_apart : (leaf height : ℕ) → sibling leaf height ≢ above leaf height
sibling_apart leaf height e = absurd (omega (arith, e, sibling_side (above leaf height)))

pub flag-set_other :
    (present : List Bool) (i j : ℕ) (b : Bool) → i ≢ j → flag (set present i b) j ≡ flag present j
flag-set_other present i j b h = get_or-set_other present i j b false h

module _ ⦃c : Crates⦄ (salt root_seed delta : List U8) (execution : ℕ)
    (root_block : length root_seed ≡ 16) (delta_block : length delta ≡ 16) (leaf : ℕ)
    (lo : 2 ^ 11 ≤ leaf) (hi : leaf < 2 ^ 12) where
  abbrev pub tree : ℕ → ℕ → List U8
  tree depth i = tree_node salt root_seed delta execution depth i

  abbrev pub path_of : ℕ → ℕ → List U8
  path_of height depth =
      path_to salt root_seed delta execution root_block delta_block leaf height depth

  -- What is known of a level, `depth` below the root.
  abbrev pub LevelPlaced : ℕ → ℕ → Nodes → List Bool → Type 0
  LevelPlaced height depth nodes present =
      (flag present (above leaf height) ≡ false)
      × (flag present (sibling leaf height) ≡ true)
      × (node nodes (sibling leaf height) ≡ tree depth (sibling leaf height))

  -- The levels below `height` are placed.
  abbrev pub Placed : ℕ → Nodes → List Bool → Type 0
  Placed height nodes present =
      (k d : ℕ) → k + suc d ≡ 11 → k < height → LevelPlaced k (suc d) nodes present

  abbrev pub NoneBelow : ℕ → List Bool → Type 0
  NoneBelow bound present = (i : ℕ) → i < bound → flag present i ≡ false

  -- Placing one sibling.
  placed_here :
      (height depth : ℕ) (nodes : Nodes) (present : List Bool)
      → height + suc depth ≡ 11
      → length nodes ≡ 2 ^ 12
      → length present ≡ 2 ^ 12
      → NoneBelow (2 ^ suc (suc depth)) present
      → LevelPlaced height
          (suc depth)
          (set nodes (sibling leaf height) (tree (suc depth) (sibling leaf height)))
          (set present (sibling leaf height) true)
  placed_here height depth nodes present e size flags none = (
    flag-set_other present (sibling leaf height) (above leaf height) true
          (sibling_apart leaf height)
        ∙ none (above leaf height) (above_bounds leaf height (suc depth) e lo hi).1,
    get_or-set_same present (sibling leaf height) true false (omega (arith, flags, fits)),
    get_or-set_same nodes (sibling leaf height) (tree (suc depth) (sibling leaf height)) zero_seed
        (omega (arith, size, fits)),
  )
    where
      fits : sibling leaf height < 2 ^ 12
      fits = omega (
        arith,
        (sibling_bounds leaf height depth e lo hi).1,
        pow-le-pow_right {n = 2} (omega arith) {i = suc (suc depth)} {j = 12} (omega (arith, e)),
      )

  -- A level further down keeps what it has when an index above it is written.
  pub level_kept :
      (k d : ℕ) (nodes grown : Nodes) (present known : List Bool)
      → k + suc d ≡ 11
      → ((i : ℕ) → 2 ^ suc d ≤ i → node grown i ≡ node nodes i)
      → ((i : ℕ) → 2 ^ suc d ≤ i → flag known i ≡ flag present i)
      → LevelPlaced k (suc d) nodes present
      → LevelPlaced k (suc d) grown known
  level_kept k d nodes grown present known e same same_flag (absent, there, seed) = (
    same_flag (above leaf k) (above_bounds leaf k (suc d) e lo hi).0 ∙ absent,
    same_flag (sibling leaf k) (sibling_bounds leaf k d e lo hi).0 ∙ there,
    same (sibling leaf k) (sibling_bounds leaf k d e lo hi).0 ∙ seed,
  )

  Placed-suc :
      (height depth : ℕ) (nodes : Nodes) (present : List Bool)
      → height + suc depth ≡ 11
      → length nodes ≡ 2 ^ 12
      → length present ≡ 2 ^ 12
      → NoneBelow (2 ^ suc (suc depth)) present
      → Placed height nodes present
      → Placed
          (suc height)
          (set nodes (sibling leaf height) (tree (suc depth) (sibling leaf height)))
          (set present (sibling leaf height) true)
  Placed-suc height depth nodes present e size flags none before k d f lt = elim (dec_lt k height) [
    | yes earlier ↦
        level_kept k d nodes
          (set nodes (sibling leaf height) (tree (suc depth) (sibling leaf height))) present
          (set present (sibling leaf height) true) f
          (λ i low.
            get_or-set_other nodes (sibling leaf height) i (tree (suc depth) (sibling leaf height))
              zero_seed (λ q. beyond earlier i low q))
          (λ i low.
            flag-set_other present (sibling leaf height) i true (λ q. beyond earlier i low q))
          (before k d f earlier)
    | no here ↦
        let same : height ≡ k = omega arith in
        let same_depth : depth ≡ d = omega arith in
        subst
          (λ (kd : ℕ × ℕ).
            LevelPlaced kd.0 (suc kd.1)
              (set nodes (sibling leaf height) (tree (suc depth) (sibling leaf height)))
              (set present (sibling leaf height) true))
          (ap₂ (λ a b. (a, b)) same same_depth)
          (placed_here height depth nodes present e size flags none)
  ]
    where
      beyond : k < height → (i : ℕ) → 2 ^ suc d ≤ i → sibling leaf height ≢ i
      beyond earlier i low q = absurd (
          omega (
            arith,
            low,
            q,
            (sibling_bounds leaf height depth e lo hi).1,
            pow-le-pow_right {n = 2} (omega arith) {i = suc (suc depth)} {j = suc d}
                (omega (arith, earlier, e, f)),
          ))

  pub place_path-Placed :
      (height depth : ℕ) (nodes : Nodes) (present : List Bool)
      → height + depth ≡ 11
      → length nodes ≡ 2 ^ 12
      → length present ≡ 2 ^ 12
      → NoneBelow (2 ^ suc depth) present
      → Placed height nodes present
      → let placed =
          place_path (chunks 16 depth (path_of height depth)) (above leaf height) nodes present in
        Placed 11 placed.0 placed.1 × (length placed.0 ≡ 2 ^ 12) × (length placed.1 ≡ 2 ^ 12)
  unfolding chunks place_path
  place_path-Placed height zero nodes present e size flags none before =
      let top : height ≡ 11 = omega arith in
      (subst (λ k. Placed k nodes present) top before, size, flags)
  place_path-Placed height (suc depth) nodes present e size flags none before =
      rw
        (
          take_exactly 16 (tree (suc depth) (sibling leaf height)) (path_of (suc height) depth)
              block,
          drop_exactly 16 (tree (suc depth) (sibling leaf height)) (path_of (suc height) depth)
              block,
          place_path,
          sym (above-suc leaf height),
        )
        (place_path-Placed (suc height) depth
          (set nodes (sibling leaf height) (tree (suc depth) (sibling leaf height)))
          (set present (sibling leaf height) true) (omega arith)
          (length-set nodes (sibling leaf height) _ ∙ size)
          (length-set present (sibling leaf height) true ∙ flags)
          (λ i lt.
            flag-set_other present (sibling leaf height) i true
              (λ q. absurd (omega (arith, q, lt, (sibling_bounds leaf height depth e lo hi).0)))
            ∙ none i (omega (arith, lt, pow-suc 2 (suc depth))))
          (Placed-suc height depth nodes present e size flags none before))
    where
      block : length (tree (suc depth) (sibling leaf height)) ≡ 16
      block =
          length-tree_node salt root_seed delta execution root_block delta_block (suc depth)
            (sibling leaf height)
