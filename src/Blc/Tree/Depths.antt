-- ===== src/Blc/Tree/Depths.antt =====
-- The outer loop of `partially_expand_tree`: every level in turn, down to the leaves.
use mqom_rs.Base.{
  ℕ, zero, suc, ◌+◌, ◌-◌, ◌/◌, ◌^◌, ◌≤◌, ◌<◌, ◌<<<◌, bit_xor, ◌≡◌, ◌≢◌, refl, sym, ap, ◌∙◌, arith,
  U8, some, List, length, Bool, ◌⊎◌, inl, inr, lt→ltb,
}
use mathlib.Core.Path.{subst}
use native.Mathlib.Nat.{pow-suc, pow-le-pow_right}
use native.Mathlib.Decide.{dec_lt}
use mqom_rs.Crates.{Crates}
use mqom_rs.Blc.Tree.{Nodes, node, flag, depth_deriver, partial_level, partial_depths}
use mqom_rs.Blc.Tree.Node.{sibling_half, sibling_side, above, above-suc}
use mqom_rs.Blc.Tree.Placed.{sibling_apart, Placed, level_kept}
use mqom_rs.Blc.Tree.Round.{Known}
use mqom_rs.Blc.Tree.Partial.{LevelDone, partial_level-LevelDone}

-- Of two numbers with one half, the second is the first or its sibling.
sibling_cases : (i a : ℕ) → i / 2 ≡ a / 2 → (i ≡ a) ⊎ ((i ≢ a) × (i ≡ bit_xor a 1))
sibling_cases i a e = elim (dec_lt i a) [
  | yes low ↦ inr (λ q. absurd (omega arith), omega (arith, sibling_half a, sibling_side a))
  | no above_or ↦ elim (dec_lt a i) [
    | yes high ↦ inr (λ q. absurd (omega arith), omega (arith, sibling_half a, sibling_side a))
    | no below_or ↦ inl (omega arith)
  ]
]

-- One round of the loop.
depths_step :
    ⦃c : Crates⦄ (salt : List U8) (execution e left : ℕ) (nodes : Nodes) (present : List Bool)
    → e < 2 ^ 16
    → let grown =
        partial_level
          (depth_deriver salt execution e)
          (1 <<< suc e)
          ((1 <<< (suc e + 1)) - (1 <<< suc e))
          nodes
          present in
      partial_depths salt execution (suc e) (suc left) nodes present
      ≡ partial_depths salt execution (suc (suc e)) left grown.0 grown.1
unfolding partial_depths
depths_step ⦃c⦄ salt execution e left nodes present h =
    rw (previous, partial_depths, lt→ltb e (2 ^ 16) h)
      (ap (λ d. partial_depths salt execution d left grown.0 grown.1) next_depth)
  where
    previous : suc e - 1 ≡ e
    previous = omega arith

    next_depth : suc e + 1 ≡ suc (suc e)
    next_depth = omega arith

    grown : Nodes × List Bool
    grown =
        partial_level (depth_deriver salt execution e) (1 <<< suc e)
          ((1 <<< (suc e + 1)) - (1 <<< suc e)) nodes present

module _ ⦃c : Crates⦄ (salt root_seed delta : List U8) (execution : ℕ)
    (root_block : length root_seed ≡ 16) (delta_block : length delta ≡ 16) (leaf : ℕ)
    (lo : 2 ^ 11 ≤ leaf) (hi : leaf < 2 ^ 12) where
  abbrev KnownAt : ℕ → ℕ → ℕ → Nodes → List Bool → Type 0
  KnownAt depth ancestor i nodes present =
      Known salt root_seed delta execution root_block delta_block leaf lo hi depth ancestor i nodes
        present

  abbrev PlacedTo : ℕ → Nodes → List Bool → Type 0
  PlacedTo height nodes present =
      Placed salt root_seed delta execution root_block delta_block leaf lo hi height nodes present

  -- The whole level at `depth` is known, but the ancestor.
  abbrev pub LevelKnown : ℕ → ℕ → Nodes → List Bool → Type 0
  LevelKnown depth height nodes present =
      (i : ℕ)
      → 2 ^ depth ≤ i
      → i < 2 ^ suc depth
      → KnownAt depth (above leaf height) i nodes present

  -- The two children of an ancestor are known from the path.
  pub own_children :
      (d h i : ℕ) (nodes : Nodes) (present : List Bool)
      → h + suc d ≡ 11
      → PlacedTo (suc h) nodes present
      → i / 2 ≡ above leaf h / 2
      → KnownAt (suc d) (above leaf h) i nodes present
  own_children d h i nodes present sum placed half =
      let (absent, there, seed) = placed h d sum (omega arith) in
      elim (sibling_cases i (above leaf h) half) [
        | inl q ↦ inl (q, ap (flag present) q ∙ absent)
        | inr (ne, q) ↦
            subst (λ k. KnownAt (suc d) (above leaf h) k nodes present) (sym q)
              (inr (sibling_apart leaf h, there, seed))
      ]

  Placed-deeper :
      (e h : ℕ) (nodes : Nodes) (present : List Bool) (done : Nodes × List Bool)
      → h + suc (suc e) ≡ 11
      → ((i : ℕ) → 2 ^ suc (suc (suc e)) ≤ i → node done.0 i ≡ node nodes i)
      → ((i : ℕ) → 2 ^ suc (suc (suc e)) ≤ i → flag done.1 i ≡ flag present i)
      → PlacedTo (suc h) nodes present
      → PlacedTo h done.0 done.1
  Placed-deeper e h nodes present done sum same same_flag placed k d f lt =
      level_kept salt root_seed delta execution root_block delta_block leaf lo hi k d nodes done.0
        present done.1 f (λ i low. same i (deeper i low)) (λ i low. same_flag i (deeper i low))
        (placed k d f (omega arith))
    where
      deeper : (i : ℕ) → 2 ^ suc d ≤ i → 2 ^ suc (suc (suc e)) ≤ i
      deeper i low = omega (
        arith,
        low,
        pow-le-pow_right {n = 2} (omega arith) {i = suc (suc (suc e))} {j = suc d}
            (omega (arith, sum, f, lt)),
      )

  pub partial_depths_lem :
      (e height : ℕ) (nodes : Nodes) (present : List Bool)
      → height + suc e ≡ 11
      → length nodes ≡ 2 ^ 12
      → length present ≡ 2 ^ 12
      → LevelKnown (suc e) height nodes present
      → PlacedTo height nodes present
      → (done : Nodes × List Bool) × (partial_depths salt execution (suc e) height nodes present
          ≡ some done)
        × LevelKnown 11 0 done.0 done.1
        × (length done.0 ≡ 2 ^ 12)
        × (length done.1 ≡ 2 ^ 12)
  unfolding partial_depths
  partial_depths_lem e zero nodes present sum size flags level placed =
      let whole : suc e ≡ 11 = omega arith in
      ((nodes, present), refl, subst (λ d. LevelKnown d 0 nodes present) whole level, size, flags)
  partial_depths_lem e (suc h) nodes present sum size flags level placed =
      let (done, run, leaves, n, f) =
        partial_depths_lem (suc e) h grown.0 grown.1 (omega arith) (level_done.3 ∙ size)
          (level_done.4 ∙ flags)
          (λ i low high.
            level_done.0 i (omega (arith, low, double)) (omega (arith, high, double, quadruple)))
          (Placed-deeper e h nodes present grown (omega arith)
            (λ i far. level_done.1 i (omega (arith, far, double, quadruple)))
            (λ i far. level_done.2 i (omega (arith, far, double, quadruple))) placed) in
      (done, depths_step salt execution e h nodes present (omega arith) ∙ run, leaves, n, f)
    where
      base : ℕ
      base = 2 ^ suc e

      start : ℕ
      start = 1 <<< suc e

      count : ℕ
      count = (1 <<< (suc e + 1)) - (1 <<< suc e)

      double : 2 ^ suc (suc e) ≡ base + base
      double = omega (arith, pow-suc 2 (suc e))

      quadruple : 2 ^ suc (suc (suc e)) ≡ base + base + (base + base)
      quadruple = omega (arith, double, pow-suc 2 (suc (suc e)))

      grown : Nodes × List Bool
      grown = partial_level (depth_deriver salt execution e) start count nodes present

      room : base + base + (base + base) ≤ 2 ^ 12
      room = omega (
        arith,
        quadruple,
        pow-le-pow_right {n = 2} (omega arith) {i = suc (suc (suc e))} {j = 12}
            (omega (arith, sum)),
      )

      level_done :
          LevelDone salt root_seed delta execution root_block delta_block leaf lo hi e
            (above leaf h)
            base
            nodes
            present
            grown
      level_done =
          partial_level-LevelDone salt root_seed delta execution root_block delta_block leaf lo hi e
            (above leaf h) base start count nodes present (omega (arith, room, size))
            (omega (arith, room, flags)) (omega arith)
            (omega (
              arith,
              ap (λ (k : ℕ). 2 ^ k) {x = suc e + 1} {y = suc (suc e)} (omega arith),
              double,
            ))
            (λ i low high.
              subst (λ a. KnownAt (suc e) a i nodes present) (above-suc leaf h)
                (level i (omega (arith, low)) (omega (arith, high, double))))
            (λ i low high which. elim which [
              | inl early ↦ absurd (omega (arith, early, low))
              | inr own ↦ own_children (suc e) h i nodes present (omega (arith, sum)) placed own
            ])
