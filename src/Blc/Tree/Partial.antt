-- ===== src/Blc/Tree/Partial.antt =====
-- The loops of `partially_expand_tree` over the levels: after a level, all of it is known but the
-- ancestor of the hidden leaf.
use mqom_rs.Base.{
  ℕ, zero, suc, ◌+◌, ◌/◌, ◌^◌, ◌≤◌, ◌<◌, ◌≡◌, refl, ◌∙◌, arith, U8, List, length, Bool, inl, inr,
}
use mqom_rs.Crates.{Crates}
use mqom_rs.Blc.Tree.{Nodes, node, flag, with_children, depth_deriver, partial_level}
use mqom_rs.Blc.Tree.Node.{length-with_children, others_kept}
use mqom_rs.Blc.Tree.Round.{children_present, flags_kept, length-children_present}
use mqom_rs.Blc.Tree.Round as Round

module _ ⦃c : Crates⦄ (salt root_seed delta : List U8) (execution : ℕ)
    (root_block : length root_seed ≡ 16) (delta_block : length delta ≡ 16) (leaf : ℕ)
    (lo : 2 ^ 11 ≤ leaf) (hi : leaf < 2 ^ 12) where
  abbrev Known : ℕ → ℕ → ℕ → Nodes → List Bool → Type 0
  Known = Round.Known salt root_seed delta execution root_block delta_block leaf lo hi

  abbrev Children : ℕ → ℕ → ℕ → ℕ → Nodes → List Bool → Type 0
  Children = Round.Children salt root_seed delta execution root_block delta_block leaf lo hi

  abbrev Parents : ℕ → ℕ → ℕ → ℕ → Nodes → List Bool → Type 0
  Parents = Round.Parents salt root_seed delta execution root_block delta_block leaf lo hi

  -- What a level leaves: its children known, and everything below them as it was.
  abbrev pub LevelDone : ℕ → ℕ → ℕ → Nodes → List Bool → Nodes × List Bool → Type 0
  LevelDone e ancestor base nodes present done =
      ((i : ℕ)
        → base + base ≤ i
        → i < base + base + (base + base)
        → Known (suc (suc e)) ancestor i done.0 done.1)
      × ((i : ℕ) → base + base + (base + base) ≤ i → node done.0 i ≡ node nodes i)
      × ((i : ℕ) → base + base + (base + base) ≤ i → flag done.1 i ≡ flag present i)
      × (length done.0 ≡ length nodes)
      × (length done.1 ≡ length present)

  LevelDone-with_children :
      (e ancestor base p : ℕ) (nodes : Nodes) (present : List Bool) (done : Nodes × List Bool)
      → p < base + base
      → LevelDone e ancestor base
          (with_children (depth_deriver salt execution e) p nodes)
          (children_present p present)
          done
      → LevelDone e ancestor base nodes present done
  LevelDone-with_children e ancestor base p nodes present done small
        (children, same, same_flag, n, f) =
      (
        children,
        λ i far.
            same i far
            ∙ others_kept (depth_deriver salt execution e) p nodes i (λ q. absurd (omega arith))
                (λ q. absurd (omega arith)),
        λ i far.
            same_flag i far
            ∙ flags_kept p present i (λ q. absurd (omega arith)) (λ q. absurd (omega arith)),
        n ∙ length-with_children (depth_deriver salt execution e) p nodes,
        f ∙ length-children_present p present,
      )

  pub partial_level-LevelDone :
      (e ancestor base p left : ℕ) (nodes : Nodes) (present : List Bool)
      → base + base + (base + base) ≤ length nodes
      → base + base + (base + base) ≤ length present
      → base ≤ p
      → p + left ≡ base + base
      → Parents e ancestor base p nodes present
      → Children e ancestor base p nodes present
      → LevelDone e ancestor base nodes present
          (partial_level (depth_deriver salt execution e) p left nodes present)
  unfolding partial_level
  partial_level-LevelDone e ancestor base p zero nodes present room flags low done parents before =
      (
        λ i low_i high_i. before i low_i high_i (inl (omega arith)),
        λ i far. refl,
        λ i far. refl,
        refl,
        refl,
      )
  partial_level-LevelDone e ancestor base p (suc left) nodes present room flags low done parents
        before =
      elim (parents p (omega arith) (omega arith)) [
        | inl (here, absent) ↦
            rw (absent, partial_level)
              (partial_level-LevelDone e ancestor base (p + 1) left nodes present room flags
                (omega arith) (omega arith) (λ i lo_i hi_i. parents i (omega arith) hi_i)
                (Round.ancestor-Children salt root_seed delta execution root_block delta_block leaf
                  lo hi e ancestor base p nodes present here before))
        | inr (ne, there, seed) ↦
            rw (there, partial_level)
              (LevelDone-with_children e ancestor base p nodes present _ (omega arith) (
                partial_level-LevelDone e ancestor base (p + 1) left
                  (with_children (depth_deriver salt execution e) p nodes)
                  (children_present p present)
                  (omega
                    (arith, room, length-with_children (depth_deriver salt execution e) p nodes))
                  (omega (arith, flags, length-children_present p present)) (omega arith)
                  (omega arith)
                  (λ i lo_i hi_i.
                    Round.Known-kept salt root_seed delta execution root_block delta_block leaf lo
                      hi (suc e) (ancestor / 2) i nodes
                      (with_children (depth_deriver salt execution e) p nodes) present
                      (children_present p present)
                      (others_kept (depth_deriver salt execution e) p nodes i
                        (λ q. absurd (omega arith)) (λ q. absurd (omega arith)))
                      (flags_kept p present i (λ q. absurd (omega arith))
                        (λ q. absurd (omega arith)))
                      (parents i (omega arith) hi_i))
                  (Round.with_children-Known salt root_seed delta execution root_block delta_block
                    leaf lo hi e ancestor base p nodes present (omega arith) (omega arith) ne seed
                    before)))
      ]
