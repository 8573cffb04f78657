-- ===== src/Blc/Tree/Round.antt =====
-- What one round of the inner loop of `partially_expand_tree` does to what is known of a level.
use mqom_rs.Base.{
  ℕ, suc, ◌+◌, ◌*◌, ◌/◌, ◌^◌, ◌≤◌, ◌<◌, ◌≡◌, ◌≢◌, sym, ap, ◌∙◌, arith, U8, List, length, set,
  length-set, get_or-set_same, Bool, true, false, ◌⊎◌, inl, inr,
}
use mathlib.Core.Path.{subst}
use native.Mathlib.Decide.{dec_lt}
use mqom_rs.Bytes.{xor_zip}
use mqom_rs.Crates.{Crates}
use mqom_rs.Prg.{SeedDeriver, derive}
use mqom_rs.Blc.Tree.{Nodes, node, flag, with_children, depth_deriver}
use mqom_rs.Blc.Tree.Node.{left_written, right_written, others_kept}
use mqom_rs.Blc.Tree.Full.{child_cases, left_is_tree, right_is_tree}
use mqom_rs.Blc.Tree.Placed.{flag-set_other, tree}

-- The flags with both children of `p` present.
abbrev pub children_present : ℕ → List Bool → List Bool
children_present p present = set (set present (2 * p) true) (2 * p + 1) true

pub flags_kept :
    (p : ℕ) (present : List Bool) (i : ℕ)
    → i ≢ 2 * p
    → i ≢ 2 * p + 1
    → flag (children_present p present) i ≡ flag present i
flags_kept p present i h k =
    flag-set_other (set present (2 * p) true) (2 * p + 1) i true (λ e. k (sym e))
    ∙ flag-set_other present (2 * p) i true (λ e. h (sym e))

left_present :
    (p : ℕ) (present : List Bool)
    → 2 * p + 1 < length present
    → flag (children_present p present) (2 * p) ≡ true
left_present p present room =
    flag-set_other (set present (2 * p) true) (2 * p + 1) (2 * p) true (λ e. absurd (omega arith))
    ∙ get_or-set_same present (2 * p) true false (omega arith)

right_present :
    (p : ℕ) (present : List Bool)
    → 2 * p + 1 < length present
    → flag (children_present p present) (2 * p + 1) ≡ true
right_present p present room =
    get_or-set_same (set present (2 * p) true) (2 * p + 1) true false
      (omega (arith, length-set present (2 * p) true))

pub length-children_present :
    (p : ℕ) (present : List Bool) → length (children_present p present) ≡ length present
length-children_present p present =
    length-set (set present (2 * p) true) (2 * p + 1) true ∙ length-set present (2 * p) true

module _ ⦃c : Crates⦄ (salt root_seed delta : List U8) (execution : ℕ)
    (root_block : length root_seed ≡ 16) (delta_block : length delta ≡ 16) (leaf : ℕ)
    (lo : 2 ^ 11 ≤ leaf) (hi : leaf < 2 ^ 12) where
  abbrev seed_at : ℕ → ℕ → List U8
  seed_at depth i = tree salt root_seed delta execution root_block delta_block leaf lo hi depth i

  -- A node of depth `depth` is the ancestor and not known, or known.
  abbrev pub Known : ℕ → ℕ → ℕ → Nodes → List Bool → Type 0
  Known depth ancestor i nodes present =
      ((i ≡ ancestor) × (flag present i ≡ false))
      ⊎ ((i ≢ ancestor) × (flag present i ≡ true) × (node nodes i ≡ seed_at depth i))

  pub Known-kept :
      (depth ancestor i : ℕ) (nodes grown : Nodes) (present known : List Bool)
      → node grown i ≡ node nodes i
      → flag known i ≡ flag present i
      → Known depth ancestor i nodes present
      → Known depth ancestor i grown known
  Known-kept depth ancestor i nodes grown present known same same_flag (inl (e, absent)) =
      inl (e, same_flag ∙ absent)
  Known-kept depth ancestor i nodes grown present known same same_flag (inr (ne, there, seed)) =
      inr (ne, same_flag ∙ there, same ∙ seed)

  -- The children of known parents are known.
  abbrev pub Children : ℕ → ℕ → ℕ → ℕ → Nodes → List Bool → Type 0
  Children e ancestor base p nodes present =
      (i : ℕ)
      → base + base ≤ i
      → i < base + base + (base + base)
      → (i < p + p) ⊎ (i / 2 ≡ ancestor / 2)
      → Known (suc (suc e)) ancestor i nodes present

  abbrev pub Parents : ℕ → ℕ → ℕ → ℕ → Nodes → List Bool → Type 0
  Parents e ancestor base p nodes present =
      (i : ℕ) → p ≤ i → i < base + base → Known (suc e) (ancestor / 2) i nodes present

  -- One parent that is known.
  pub with_children-Known :
      (e ancestor base p : ℕ) (nodes : Nodes) (present : List Bool)
      → 2 * p + 1 < length nodes
      → 2 * p + 1 < length present
      → p ≢ ancestor / 2
      → node nodes p ≡ seed_at (suc e) p
      → Children e ancestor base p nodes present
      → Children e ancestor base
          (p + 1)
          (with_children (depth_deriver salt execution e) p nodes)
          (children_present p present)
  with_children-Known e ancestor base p nodes present room flags ne here before i low high which =
      elim (child_cases i p) [
        | inl earlier ↦ kept (λ q. absurd (omega arith)) (λ q. absurd (omega arith)) (inl earlier)
        | inr (inl q) ↦
            subst
              (λ j.
                Known (suc (suc e)) ancestor j (with_children deriver p nodes)
                  (children_present p present))
              (sym q)
              (inr (
                λ w. ne (omega (arith, w)),
                left_present p present flags,
                left_written deriver p nodes room
                    ∙ ap (derive deriver) here
                    ∙ left_is_tree salt root_seed delta execution e p,
              ))
        | inr (inr (inl q)) ↦
            subst
              (λ j.
                Known (suc (suc e)) ancestor j (with_children deriver p nodes)
                  (children_present p present))
              (sym q)
              (inr (
                λ w. ne (omega (arith, w)),
                right_present p present flags,
                right_written deriver p nodes room
                    ∙ ap (λ t. xor_zip (derive deriver t) t) here
                    ∙ right_is_tree salt root_seed delta execution e p,
              ))
        | inr (inr (inr later)) ↦
            kept (λ q. absurd (omega arith)) (λ q. absurd (omega arith)) (later_case later which)
      ]
    where
      deriver : SeedDeriver
      deriver = depth_deriver salt execution e

      later_case :
          2 * p + 2 ≤ i
          → (i < p + 1 + (p + 1)) ⊎ (i / 2 ≡ ancestor / 2)
          → (i < p + p) ⊎ (i / 2 ≡ ancestor / 2)
      later_case later (inl q) = absurd (omega arith)
      later_case later (inr q) = inr q

      kept :
          i ≢ 2 * p
          → i ≢ 2 * p + 1
          → (i < p + p) ⊎ (i / 2 ≡ ancestor / 2)
          → Known
              (suc (suc e))
              ancestor
              i
              (with_children deriver p nodes)
              (children_present p present)
      kept h k w =
          Known-kept (suc (suc e)) ancestor i nodes (with_children deriver p nodes) present
            (children_present p present) (others_kept deriver p nodes i h k)
            (flags_kept p present i h k) (before i low high w)

  -- One parent that is the ancestor.
  pub ancestor-Children :
      (e ancestor base p : ℕ) (nodes : Nodes) (present : List Bool)
      → p ≡ ancestor / 2
      → Children e ancestor base p nodes present
      → Children e ancestor base (p + 1) nodes present
  ancestor-Children e ancestor base p nodes present here before i low high (inr w) =
      before i low high (inr w)
  ancestor-Children e ancestor base p nodes present here before i low high (inl w) =
      elim (dec_lt i (p + p)) [
        | yes earlier ↦ before i low high (inl earlier)
        | no own ↦ before i low high (inr (omega arith))
      ]
