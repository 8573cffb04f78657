-- ===== src/Blc/Tree/Opened.antt =====
-- An opened tree against the full one: every leaf but the hidden one is disclosed, unchanged.
use mqom_rs.Base.{
  ℕ, suc, ◌+◌, ◌/◌, ◌^◌, ◌≤◌, ◌<◌, ◌≡◌, ◌≢◌, refl, sym, ap, ◌∙◌, arith, U8, some, List, [], ◌∷◌,
  length, take, drop, Bool, true, false, not, ◌&&◌, ◌==◌, ==_iff, if◌then◌else◌, inl, inr, lt→ltb,
  length-take, length-drop, get_or-take, get_or-drop, Bool-cases,
}
use mathlib.Core.Path.{subst}
use mqom_rs.Bytes.{filled, length-filled, get_or-filled}
use mqom_rs.Params.{seed_size, nb_evals}
use mqom_rs.Crates.{Crates}
use mqom_rs.Blc.{zero_seed, full_tree_size, path_size_per_execution}
use mqom_rs.Blc.Tree.{
  Nodes, node, flag, chunks, place_path, flags_fit, partial_depths, fully_expand_tree,
  partially_expand_tree, opening_path,
}
use mqom_rs.Blc.Tree.Node.{above, above_bounds, tree_node}
use mqom_rs.Blc.Tree.Full.{fully_expand_tree-Agrees}
use mqom_rs.Blc.Tree.Path.{path_to, length-path_to, opening_path_total}
use mqom_rs.Blc.Tree.Placed.{Placed, place_path-Placed}
use mqom_rs.Blc.Tree.Round.{Known}
use mqom_rs.Blc.Tree.Depths.{LevelKnown, own_children, partial_depths_lem}

pub differs : (a b : ℕ) → a ≢ b → (a == b) ≡ false
differs a b ne = elim (Bool-cases (a == b)) [ inl e ↦ absurd (ne ((==_iff a b).0 e)) | inr e ↦ e ]

flag_fits :
    (f here later : Bool)
    → f ≡ not here
    → later ≡ true
    → (if f then not here && later else here && later) ≡ true
flag_fits true true later e l = absurd cc
flag_fits true false later e l = l
flag_fits false true later e l = l
flag_fits false false later e l = absurd cc

-- Flags that are true but at the hidden index pass the check.
flags_fit-true :
    (flags : List Bool) (index hidden : ℕ)
    → ((j : ℕ) → j < length flags → flag flags j ≡ not (index + j == hidden))
    → flags_fit flags index hidden ≡ true
unfolding flags_fit
flags_fit-true [] index hidden h = refl
flags_fit-true (f ∷ flags) index hidden h =
    flag_fits f (index == hidden) (flags_fit flags (index + 1) hidden)
      (h 0 (omega arith) ∙ ap (λ k. not (k == hidden)) {x = index + 0} {y = index} (omega arith))
      (flags_fit-true flags (index + 1) hidden (λ j lt.
        h (suc j) (omega arith)
        ∙ ap (λ k. not (k == hidden)) {x = index + suc j} {y = index + 1 + j} (omega arith)))

module _ ⦃c : Crates⦄ where
  -- The whole function on a path of the right length, from what its loops give.
  expand_from :
      (salt path : List U8) (execution h : ℕ) (placed done : Nodes × List Bool)
      → length path ≡ path_size_per_execution
      → h < nb_evals
      → place_path
          (chunks 16 11 path)
          (nb_evals + h)
          (filled full_tree_size zero_seed)
          (filled full_tree_size false)
        ≡ placed
      → partial_depths salt execution 1 10 placed.0 placed.1 ≡ some done
      → flags_fit (drop nb_evals done.1) 0 h ≡ true
      → partially_expand_tree salt path execution h ≡ some (take nb_evals (drop nb_evals done.0))
  unfolding partially_expand_tree
  expand_from salt path execution h placed done size lt e run fit = rw (
    (==_iff (length path) path_size_per_execution).1 size,
    partially_expand_tree,
    lt→ltb h nb_evals lt,
    count,
    e,
    run,
    fit,
  )
    where
      count : length path / seed_size ≡ 11
      count = omega (arith, size)

module _ ⦃c : Crates⦄ (salt root_seed delta : List U8) (execution : ℕ)
    (root_block : length root_seed ≡ 16) (delta_block : length delta ≡ 16) (h : ℕ)
    (in_range : h < nb_evals) where
  abbrev leaf : ℕ
  leaf = nb_evals + h

  low : 2 ^ 11 ≤ leaf
  low = omega arith

  high : leaf < 2 ^ 12
  high = omega (arith, in_range)

  abbrev pub opened_path : List U8
  opened_path = path_to salt root_seed delta execution root_block delta_block leaf 0 11

  abbrev placed : Nodes × List Bool
  placed =
      place_path (chunks 16 11 opened_path) (above leaf 0) (filled full_tree_size zero_seed)
        (filled full_tree_size false)

  placed_lem :
      Placed salt root_seed delta execution root_block delta_block leaf low high 11 placed.0
        placed.1
      × (length placed.0 ≡ 2 ^ 12)
      × (length placed.1 ≡ 2 ^ 12)
  placed_lem =
      place_path-Placed salt root_seed delta execution root_block delta_block leaf low high 0 11
        (filled full_tree_size zero_seed) (filled full_tree_size false) refl
        (length-filled full_tree_size zero_seed) (length-filled full_tree_size false)
        (λ i lt. get_or-filled full_tree_size false i) (λ k d e lt. absurd (omega arith))

  first_level :
      LevelKnown salt root_seed delta execution root_block delta_block leaf low high 1 10 placed.0
        placed.1
  first_level i lo_i hi_i =
      own_children salt root_seed delta execution root_block delta_block leaf low high 0 10 i
        placed.0 placed.1 refl placed_lem.0
        (omega (arith, lo_i, hi_i, above_bounds leaf 10 1 refl low high))

  is_leaf : above leaf 0 ≡ leaf
  is_leaf = omega arith

  abbrev Done : Type 0
  Done =
      (done : Nodes × List Bool) × (partial_depths salt execution 1 10 placed.0 placed.1
        ≡ some done)
      × LevelKnown salt root_seed delta execution root_block delta_block leaf low high 11 0 done.0
          done.1
      × (length done.0 ≡ 2 ^ 12)
      × (length done.1 ≡ 2 ^ 12)

  levels : Done
  levels =
      partial_depths_lem salt root_seed delta execution root_block delta_block leaf low high 0 10
        placed.0 placed.1 refl placed_lem.1 placed_lem.2 first_level
        (λ k d e lt. placed_lem.0 k d e (omega (arith, lt)))

  leaf-Known :
      (done : Done) (j : ℕ)
      → j < nb_evals
      → Known salt root_seed delta execution root_block delta_block leaf low high 11 leaf
          (nb_evals + j)
          done.0.0
          done.0.1
  leaf-Known done j lt =
      subst
        (λ a.
          Known salt root_seed delta execution root_block delta_block leaf low high 11 a
            (nb_evals + j) done.0.0 done.0.1)
        is_leaf (done.2 (nb_evals + j) (omega arith) (omega (arith, lt)))

  leaf_flag :
      (done : Done) (j : ℕ) → j < nb_evals → flag (drop nb_evals done.0.1) j ≡ not (0 + j == h)
  leaf_flag done j lt = get_or-drop nb_evals done.0.1 j false ∙ elim (leaf-Known done j lt) [
    | inl (e, absent) ↦ absent ∙ ap not (sym ((==_iff (0 + j) h).1 (omega (arith, e))))
    | inr (ne, there, _) ↦ there ∙ ap not (sym (differs (0 + j) h (λ q. ne (omega (arith, q)))))
  ]

  -- The disclosed leaves, from the path alone.
  pub partially_expand_tree_lem :
      (leaves : Nodes) × (partially_expand_tree salt opened_path execution h ≡ some leaves)
      × (length leaves ≡ nb_evals)
      × ((j : ℕ)
          → j < nb_evals
          → j ≢ h
          → node leaves j ≡ tree_node salt root_seed delta execution 11 (nb_evals + j))
  partially_expand_tree_lem = (
    take nb_evals (drop nb_evals levels.0.0),
    expand_from salt opened_path execution h placed levels.0
        (length-path_to salt root_seed delta execution root_block delta_block leaf 0 11) in_range
        (ap
          (λ x.
            place_path (chunks 16 11 opened_path) x (filled full_tree_size zero_seed)
              (filled full_tree_size false))
          (sym is_leaf))
        levels.1
        (flags_fit-true (drop nb_evals levels.0.1) 0 h (λ j lt.
          leaf_flag levels j (omega (arith, lt, length-drop nb_evals levels.0.1, levels.4)))),
    omega (
      arith,
      length-take nb_evals (drop nb_evals levels.0.0),
      length-drop nb_evals levels.0.0,
      levels.3,
    ),
    λ j lt ne.
        get_or-take nb_evals (drop nb_evals levels.0.0) j zero_seed lt
        ∙ get_or-drop nb_evals levels.0.0 j zero_seed
        ∙ seed_known j (leaf-Known levels j lt) ne,
  )
    where
      seed_known :
          (j : ℕ)
          → Known salt root_seed delta execution root_block delta_block leaf low high 11 leaf
              (nb_evals + j)
              levels.0.0
              levels.0.1
          → j ≢ h
          → node levels.0.0 (nb_evals + j)
            ≡ tree_node salt root_seed delta execution 11 (nb_evals + j)
      seed_known j (inl (e, _)) ne = absurd (ne (omega (arith, e)))
      seed_known j (inr (_, _, seed)) ne = seed

-- For a root seed and a `delta` of 16 bytes and a path buffer of 176 bytes, `opening_path` on an
-- index below 2048 succeeds. It returns the hidden leaf of the tree of `fully_expand_tree`, and from
-- the path that it writes `partially_expand_tree` succeeds and restores every other leaf.
pub opened_leaves :
    ⦃c : Crates⦄ (salt root_seed delta path : List U8) (execution h j : ℕ)
    → length root_seed ≡ 16
    → length delta ≡ 16
    → length path ≡ path_size_per_execution
    → h < nb_evals
    → j < nb_evals
    → j ≢ h
    → (hidden : List U8) × (opened : List U8) × (leaves : Nodes) × (opening_path salt root_seed
          delta execution h path
        ≡ some (hidden, opened))
      × (hidden ≡ node (fully_expand_tree salt root_seed delta execution) (nb_evals + h))
      × (partially_expand_tree salt opened execution h ≡ some leaves)
      × (node leaves j ≡ node (fully_expand_tree salt root_seed delta execution) (nb_evals + j))
opened_leaves ⦃c⦄ salt root_seed delta path execution h j root_block delta_block size lt lt_j ne =
    let (leaves, run, _, same) =
      partially_expand_tree_lem salt root_seed delta execution root_block delta_block h lt in
    (
      tree_node salt root_seed delta execution 11 (above (nb_evals + h) 0),
      path_to salt root_seed delta execution root_block delta_block (nb_evals + h) 0 11,
      leaves,
      opening_path_total salt root_seed delta execution root_block delta_block h path lt size,
      ap (tree_node salt root_seed delta execution 11) {x = above (nb_evals + h) 0}
            {y = nb_evals + h} (omega arith)
          ∙ sym (
              fully_expand_tree-Agrees salt root_seed delta execution (nb_evals + h) (omega arith)
                (omega (arith, lt))),
      run,
      same j lt_j ne
          ∙ sym (
              fully_expand_tree-Agrees salt root_seed delta execution (nb_evals + j) (omega arith)
                (omega (arith, lt_j))),
    )
