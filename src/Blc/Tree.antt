-- ===== src/Blc/Tree.antt =====
-- The seed trees of src/blc.rs. A tree is an array of 4096 seeds: the children of node i are 2 i and
-- 2 i + 1, the leaves are the upper half, and nodes 0 and 1 are not used. The functions that fill an
-- array take it and return it.
pub mod Node
pub mod Full
pub mod Path
pub mod Placed
pub mod Round
pub mod Partial
pub mod Depths
pub mod Opened
pub mod Sum
mod Tests
use mqom_rs.Base.{
  ℕ, zero, suc, ◌+◌, ◌-◌, ◌*◌, ◌/◌, bit_and, bit_xor, ◌<<<◌, ◌>>>◌, U8, to_u8, Option, some, List,
  [], ◌∷◌, length, take, drop, set, get_or, Bool, true, false, not, ltb, ◌==◌, ◌&&◌, if◌then◌else◌,
  ◌>>=◌, ◌>>◌, guard,
}
use mqom_rs.Bytes.{filled, xor_zip, write_at}
use mqom_rs.Params.{seed_size, nb_evals, nb_evals_log}
use mqom_rs.Crates.{Crates}
use mqom_rs.Field.Packing.{zero_byte}
use mqom_rs.Prg.{SeedDeriver, new_deriver, derive, tweak_salt, u16_try_from, xor_at}
use mqom_rs.Blc.{commitment_size, path_size_per_execution, full_tree_size, zero_seed}

-- `chunks_exact(size)`, with the number of chunks left.
unfoldable pub chunks {ℓ} : {A : Type ℓ} → ℕ → ℕ → List A → List (List A)
chunks size zero bytes = []
chunks size (suc left) bytes = take size bytes ∷ chunks size left (drop size bytes)

-- The nodes, and which of them are present.
abbrev pub Nodes : Type 0
Nodes = List (List U8)

abbrev pub node : Nodes → ℕ → List U8
node nodes i = get_or nodes i zero_seed

abbrev pub flag : List Bool → ℕ → Bool
flag present i = get_or present i false

-- The first loop of `partially_expand_tree`, over the chunks of the path.
unfoldable pub place_path : List (List U8) → ℕ → Nodes → List Bool → Nodes × List Bool
place_path [] node_index nodes present = (nodes, present)
place_path (sibling_seed ∷ rest) node_index nodes present =
    let sibling_index = bit_xor node_index 1 in
    place_path rest (node_index / 2) (set nodes sibling_index sibling_seed)
      (set present sibling_index true)

-- The check of the flags of the leaves, from leaf `index` on.
unfoldable pub flags_fit : List Bool → ℕ → ℕ → Bool
flags_fit [] index hidden_index = true
flags_fit (is_present ∷ rest) index hidden_index =
    let later = flags_fit rest (index + 1) hidden_index in
    if is_present then not (index == hidden_index) && later else index == hidden_index && later

module _ ⦃c : Crates⦄ where
  pub record SeedCommitter : Type 0 where
    pub first : SeedDeriver
    pub second : SeedDeriver

  -- `SeedCommitter::new`.
  unfoldable pub new_committer : List U8 → ℕ → SeedCommitter
  new_committer salt execution =
      let first_key = tweak_salt salt 0 execution 0 in
      let second_key = xor_at first_key 0 (to_u8 1) in
      record { first = new_deriver first_key; second = new_deriver second_key }

  -- `SeedCommitter::commit`.
  unfoldable pub commit_seed : SeedCommitter → List U8 → List U8
  commit_seed committer seed =
      let half = write_at (filled commitment_size zero_byte) 0 (derive committer.first seed) in
      write_at half seed_size (derive committer.second seed)

  -- The deriver of the children at a depth.
  abbrev pub depth_deriver : List U8 → ℕ → ℕ → SeedDeriver
  depth_deriver salt execution depth_index = new_deriver (tweak_salt salt 2 execution depth_index)

  -- The nodes with both children of `parent_index` written.
  abbrev pub with_children : SeedDeriver → ℕ → Nodes → Nodes
  with_children deriver parent_index nodes =
      let parent = node nodes parent_index in
      let left_index = 2 * parent_index in
      let left = derive deriver parent in
      let right = xor_zip left parent in set (set nodes left_index left) (left_index + 1) right

  -- The inner loop of `fully_expand_tree`, from `parent_index` on, with the parents left.
  unfoldable pub full_level : SeedDeriver → ℕ → ℕ → Nodes → Nodes
  full_level deriver parent_index zero nodes = nodes
  full_level deriver parent_index (suc left) nodes =
      full_level deriver (parent_index + 1) left (with_children deriver parent_index nodes)

  -- Its outer loop, from `depth` on. The depth, below 11, always fits a `u16`.
  unfoldable pub full_depths : List U8 → ℕ → ℕ → ℕ → Nodes → Nodes
  full_depths salt execution depth zero nodes = nodes
  full_depths salt execution depth (suc left) nodes =
      let deriver = depth_deriver salt execution (depth - 1) in
      full_depths salt execution (depth + 1) left
        (full_level deriver (1 <<< depth) ((1 <<< (depth + 1)) - (1 <<< depth)) nodes)

  unfoldable pub fully_expand_tree : List U8 → List U8 → List U8 → ℕ → Nodes
  fully_expand_tree salt root_seed delta execution =
      let nodes = set (filled full_tree_size zero_seed) 2 root_seed in
      full_depths salt execution 1 (nb_evals_log - 1) (set nodes 3 (xor_zip root_seed delta))

  -- The inner loop of `partially_expand_tree`.
  unfoldable pub partial_level : SeedDeriver → ℕ → ℕ → Nodes → List Bool → Nodes × List Bool
  partial_level deriver parent_index zero nodes present = (nodes, present)
  partial_level deriver parent_index (suc left) nodes present = elim (flag present parent_index) [
    | false ↦ partial_level deriver (parent_index + 1) left nodes present
    | true ↦
        partial_level deriver (parent_index + 1) left (with_children deriver parent_index nodes)
          (set (set present (2 * parent_index) true) (2 * parent_index + 1) true)
  ]

  -- Its outer loop, from `depth` on.
  unfoldable pub partial_depths :
      List U8 → ℕ → ℕ → ℕ → Nodes → List Bool → Option (Nodes × List Bool)
  partial_depths salt execution depth zero nodes present = some (nodes, present)
  partial_depths salt execution depth (suc left) nodes present = do
    depth_index ← u16_try_from (depth - 1)
    let deriver = depth_deriver salt execution depth_index
    let (grown, known) =
        partial_level deriver (1 <<< depth) ((1 <<< (depth + 1)) - (1 <<< depth)) nodes present
    partial_depths salt execution (depth + 1) left grown known

  unfoldable pub partially_expand_tree : List U8 → List U8 → ℕ → ℕ → Option Nodes
  partially_expand_tree salt path execution hidden_index = do
    guard (length path == path_size_per_execution && ltb hidden_index nb_evals)
    let (placed, known) =
        place_path (chunks seed_size (length path / seed_size) path) (nb_evals + hidden_index)
          (filled full_tree_size zero_seed) (filled full_tree_size false)
    (nodes, present) ← partial_depths salt execution 1 (nb_evals_log - 1) placed known
    guard (flags_fit (drop nb_evals present) 0 hidden_index)
    some (take nb_evals (drop nb_evals nodes))

  -- The left child at `depth` in `opening_path`.
  unfoldable pub left_child : List U8 → List U8 → ℕ → ℕ → List U8 → Option (List U8)
  left_child salt root_seed execution zero parent = some root_seed
  left_child salt root_seed execution (suc depth) parent = do
    depth_index ← u16_try_from (suc depth - 1)
    some (derive (depth_deriver salt execution depth_index) parent)

  -- The loop of `opening_path` from `depth` on.
  unfoldable pub path_loop :
      List U8 → List U8 → ℕ → ℕ → ℕ → ℕ → List U8 → List U8 → Option (List U8 × List U8)
  path_loop salt root_seed execution leaf_index depth zero parent path = some (parent, path)
  path_loop salt root_seed execution leaf_index depth (suc rounds) parent path = do
    left ← left_child salt root_seed execution depth parent
    let right = xor_zip left parent
    let bit = bit_and (leaf_index >>> (nb_evals_log - 1 - depth)) 1
    let sides : List U8 × List U8 = if bit == 0 then (left, right) else (right, left)
    let (selected, sibling) = sides
    let path_index = nb_evals_log - 1 - depth
    path_loop salt root_seed execution leaf_index (depth + 1) rounds selected
        (write_at path (path_index * seed_size) sibling)

  unfoldable pub opening_path :
      List U8 → List U8 → List U8 → ℕ → ℕ → List U8 → Option (List U8 × List U8)
  opening_path salt root_seed delta execution hidden_index path = do
    guard (ltb hidden_index nb_evals && length path == path_size_per_execution)
    path_loop salt root_seed execution (nb_evals + hidden_index) 0 nb_evals_log delta path
