-- ===== src/FitingTree/Index.antt =====
-- `InplaceIndex` of index/FITing-tree/inplace_index.h, over the operations of its leaves and of the
-- B+ tree. `BufferIndex` (buffer_index.h) has the same text but for `merge_buffer`, which is part of
-- what a leaf does before a split, and for the bound that triggers the split. The timers `Log…` keep
-- no state of the index, and are left out.
pub mod Tidy
pub mod Build
pub mod Leaf
pub mod View
pub mod Flush
pub mod Upsert
pub mod Size
pub mod Fresh
pub mod Walk
pub mod Range
use viper_learned_index.Common.{
  ℕ, ◌+◌, ◌-◌, ◌*◌, Bool, true, false, not, ◌&&◌, Option, none, some, List, [], ◌∷◌, ltb, ◌==◌,
  if◌then◌else◌, get_elem?, sub_size, ◌>>=◌,
}
use viper_learned_index.FitingTree.Float.{Float}
use viper_learned_index.FitingTree.Parameters.{reserve, none_offset}
use viper_learned_index.FitingTree.Buffer
use viper_learned_index.FitingTree.Buffer.{Buffer}
use viper_learned_index.FitingTree.Segment.{Segment}
use viper_learned_index.FitingTree.Node.{NodeOps}
use viper_learned_index.FitingTree.Tree.{TreeOps}

pub record Index {V : Type 0} (trees : TreeOps V) : Type 0 where
  pub min_key : ℕ
  pub max_key : ℕ
  pub btree : trees.Tree
  pub left_buffer : Buffer
  pub right_buffer : Buffer

module _ {F : Float} (ops : NodeOps F) where
  -- The loop that builds the leaves: one node for each segment, `start_pos` on.
  unfoldable pub build_nodes : List (Segment F) → List ℕ → List ℕ → ℕ → Option (List (ℕ × ops.Node))
  build_nodes [] keys payloads start = some []
  build_nodes (s ∷ ss) keys payloads start = do
    node ← ops.make s keys payloads start
    rest ← build_nodes ss keys payloads (start + s.number)
    some ((s.first_key, node) ∷ rest)

  -- The entries behind the one with key `f`.
  unfoldable pub behind : ℕ → List (ℕ × ops.Node) → List (ℕ × ops.Node)
  behind f [] = []
  behind f ((g, n) ∷ es) = if g == f then es else behind f es

  -- `while (it->second->range_query(true, …)) if (++it == end()) { right_buffer.range_query(…); break; }`
  unfoldable pub walk : Buffer → ℕ → ℕ → List (ℕ × ops.Node) → List (ℕ × ℕ) → Option (List (ℕ × ℕ))
  walk right lower upper [] answers = none
  walk right lower upper ((f, n) ∷ []) answers = do
    (found, end) ← ops.range_query n true lower upper answers
    if end then Buffer.range_query right lower upper found else some found
  walk right lower upper ((f, n) ∷ e ∷ es) answers = do
    (found, end) ← ops.range_query n true lower upper answers
    let rest = walk right lower upper (e ∷ es) found in if end then rest else some found

  -- After the first node: `++it`, and on to the right buffer or to the loop.
  unfoldable pub walk_on :
      Buffer → ℕ → ℕ → List (ℕ × ops.Node) → List (ℕ × ℕ) → Option (List (ℕ × ℕ))
  unfolding walk
  walk_on right lower upper [] answers = Buffer.range_query right lower upper answers
  walk_on right lower upper (e ∷ es) answers = walk right lower upper (e ∷ es) answers

-- The sums of `index_size`: of the models, of the slots, and of the data. `node_size` is that of the
-- leaves, `header` is `sizeof(*this)`, `inner` the bytes of the B+ tree by its statistics, and `cell`
-- is `sizeof(K) + sizeof(P)`.
module _ {V : Type 0} (trees : TreeOps V) (node_size : V → ℕ × ℕ × ℕ → ℕ × ℕ × ℕ) where
  unfoldable pub node_sizes : List (ℕ × V) → ℕ × ℕ × ℕ → ℕ × ℕ × ℕ
  node_sizes [] sums = sums
  node_sizes ((f, n) ∷ es) sums = node_sizes es (node_size n sums)

  unfoldable pub sizes : ℕ → ℕ → ℕ → Index trees → ℕ × ℕ × ℕ
  unfolding node_sizes
  sizes header inner cell index = node_sizes (trees.entries index.btree) (
    sub_size header (2 * reserve * cell) + inner,
    2 * reserve * cell,
    (index.left_buffer.number + index.right_buffer.number) * cell,
  )

  abbrev pub index_size : ℕ → ℕ → ℕ → Index trees → ℕ
  index_size header inner cell index =
      let (model, slot, payload) = sizes header inner cell index in model + slot

  abbrev pub index_model_size : ℕ → ℕ → ℕ → Index trees → ℕ
  index_model_size header inner cell index =
      let (model, slot, payload) = sizes header inner cell index in model

module _ {F : Float} (ops : NodeOps F) (trees : TreeOps ops.Node)
    (run : ℕ → List ℕ → List (Segment F)) where
  -- The constructor and `build`.
  unfoldable pub build : List ℕ → List ℕ → ℕ → Option (Index trees)
  unfolding build_nodes
  build keys payloads number = do
    min_key ← get_elem? keys 0
    max_key ← get_elem? keys (sub_size number 1)
    nodes ← build_nodes ops (run number keys) keys payloads 0
    some (record {
      min_key = min_key;
      max_key = max_key;
      btree = trees.bulk_load nodes;
      left_buffer = Buffer.empty;
      right_buffer = Buffer.empty;
    })

  -- `!less_than(key, min_key) && !greater_than(key, max_key)`
  abbrev pub in_range : Index trees → ℕ → Bool
  in_range index key = not (ltb key index.min_key) && not (ltb index.max_key key)

  unfoldable pub find : Index trees → ℕ → Option ℕ
  find index key =
      if in_range index key
      then (do (f, node) ← trees.before index.btree key; ops.find node key)
      else if ltb key index.min_key
      then Buffer.find index.left_buffer key
      else Buffer.find index.right_buffer key

  unfoldable pub range_query : Index trees → ℕ → ℕ → List (ℕ × ℕ) → Option (List (ℕ × ℕ))
  unfolding behind walk_on
  range_query index lower upper answers =
      if in_range index lower
      then (do
        (f, node) ← trees.before index.btree lower
        (found, end) ← ops.range_query node false lower upper answers
        if end
            then walk_on ops index.right_buffer lower upper
                (behind ops f (trees.entries index.btree)) found
            else some found)
      else if ltb lower index.min_key
      then (do
        found ← Buffer.range_query index.left_buffer lower upper answers
        if not (ltb lower index.max_key)
            then walk ops index.right_buffer lower upper (trees.entries index.btree) found
            else some found)
      else Buffer.range_query index.right_buffer lower upper answers

  -- The split of a leaf: it leaves the tree, and the nodes built from its records enter.
  unfoldable pub split_leaf : Index trees → ℕ → ops.Node → Option (Index trees)
  unfolding build_nodes
  split_leaf index f leaf = do
    let rest = trees.erase index.btree f
    leaf' ← ops.settle leaf
    nodes ←
        build_nodes ops (run (ops.get_number leaf') (ops.get_keys leaf')) (ops.get_keys leaf')
          (ops.get_payloads leaf') 0
    some (record index { btree = trees.insert rest nodes })

  -- A full left buffer becomes nodes before the first leaf.
  unfoldable pub flush_left : Index trees → Buffer → Option (Index trees)
  unfolding build_nodes
  flush_left index left = do
    nodes ← build_nodes ops (run reserve left.keys) left.keys left.payloads 0
    min_key ← get_elem? left.keys 0
    some (record index {
      btree = trees.insert index.btree nodes;
      min_key = min_key;
      left_buffer = Buffer.init left;
    })

  -- A full right buffer becomes nodes behind the last leaf; `max_key` is read at `keys[number]`.
  unfoldable pub flush_right : Index trees → Buffer → Option (Index trees)
  unfolding build_nodes
  flush_right index right = do
    nodes ← build_nodes ops (run reserve right.keys) right.keys right.payloads 0
    max_key ← get_elem? right.keys right.number
    some (record index {
      btree = trees.insert index.btree nodes;
      max_key = max_key;
      right_buffer = Buffer.init right;
    })

  unfoldable pub upsert : Index trees → ℕ → ℕ → Option (Index trees)
  upsert index key payload =
      if in_range index key
      then (do
        (f, leaf) ← trees.before index.btree key
        (leaf', ref) ← ops.upsert leaf key payload
        if ltb ref ops.split_bound
            then some (record index { btree = trees.assign index.btree f leaf' })
            else split_leaf index f leaf')
      else if ltb key index.min_key
      then (do
        (left, ref) ← Buffer.upsert index.left_buffer key payload
        if ltb ref reserve
            then some (record index { left_buffer = left })
            else flush_left index left)
      else (do
        (right, ref) ← Buffer.upsert index.right_buffer key payload
        if ltb ref reserve
            then some (record index { right_buffer = right })
            else flush_right index right)

  -- The interface of `BaseIndex`.
  unfoldable pub core_insert : Index trees → ℕ → ℕ → Option (Index trees × ℕ)
  core_insert index key offset = do index' ← upsert index key offset; some (index', none_offset)

  unfoldable pub core_get : Index trees → ℕ → Option ℕ
  core_get index key = find index key
