-- ===== src/FitingTree/InplaceIndex/Correct.antt =====
-- What `InplaceIndex` promises of its operations: index/FITing-tree/inplace_index.h.
use native.Mathlib.Nat.{mul-le-mul_right}
use viper_learned_index.Common.{
  ℕ, ◌+◌, ◌≤◌, ◌<◌, ◌≡◌, ◌≢◌, ◌⊎◌, refl, some, none, Option, List, ◌++◌, arith, length, ◌==◌,
  if◌then◌else◌, Returns,
}
use viper_learned_index.FitingTree.Float.{Float, IsMonotone}
use viper_learned_index.FitingTree.Parameters.{reserve, none_offset, payload_or_none}
use viper_learned_index.FitingTree.Records.{IsSorted}
use viper_learned_index.FitingTree.Scan.Count.{times, copies}
use viper_learned_index.FitingTree.Scan.Range.{in_bounds, between, answer}
use viper_learned_index.FitingTree.Segment.{Segmentation, IsPrecise, ArePrecise}
use viper_learned_index.FitingTree.Tree.{TreeOps, TreeLaws}
use viper_learned_index.FitingTree.InplaceNode.{InplaceNode}
use viper_learned_index.FitingTree.Index
use viper_learned_index.FitingTree.Index.{Index}
use viper_learned_index.FitingTree.Index.View as View
use viper_learned_index.FitingTree.Index.Flush.{Upserted}
use viper_learned_index.FitingTree.Index.Fresh.{Fresh}
use viper_learned_index.FitingTree.Index.Fresh as Built
use viper_learned_index.FitingTree.Index.Upsert as Upsert
use viper_learned_index.FitingTree.Index.Size as Size
use viper_learned_index.FitingTree.Index.Size.{Fits}
use viper_learned_index.FitingTree.Index.Tidy.{IsGood}
use viper_learned_index.FitingTree.InplaceNode
use viper_learned_index.FitingTree.Index.Range as Range
use viper_learned_index.FitingTree.InplaceIndex.Laws.{laws}
use viper_learned_index.FitingTree.InplaceIndex.{
  ops, build, find, range_query, upsert, core_insert, core_get, sizes,
}

module _ (F : Float) (m : IsMonotone F) (trees : TreeOps (InplaceNode F))
    (tlaws : TreeLaws (InplaceNode F) trees) (seg : Segmentation F m) where
  -- Building an index from sorted records with different keys, at least one, is defined, and gives a
  -- valid index that stands for exactly those records, if the constructors' arithmetic on `double`
  -- is precise on the keys.
  pub inplace_build_lem :
      (keys payloads : List ℕ)
      → IsSorted keys
      → length keys ≡ length payloads
      → 0 < length keys
      → IsPrecise F m seg keys
      → Returns
          (build F trees seg.run keys payloads (length keys))
          (Fresh F m (ops F) (laws F m) trees tlaws seg keys payloads)
  inplace_build_lem = Built.build_lem F m (ops F) (laws F m) trees tlaws seg

  module _ (index : Index trees)
      (valid : View.IsValid F m (ops F) (laws F m) trees seg.run index) where
    abbrev pub view : ℕ → Option ℕ
    view = View.view F m (ops F) (laws F m) trees seg.run index

    abbrev pub Predicted : ℕ → Type 0
    Predicted = View.Predicted F m (ops F) (laws F m) trees seg.run index

    -- On a valid index, `find` is defined for a key whose leaf predicts a position within `int`; it
    -- returns the payload stored under the key, and `NONE()` if there is none.
    pub inplace_find_lem :
        (key : ℕ)
        → Predicted key
        → find F trees seg.run index key ≡ some (payload_or_none (view key))
    inplace_find_lem = View.find_lem F m (ops F) (laws F m) trees seg.run tlaws index valid

    -- On a valid index, for a key whose leaf predicts a position within `int`, if the arithmetic of the
    -- nodes' constructors is precise on the keys of the index and this one, and unless the key is
    -- above `max_key` while the right buffer has at most one free cell, `upsert` is defined, keeps the
    -- index valid, stores the payload under the key and changes no other key: in a leaf, with or
    -- without a split, in the left buffer, with or without its flush, or in the right buffer.
    pub inplace_upsert_lem :
        (key payload : ℕ)
        → Predicted key
        → ArePrecise F m seg (λ k. (k ≡ key) ⊎ (view k ≢ none))
        → (index.max_key < key → index.right_buffer.number + 1 < reserve)
        → Returns
            (upsert F trees seg.run index key payload)
            (Upserted F m (ops F) (laws F m) trees tlaws seg key payload index)
    inplace_upsert_lem key payload predicted precise free =
        Upsert.upsert_lem F m (ops F) (laws F m) trees tlaws seg index valid key payload precise
          predicted free

    -- On a valid index whose right buffer has one free cell, the `upsert` of a new key above `max_key`
    -- has no defined result, since the flush reads the cell behind the last one of the buffer.
    pub inplace_upsert-eq-none :
        (key payload : ℕ)
        → index.max_key < key
        → view key ≡ none
        → index.right_buffer.number + 1 ≡ reserve
        → upsert F trees seg.run index key payload ≡ none
    inplace_upsert-eq-none =
        Upsert.upsert-eq-none F m (ops F) (laws F m) trees tlaws seg index valid

    -- On a valid index, for a lower bound from `min_key` on whose leaf predicts a position within
    -- `int`, `range_query` is defined, and what it adds to the answers has each key within the bounds that
    -- the index holds exactly once, with the payload that is stored there, and no other key.
    pub inplace_range_query_lem :
        (lower upper : ℕ) (answers : List (ℕ × ℕ))
        → index.min_key ≤ lower
        → Predicted lower
        → (found : List (ℕ × ℕ)) × (range_query F trees seg.run index lower upper answers
            ≡ some (answers ++ found))
          × ((j : ℕ)
              → let due = if in_bounds lower upper j then view j else none in
                (answer j found ≡ due) × (times j found ≡ copies due))
    inplace_range_query_lem lower upper answers low predicted = (
      Range.expected F m (ops F) (laws F m) trees tlaws seg.run index valid lower upper,
      Range.range_query_lem F m (ops F) (laws F m) trees tlaws seg.run index valid lower upper
          answers low predicted,
      λ j. (
        Range.answer-expected F m (ops F) (laws F m) trees tlaws seg.run index valid lower upper j
            low,
        Range.times-expected F m (ops F) (laws F m) trees tlaws seg.run index valid lower upper j
            low,
      ),
    )

    -- On a valid index, a `range_query` from below `min_key` adds the records of the left buffer that
    -- are within the bounds, and none of the leaves or the right buffer, whatever the upper bound is.
    pub inplace_range_query-below :
        (lower upper : ℕ) (answers : List (ℕ × ℕ))
        → lower < index.min_key
        → range_query F trees seg.run index lower upper answers
          ≡ some (answers ++ between lower upper index.left_buffer.keys index.left_buffer.payloads)
    inplace_range_query-below =
        Range.range_query-below F m (ops F) (laws F m) trees tlaws seg.run index valid

    -- On a valid index, under the conditions of `upsert`, `CoreInsert` is defined, and `CoreGet`
    -- afterwards returns the new offset for the key, and for any other key what it returned before, if
    -- the leaves of the key asked for predict positions within `int` before and after.
    pub inplace_core_get-core_insert :
        (key offset j : ℕ)
        → Predicted key
        → Predicted j
        → ArePrecise F m seg (λ k. (k ≡ key) ⊎ (view k ≢ none))
        → (index.max_key < key → index.right_buffer.number + 1 < reserve)
        → ((index' : Index trees)
            → core_insert F trees seg.run index key offset ≡ some (index', none_offset)
            → View.Predicted F m (ops F) (laws F m) trees seg.run index' j)
        → Returns (core_insert F trees seg.run index key offset) λ r.
          core_get F trees seg.run r.0 j
          ≡ (if key == j then some offset else core_get F trees seg.run index j)
    unfolding Index.core_insert Index.core_get
    inplace_core_get-core_insert key offset j here before precise free after =
        let (index', run, w) = inplace_upsert_lem key offset here precise free in
        let stored =
          View.find_lem F m (ops F) (laws F m) trees seg.run tlaws index' w.valid j
            (after index' (rw run refl)) in
        (
          (index', none_offset),
          rw run refl,
          rw (stored, w.reads j, inplace_find_lem j before) (ground arith),
        )

  number_le : (n : InplaceNode F) {f : ℕ} → IsGood F m (ops F) (laws F m) f n → n.number ≤ n.size
  number_le n good = omega (arith, good.valid.roomy, good.room)

  node-Fits :
      (header cell f : ℕ) (n : InplaceNode F) (s : ℕ × ℕ × ℕ)
      → IsGood F m (ops F) (laws F m) f n
      → Fits s
      → Fits (InplaceNode.node_size F header cell n s)
  unfolding InplaceNode.node_size
  node-Fits header cell f n (model, slot, payload) good h =
      let more = mul-le-mul_right cell (number_le n good) in omega (arith, h, more)

  -- In what `index_size` adds up for a valid index, the bytes of the data are at most those of the
  -- slots, so the fill rate that it prints is at most 100%.
  pub inplace_sizes-Fits :
      (header node_header inner cell : ℕ) (index : Index trees)
      → View.IsValid F m (ops F) (laws F m) trees seg.run index
      → Fits (sizes F trees seg.run header node_header inner cell index)
  inplace_sizes-Fits header node_header inner cell =
      Size.sizes-Fits F m (ops F) (laws F m) trees seg.run
        (InplaceNode.node_size F node_header cell) (node-Fits node_header cell) header inner cell
