-- ===== src/FitingTree/Tests/Leaves.antt =====
-- The search, the nodes and the buffer on four records.
use viper_learned_index.Common.{
  ℕ, ◌≡◌, refl, false, some, List, [], ◌∷◌, arith, length, ◌!◌, Returns,
}
use viper_learned_index.Common.Int.{ℤ}
use viper_learned_index.FitingTree.Records.{IsSorted, rank, lookup}
use viper_learned_index.FitingTree.Search.{predict_int, find_precise_position}
use viper_learned_index.FitingTree.Search.Position.{Reaches, Locates, find_precise_position-Locates}
use viper_learned_index.FitingTree.Search.Prediction.{clamp_lt}
use viper_learned_index.FitingTree.Segment.{Segment, Covers}
use viper_learned_index.FitingTree.Buffer.{Buffer}
use viper_learned_index.FitingTree.Buffer.Point as BufferPoint
use viper_learned_index.FitingTree.Buffer.Point.{buffer_find_lem, buffer_upsert_lem}
use viper_learned_index.FitingTree.InplaceNode
use viper_learned_index.FitingTree.InplaceNode.{InplaceNode}
use viper_learned_index.FitingTree.InplaceNode.Model as InplaceModel
use viper_learned_index.FitingTree.InplaceNode.Fresh as InplaceFresh
use viper_learned_index.FitingTree.InplaceNode.Fresh.{inplace_node_new_lem}
use viper_learned_index.FitingTree.InplaceNode.Point as InplacePoint
use viper_learned_index.FitingTree.InplaceNode.Point.{
  inplace_node_find_lem, inplace_node_upsert_lem,
}
use viper_learned_index.FitingTree.InplaceNode.Range as InplaceRange
use viper_learned_index.FitingTree.InplaceNode.Range.{inplace_node_range_query_lem}
use viper_learned_index.FitingTree.BufferNode
use viper_learned_index.FitingTree.BufferNode.{BufferNode}
use viper_learned_index.FitingTree.BufferNode.Fresh as BufferFresh
use viper_learned_index.FitingTree.BufferNode.Fresh.{buffer_node_new_lem}
use viper_learned_index.FitingTree.BufferNode.Point as BufferNodePoint
use viper_learned_index.FitingTree.BufferNode.Point.{
  view, buffer_node_find_lem, buffer_node_upsert_lem,
}
use viper_learned_index.FitingTree.BufferNode.Merged as BufferMerged
use viper_learned_index.FitingTree.BufferNode.Merged.{merge_buffer_lem}
use viper_learned_index.FitingTree.BufferNode.Range as BufferNodeRange
use viper_learned_index.FitingTree.BufferNode.Range.{buffer_node_range_query_lem}
use viper_learned_index.FitingTree.Tests.Setup.{
  whole, monotone, estimate, estimated, Ascends-IsSorted,
}

abbrev keys : List ℕ
keys = 10 ∷ 20 ∷ 30 ∷ 40 ∷ []

abbrev payloads : List ℕ
payloads = 1 ∷ 2 ∷ 3 ∷ 4 ∷ []

sorted : IsSorted keys
sorted = Ascends-IsSorted keys (omega arith, (omega arith, (omega arith, tt)))

-- One segment with a constant model, which is within `EPSILON` of four records.
abbrev segment : Segment whole
segment = record { first_key = 10; slope = (0, 0, 0); intercept = (0, 0, 0); number = 4 }

segment-Covers : Covers whole monotone keys 0 segment
unfolding predict_int
segment-Covers = record {
  filled = omega arith;
  inside = omega arith;
  first = refl;
  rising = (refl, refl);
  fits = λ k l.
      let p = estimate (0, 0, 0) (0, 0, 0) (keys ! k) in
      let c = clamp_lt 4 p (omega arith) in
      (p, estimated (0, 0, 0) (0, 0, 0) (keys ! k), omega arith, omega arith);
}

reached : Reaches keys 30 3 0
unfolding rank
reached = record {
  inside = omega arith;
  near = omega arith;
  far = omega arith;
  stored = λ i h e. omega (arith, h);
}

find_precise_position_example :
    Returns (find_precise_position keys (length keys) 3 30 (some 0)) (Locates keys 30)
find_precise_position_example = find_precise_position-Locates keys 30 3 0 sorted reached

abbrev inplace_node : InplaceNode whole
inplace_node = record {
  size = 68;
  epsilon = 8;
  number = 4;
  slope = (0, 0, 0);
  intercept = (0, 0, 0);
  keys = keys;
  payloads = payloads;
}

inplace_node_new_example :
    Returns
      (InplaceNode.new whole 4 10 (0, 0, 0) (0, 0, 0) keys payloads 0)
      (InplaceFresh.Fresh whole monotone segment keys payloads 0 sorted refl segment-Covers)
inplace_node_new_example =
    inplace_node_new_lem whole monotone segment keys payloads 0 sorted refl segment-Covers

inplace_node-IsValid : InplaceModel.IsValid whole monotone inplace_node
inplace_node-IsValid = record {
  filled = omega arith;
  keys_full = refl;
  payloads_full = refl;
  sorted = sorted;
  roomy = refl;
  rising = (refl, refl);
  fits = segment-Covers.fits;
}

abbrev guess : ℕ → ℤ
guess key = estimate (0, 0, 0) (0, 0, 0) key

predicted : (key : ℕ) → predict_int whole (0, 0, 0) (0, 0, 0) key ≡ some (guess key)
predicted key = estimated (0, 0, 0) (0, 0, 0) key

inplace_node_find_example : InplaceNode.find whole inplace_node 30 ≡ some 3
unfolding lookup
inplace_node_find_example =
    inplace_node_find_lem whole monotone inplace_node inplace_node-IsValid 30 (guess 30)
      (predicted 30)

inplace_node_upsert_example : Returns (InplaceNode.upsert whole inplace_node 25 9) (
    InplacePoint.Upserted whole monotone inplace_node inplace_node-IsValid 25
      (guess 25)
      (predicted 25)
      9)
inplace_node_upsert_example =
    inplace_node_upsert_lem whole monotone inplace_node inplace_node-IsValid 25 (guess 25)
      (predicted 25) 9 (omega arith)

inplace_node_range_query_example :
    Returns
      (InplaceNode.range_query whole inplace_node false 15 30 [])
      (InplaceRange.Ranged whole monotone inplace_node inplace_node-IsValid 15 30 [])
inplace_node_range_query_example =
    inplace_node_range_query_lem whole monotone inplace_node inplace_node-IsValid 15 30 []
      (guess 15) (predicted 15)

-- A buffer with one record, and its node.
abbrev buffer : Buffer
buffer = record { number = 1; keys = 25 ∷ []; payloads = 7 ∷ [] }

buffer-IsValid : BufferPoint.IsValid buffer
buffer-IsValid = record {
  keys_full = refl;
  payloads_full = refl;
  within = omega arith;
  sorted = Ascends-IsSorted (25 ∷ []) tt;
}

abbrev buffer_node : BufferNode whole
buffer_node = record {
  size = 4;
  slope = (0, 0, 0);
  intercept = (0, 0, 0);
  keys = keys;
  payloads = payloads;
  buffer = buffer;
}

buffer_node-IsValid : BufferNodePoint.IsValid whole monotone buffer_node
unfolding lookup
buffer_node-IsValid = record {
  filled = omega arith;
  keys_full = refl;
  payloads_full = refl;
  sorted = sorted;
  rising = (refl, refl);
  fits = segment-Covers.fits;
  buffered = buffer-IsValid;
  apart = λ j v e. ground arith;
  above = λ j v e. ground arith;
}

buffer_node_new_example :
    Returns
      (BufferNode.new whole 4 10 (0, 0, 0) (0, 0, 0) keys payloads 0)
      (BufferFresh.Fresh whole monotone segment keys payloads 0 sorted refl segment-Covers)
buffer_node_new_example =
    buffer_node_new_lem whole monotone segment keys payloads 0 sorted refl segment-Covers

buffer_node_find_example : BufferNode.find whole buffer_node 25 ≡ some 7
unfolding lookup view
buffer_node_find_example =
    buffer_node_find_lem whole monotone buffer_node buffer_node-IsValid 25 (guess 25) (predicted 25)

buffer_node_upsert_example : Returns (BufferNode.upsert whole buffer_node 35 9) (
    BufferNodePoint.Upserted whole monotone buffer_node buffer_node-IsValid 35
      (guess 35)
      (predicted 35)
      9)
buffer_node_upsert_example =
    buffer_node_upsert_lem whole monotone buffer_node buffer_node-IsValid 35 (guess 35)
      (predicted 35) 9 (omega arith) (omega arith)

merge_buffer_example :
    Returns
      (BufferNode.merge_buffer whole buffer_node)
      (BufferMerged.Merged whole monotone buffer_node buffer_node-IsValid)
merge_buffer_example = merge_buffer_lem whole monotone buffer_node buffer_node-IsValid

buffer_node_range_query_example :
    Returns
      (BufferNode.range_query whole buffer_node false 15 30 [])
      (BufferNodeRange.Ranged whole monotone buffer_node buffer_node-IsValid 15 30 [])
buffer_node_range_query_example =
    buffer_node_range_query_lem whole monotone buffer_node buffer_node-IsValid 15 30 [] (guess 15)
      (predicted 15)
