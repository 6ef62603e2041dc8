-- ===== src/FitingTree/Tests/Buffer.antt =====
-- `BufferIndex` on three records, from their constructor on.
use viper_learned_index.Common.{
  ℕ, ◌≢◌, ◌⊎◌, inl, inr, Option-cases, zero, suc, ◌≤◌, ◌<◌, ◌≡◌, ◌!◌, if◌then◌else◌, refl, ap, sym,
  subst, ◌∙◌, some, none, some_inj, Option, List, [], ◌∷◌, arith, Returns,
}
use viper_learned_index.FitingTree.Parameters.{payload_or_none}
use viper_learned_index.FitingTree.Records.{IsSorted, lookup, lookup_inv}
use viper_learned_index.FitingTree.Scan.Count.{times, copies}
use viper_learned_index.FitingTree.Scan.Range.{in_bounds, between, answer}
use viper_learned_index.FitingTree.Segment.{Segment, IsPrecise}
use viper_learned_index.FitingTree.Tree.{TreeOps, TreeLaws}
use viper_learned_index.FitingTree.Index
use viper_learned_index.FitingTree.Index.{Index}
use viper_learned_index.FitingTree.Index.View as View
use viper_learned_index.FitingTree.Index.Size.{Fits}
use viper_learned_index.FitingTree.Index.Flush.{Upserted}
use viper_learned_index.FitingTree.Index.Fresh.{Fresh}
use viper_learned_index.FitingTree.Tests.Setup.{
  whole, monotone, estimate, estimated, segmentation, precise, list_tree, list_laws,
  Ascends-IsSorted, many, many-IsValid, many_above, many_below,
}
use viper_learned_index.FitingTree.BufferNode
use viper_learned_index.FitingTree.BufferNode.{BufferNode}
use viper_learned_index.FitingTree.InplaceNode.{slice}
use viper_learned_index.FitingTree.BufferIndex
use viper_learned_index.FitingTree.BufferIndex.Laws
use viper_learned_index.FitingTree.BufferIndex.Correct.{
  buffer_index_build_lem, buffer_index_find_lem, buffer_index_upsert_lem,
  buffer_index_upsert-eq-none, buffer_index_range_query_lem, buffer_index_range_query-below,
  buffer_index_sizes-Fits, buffer_index-core_get-core_insert,
}

abbrev keys : List ℕ
keys = 10 ∷ 20 ∷ 30 ∷ []

abbrev payloads : List ℕ
payloads = 1 ∷ 2 ∷ 3 ∷ []

sorted : IsSorted keys
sorted = Ascends-IsSorted keys (omega arith, (omega arith, tt))

keys_le : (i : ℕ) → i < 3 → keys ! i ≤ 30
keys_le zero h = omega arith
keys_le (suc zero) h = omega arith
keys_le (suc (suc zero)) h = omega arith
keys_le (suc (suc (suc i))) h = absurd (omega arith)

keys-IsPrecise : IsPrecise whole monotone segmentation keys
keys-IsPrecise = precise (λ k. k ≤ 30) (λ k h. omega arith) keys (omega arith) sorted keys_le

abbrev trees : TreeOps (BufferNode whole)
trees = list_tree (BufferNode whole)

abbrev tree_laws : TreeLaws (BufferNode whole) trees
tree_laws = list_laws (BufferNode whole)

abbrev run : ℕ → List ℕ → List (Segment whole)
run = segmentation.run

abbrev IsValid : Index trees → Type 0
IsValid = View.IsValid whole monotone (BufferIndex.ops whole) (Laws.laws whole monotone) trees run

abbrev IsUpserted : ℕ → ℕ → Index trees → Index trees → Type 0
IsUpserted =
    Upserted whole monotone (BufferIndex.ops whole) (Laws.laws whole monotone) trees tree_laws
      segmentation

abbrev IsFresh : Index trees → Type 0
IsFresh =
    Fresh whole monotone (BufferIndex.ops whole) (Laws.laws whole monotone) trees tree_laws
      segmentation keys payloads

buffer_index_build_example : Returns (BufferIndex.build whole trees run keys payloads 3) IsFresh
buffer_index_build_example =
    buffer_index_build_lem whole monotone trees tree_laws segmentation keys payloads sorted refl
      (omega arith) keys-IsPrecise

-- What the constructor returns, written out.
abbrev leaf : ℕ → ℕ → ℕ → BufferNode whole
leaf i key payload = record {
  size = 1;
  slope = (0, 0, 0);
  intercept = (i, i, 0);
  keys = key ∷ [];
  payloads = payload ∷ [];
  buffer = many 0 0;
}

abbrev index : Index trees
index = record {
  min_key = 10;
  max_key = 30;
  btree = (10, leaf 0 10 1) ∷ (20, leaf 1 20 2) ∷ (30, leaf 2 30 3) ∷ [];
  left_buffer = many 0 0;
  right_buffer = many 0 0;
}

runs : BufferIndex.build whole trees run keys payloads 3 ≡ some index
unfolding Index.build Index.build_nodes BufferNode.new slice
runs = refl

fresh : IsFresh index
fresh =
    let (i, made, f) =
      buffer_index_build_lem whole monotone trees tree_laws segmentation keys payloads sorted refl
        (omega arith) keys-IsPrecise in
    subst IsFresh (some_inj i index (sym made ∙ runs)) f

-- The models are constant.
predicts : (n : BufferNode whole) (key : ℕ) → Laws.Predicts whole monotone n key
predicts n key = (estimate n.slope n.intercept key, estimated n.slope n.intercept key)

abbrev IsPredicted : Index trees → ℕ → Type 0
IsPredicted =
    View.Predicted whole monotone (BufferIndex.ops whole) (Laws.laws whole monotone) trees run

predicted : (i : Index trees) (key : ℕ) → IsPredicted i key
predicted i key f n found = predicts n key

abbrev shown : Index trees → ℕ → Option ℕ
shown = View.view whole monotone (BufferIndex.ops whole) (Laws.laws whole monotone) trees run

buffer_index_find_example :
    BufferIndex.find whole trees run index 20 ≡ some (payload_or_none (lookup 20 keys payloads))
buffer_index_find_example =
    buffer_index_find_lem whole monotone trees tree_laws segmentation index fresh.valid 20
      (predicted index 20)
    ∙ ap (λ o. some (payload_or_none o)) (fresh.reads 20)

abbrev Due : ℕ → ℕ → Type 0
Due key k = (k ≡ key) ⊎ (shown index k ≢ none)

-- The keys are small.
small : (k : ℕ) → Due 25 k → k ≤ 1000
small k (inl same) = omega arith
small k (inr held) = elim (Option-cases (lookup k keys payloads)) [
  | inl away ↦ absurd (held (fresh.reads k ∙ away))
  | inr (v, at) ↦
      let (i, inside, e) = lookup_inv k v keys payloads at in omega (arith, keys_le i inside, e)
]

buffer_index_upsert_example :
    Returns (BufferIndex.upsert whole trees run index 25 9) (IsUpserted 25 9 index)
buffer_index_upsert_example =
    buffer_index_upsert_lem whole monotone trees tree_laws segmentation index fresh.valid 25 9
      (predicted index 25) (precise (Due 25) small) (λ h. absurd (omega (arith, h)))

buffer_index-core_get_example :
    Returns
      (BufferIndex.core_insert whole trees run index 25 9)
      λ r. BufferIndex.core_get whole trees run r.0 25 ≡ some 9
buffer_index-core_get_example =
    buffer_index-core_get-core_insert whole monotone trees tree_laws segmentation index fresh.valid
      25 9 25 (predicted index 25) (predicted index 25) (precise (Due 25) small)
      (λ h. absurd (omega (arith, h))) (λ i e. predicted i 25)

buffer_index_range_query_example :
    (found : List (ℕ × ℕ)) × (BufferIndex.range_query whole trees run index 15 30 [] ≡ some found)
    × ((j : ℕ)
        → let due = if in_bounds 15 30 j then shown index j else none in
          (answer j found ≡ due) × (times j found ≡ copies due))
buffer_index_range_query_example =
    buffer_index_range_query_lem whole monotone trees tree_laws segmentation index fresh.valid 15 30
      [] (omega arith) (predicted index 15)

-- An index with one record in its left buffer and 63 in its right buffer.
abbrev loaded : Index trees
loaded = record index { left_buffer = many 5 1; right_buffer = many 100 63 }

loaded-IsValid : IsValid loaded
loaded-IsValid = record {
  tidy = fresh.valid.tidy;
  bounded = fresh.valid.bounded;
  covers = fresh.valid.covers;
  ordered = fresh.valid.ordered;
  left = many-IsValid 5 1 (omega arith);
  left_room = omega arith;
  left_below = λ j v e. omega (arith, many_below 5 1 j v e);
  right = many-IsValid 100 63 (omega arith);
  right_room = omega arith;
  right_above = λ j v e. omega (arith, many_above 100 63 j v e);
}

buffer_index_upsert_full_example : BufferIndex.upsert whole trees run loaded 500 9 ≡ none
unfolding View.view lookup
buffer_index_upsert_full_example =
    buffer_index_upsert-eq-none whole monotone trees tree_laws segmentation loaded loaded-IsValid
      500 9 (omega arith) refl refl

buffer_index_range_query_below_example :
    BufferIndex.range_query whole trees run loaded 3 40 [] ≡ some ((5, 5) ∷ [])
unfolding between
buffer_index_range_query_below_example =
    buffer_index_range_query-below whole monotone trees tree_laws segmentation loaded loaded-IsValid
      3 40 [] (omega arith)

buffer_index_sizes_example : Fits (BufferIndex.sizes whole trees run 3000 80 500 16 loaded)
buffer_index_sizes_example =
    buffer_index_sizes-Fits whole monotone trees tree_laws segmentation 3000 80 500 16 loaded
      loaded-IsValid
