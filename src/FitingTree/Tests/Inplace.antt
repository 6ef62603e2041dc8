-- ===== src/FitingTree/Tests/Inplace.antt =====
-- `InplaceIndex` on three records, from their constructor on.
use viper_learned_index.Common.{
  ℕ, ◌≢◌, ◌⊎◌, inl, inr, Option-cases, zero, suc, ◌≤◌, ◌<◌, ◌≡◌, ◌!◌, if◌then◌else◌, refl, ap, sym,
  subst, ◌∙◌, some, none, some_inj, Option, List, [], ◌∷◌, arith, Returns,
}
use viper_learned_index.FitingTree.Parameters.{payload_or_none}
use viper_learned_index.FitingTree.Records.{IsSorted, lookup, lookup_inv}
use viper_learned_index.FitingTree.Scan.Count.{times, copies}
use viper_learned_index.FitingTree.Scan.Range.{in_bounds, between, answer}
use viper_learned_index.FitingTree.Segment.{Segment, IsPrecise}
use viper_learned_index.FitingTree.Tree.{TreeOps, TreeLaws}
use viper_learned_index.FitingTree.Index
use viper_learned_index.FitingTree.Index.{Index}
use viper_learned_index.FitingTree.Index.View as View
use viper_learned_index.FitingTree.Index.Size.{Fits}
use viper_learned_index.FitingTree.Index.Flush.{Upserted}
use viper_learned_index.FitingTree.Index.Fresh.{Fresh}
use viper_learned_index.FitingTree.Tests.Setup.{
  whole, monotone, estimate, estimated, segmentation, precise, list_tree, list_laws,
  Ascends-IsSorted, many, many-IsValid, many_above, many_below,
}
use viper_learned_index.FitingTree.InplaceNode
use viper_learned_index.FitingTree.InplaceNode.{InplaceNode, slice}
use viper_learned_index.FitingTree.InplaceIndex
use viper_learned_index.FitingTree.InplaceIndex.Laws
use viper_learned_index.FitingTree.InplaceIndex.Correct.{
  inplace_build_lem, inplace_find_lem, inplace_upsert_lem, inplace_upsert-eq-none,
  inplace_range_query_lem, inplace_range_query-below, inplace_sizes-Fits,
  inplace_core_get-core_insert,
}

abbrev keys : List ℕ
keys = 10 ∷ 20 ∷ 30 ∷ []

abbrev payloads : List ℕ
payloads = 1 ∷ 2 ∷ 3 ∷ []

sorted : IsSorted keys
sorted = Ascends-IsSorted keys (omega arith, (omega arith, tt))

keys_le : (i : ℕ) → i < 3 → keys ! i ≤ 30
keys_le zero h = omega arith
keys_le (suc zero) h = omega arith
keys_le (suc (suc zero)) h = omega arith
keys_le (suc (suc (suc i))) h = absurd (omega arith)

keys-IsPrecise : IsPrecise whole monotone segmentation keys
keys-IsPrecise = precise (λ k. k ≤ 30) (λ k h. omega arith) keys (omega arith) sorted keys_le

abbrev trees : TreeOps (InplaceNode whole)
trees = list_tree (InplaceNode whole)

abbrev tree_laws : TreeLaws (InplaceNode whole) trees
tree_laws = list_laws (InplaceNode whole)

abbrev run : ℕ → List ℕ → List (Segment whole)
run = segmentation.run

abbrev IsValid : Index trees → Type 0
IsValid = View.IsValid whole monotone (InplaceIndex.ops whole) (Laws.laws whole monotone) trees run

abbrev IsUpserted : ℕ → ℕ → Index trees → Index trees → Type 0
IsUpserted =
    Upserted whole monotone (InplaceIndex.ops whole) (Laws.laws whole monotone) trees tree_laws
      segmentation

abbrev IsFresh : Index trees → Type 0
IsFresh =
    Fresh whole monotone (InplaceIndex.ops whole) (Laws.laws whole monotone) trees tree_laws
      segmentation keys payloads

inplace_build_example : Returns (InplaceIndex.build whole trees run keys payloads 3) IsFresh
inplace_build_example =
    inplace_build_lem whole monotone trees tree_laws segmentation keys payloads sorted refl
      (omega arith) keys-IsPrecise

-- What the constructor returns, written out.
abbrev leaf : ℕ → ℕ → ℕ → InplaceNode whole
leaf i key payload = record {
  size = 65;
  epsilon = 8;
  number = 1;
  slope = (0, 0, 0);
  intercept = (i, i, 0);
  keys = key ∷ [];
  payloads = payload ∷ [];
}

abbrev index : Index trees
index = record {
  min_key = 10;
  max_key = 30;
  btree = (10, leaf 0 10 1) ∷ (20, leaf 1 20 2) ∷ (30, leaf 2 30 3) ∷ [];
  left_buffer = many 0 0;
  right_buffer = many 0 0;
}

runs : InplaceIndex.build whole trees run keys payloads 3 ≡ some index
unfolding Index.build Index.build_nodes InplaceNode.new slice
runs = refl

fresh : IsFresh index
fresh =
    let (i, made, f) =
      inplace_build_lem whole monotone trees tree_laws segmentation keys payloads sorted refl
        (omega arith) keys-IsPrecise in
    subst IsFresh (some_inj i index (sym made ∙ runs)) f

-- The models are constant.
predicts : (n : InplaceNode whole) (key : ℕ) → Laws.Predicts whole monotone n key
predicts n key = (estimate n.slope n.intercept key, estimated n.slope n.intercept key)

abbrev IsPredicted : Index trees → ℕ → Type 0
IsPredicted =
    View.Predicted whole monotone (InplaceIndex.ops whole) (Laws.laws whole monotone) trees run

predicted : (i : Index trees) (key : ℕ) → IsPredicted i key
predicted i key f n found = predicts n key

abbrev shown : Index trees → ℕ → Option ℕ
shown = View.view whole monotone (InplaceIndex.ops whole) (Laws.laws whole monotone) trees run

inplace_find_example :
    InplaceIndex.find whole trees run index 20 ≡ some (payload_or_none (lookup 20 keys payloads))
inplace_find_example =
    inplace_find_lem whole monotone trees tree_laws segmentation index fresh.valid 20
      (predicted index 20)
    ∙ ap (λ o. some (payload_or_none o)) (fresh.reads 20)

abbrev Due : ℕ → ℕ → Type 0
Due key k = (k ≡ key) ⊎ (shown index k ≢ none)

-- The keys are small.
small : (k : ℕ) → Due 25 k → k ≤ 1000
small k (inl same) = omega arith
small k (inr held) = elim (Option-cases (lookup k keys payloads)) [
  | inl away ↦ absurd (held (fresh.reads k ∙ away))
  | inr (v, at) ↦
      let (i, inside, e) = lookup_inv k v keys payloads at in omega (arith, keys_le i inside, e)
]

inplace_upsert_example :
    Returns (InplaceIndex.upsert whole trees run index 25 9) (IsUpserted 25 9 index)
inplace_upsert_example =
    inplace_upsert_lem whole monotone trees tree_laws segmentation index fresh.valid 25 9
      (predicted index 25) (precise (Due 25) small) (λ h. absurd (omega (arith, h)))

inplace_core_get_example :
    Returns
      (InplaceIndex.core_insert whole trees run index 25 9)
      λ r. InplaceIndex.core_get whole trees run r.0 25 ≡ some 9
inplace_core_get_example =
    inplace_core_get-core_insert whole monotone trees tree_laws segmentation index fresh.valid 25 9
      25 (predicted index 25) (predicted index 25) (precise (Due 25) small)
      (λ h. absurd (omega (arith, h))) (λ i e. predicted i 25)

inplace_range_query_example :
    (found : List (ℕ × ℕ)) × (InplaceIndex.range_query whole trees run index 15 30 [] ≡ some found)
    × ((j : ℕ)
        → let due = if in_bounds 15 30 j then shown index j else none in
          (answer j found ≡ due) × (times j found ≡ copies due))
inplace_range_query_example =
    inplace_range_query_lem whole monotone trees tree_laws segmentation index fresh.valid 15 30 []
      (omega arith) (predicted index 15)

-- An index with one record in its left buffer and 63 in its right buffer.
abbrev loaded : Index trees
loaded = record index { left_buffer = many 5 1; right_buffer = many 100 63 }

loaded-IsValid : IsValid loaded
loaded-IsValid = record {
  tidy = fresh.valid.tidy;
  bounded = fresh.valid.bounded;
  covers = fresh.valid.covers;
  ordered = fresh.valid.ordered;
  left = many-IsValid 5 1 (omega arith);
  left_room = omega arith;
  left_below = λ j v e. omega (arith, many_below 5 1 j v e);
  right = many-IsValid 100 63 (omega arith);
  right_room = omega arith;
  right_above = λ j v e. omega (arith, many_above 100 63 j v e);
}

inplace_upsert_full_example : InplaceIndex.upsert whole trees run loaded 500 9 ≡ none
unfolding View.view lookup
inplace_upsert_full_example =
    inplace_upsert-eq-none whole monotone trees tree_laws segmentation loaded loaded-IsValid 500 9
      (omega arith) refl refl

inplace_range_query_below_example :
    InplaceIndex.range_query whole trees run loaded 3 40 [] ≡ some ((5, 5) ∷ [])
unfolding between
inplace_range_query_below_example =
    inplace_range_query-below whole monotone trees tree_laws segmentation loaded loaded-IsValid 3 40
      [] (omega arith)

inplace_sizes_example : Fits (InplaceIndex.sizes whole trees run 3000 80 500 16 loaded)
inplace_sizes_example =
    inplace_sizes-Fits whole monotone trees tree_laws segmentation 3000 80 500 16 loaded
      loaded-IsValid
