-- ===== src/FitingTree/Index/Flush.antt =====
-- A full left buffer turned into leaves: nothing that the index stands for changes.
use viper_learned_index.Common.{
  ℕ, ◌≤◌, ◌<◌, ◌≡◌, refl, sym, ap, subst, ◌∙◌, Option, none, some, List, [], ◌++◌, arith, length,
  ◌!◌, ltb, inl, lt→ltb, le→ltb, inr, lt_cases, or_else, Bool-cases, ◌==◌, if◌then◌else◌,
}
use viper_learned_index.FitingTree.Float.{Float, IsMonotone}
use viper_learned_index.FitingTree.Parameters.{reserve}
use viper_learned_index.FitingTree.Records.{lookup, lookup_hit, lookup-eq-none}
use viper_learned_index.FitingTree.Buffer
use viper_learned_index.FitingTree.Buffer.{Buffer}
use viper_learned_index.FitingTree.Buffer.Point as BufferPoint
use viper_learned_index.FitingTree.Segment.{Segmentation}
use viper_learned_index.FitingTree.Node.{NodeOps, NodeLaws}
use viper_learned_index.FitingTree.Tree.{TreeOps, TreeLaws}
use viper_learned_index.FitingTree.Entries.{Above, insert_all}
use viper_learned_index.FitingTree.Entries.Laws.{insert_all-middle}
use viper_learned_index.FitingTree.Index.{Index}
use viper_learned_index.FitingTree.Index.Build.{IsKey, Built}
use viper_learned_index.FitingTree.Index.Tidy.{
  Within, Tidy, Tidy-append, Tidy-IsOrdered, seen, seen-append, seen-eq-none, Within-mono,
  Within-Above,
}
use viper_learned_index.FitingTree.Index.Leaf.{Within-append, Within-Precede}
use viper_learned_index.FitingTree.Index.View.{IsValid, view}

or_else_is_some {ℓ} : {A : Type ℓ} (o : Option A) (a : A) → (b : A) × (or_else o (some a) ≡ some b)
or_else_is_some none a = (a, refl)
or_else_is_some (some c) a = (c, refl)

module _ (F : Float) (m : IsMonotone F) (ops : NodeOps F) (laws : NodeLaws F m ops)
    (trees : TreeOps ops.Node) (tlaws : TreeLaws ops.Node trees) (seg : Segmentation F m) where
  open ops use {Node}

  -- `index'` is valid and stands for what `index` does, with `payload` under `key`.
  pub record Upserted (key payload : ℕ) (index index' : Index trees) : Type 0 where
    pub valid : IsValid F m ops laws trees seg.run index'
    pub reads :
        (j : ℕ)
        → view F m ops laws trees seg.run index' j
          ≡ (if key == j then some payload else view F m ops laws trees seg.run index j)

  module _ (index : Index trees) (valid : IsValid F m ops laws trees seg.run index)
      (key payload : ℕ) (below : key < index.min_key) (r : Buffer × ℕ)
      (w : BufferPoint.Upserted index.left_buffer valid.left key payload r) where
    abbrev pub es : List (ℕ × Node)
    es = trees.entries index.btree

    from_min : Within F m ops laws (λ i. index.min_key ≤ i) es
    from_min = Within-mono F m ops laws _ _ es (λ j h. h.0) valid.bounded

    -- What the buffer holds stays below the leaves.
    left_below : (j v : ℕ) → lookup j r.0.keys r.0.payloads ≡ some v → j < index.min_key
    left_below j v e = elim (Bool-cases (key == j)) [
      | inl same ↦ ground arith
      | inr other ↦ valid.left_below j v (ground (arith, w.reads j))
    ]

    pub store_left-Upserted :
        r.1 < reserve → Upserted key payload index (record index { left_buffer = r.0 })
    unfolding view
    store_left-Upserted room = record {
      valid = record {
        tidy = valid.tidy;
        bounded = valid.bounded;
        covers = valid.covers;
        ordered = valid.ordered;
        left = w.still_valid;
        left_room = omega (arith, w.counted);
        left_below = left_below;
        right = valid.right;
        right_room = valid.right_room;
        right_above = valid.right_above;
      };
      reads = λ j. ground (arith, w.reads j, valid.ordered);
    }

    pub full : length r.0.keys ≡ length r.0.payloads
    full = w.still_valid.keys_full ∙ sym w.still_valid.payloads_full

    key_below : (j : ℕ) → IsKey r.0.keys 0 j → j < index.min_key
    key_below j (i, low, inside, at) =
        left_below j _ (lookup_hit i j r.0.keys r.0.payloads w.still_valid.sorted inside full at)

    module _ (filled : 0 < length r.0.keys) (nodes : List (ℕ × Node))
        (b : Built F m ops laws r.0.keys r.0.payloads w.still_valid.sorted full 0 nodes) where
      abbrev pub least : ℕ
      least = r.0.keys ! 0

      nodes_below : Within F m ops laws (λ j. Above j es) nodes
      nodes_below =
          Within-mono F m ops laws (IsKey r.0.keys 0) _ nodes
            (λ j k. Within-Above F m ops laws j index.min_key es (key_below j k) from_min) b.stored

      joined-Tidy : Tidy F m ops laws (nodes ++ es)
      joined-Tidy = Tidy-append F m ops laws nodes es b.tidy valid.tidy nodes_below

      entries_flush : insert_all nodes es ≡ nodes ++ es
      entries_flush =
          insert_all-middle nodes [] es (Tidy-IsOrdered F m ops laws nodes b.tidy) tt
            (Within-Precede F m ops laws nodes es nodes_below)

      seen_joined :
          (j : ℕ)
          → seen F m ops laws (nodes ++ es) j
            ≡ or_else (seen F m ops laws es j) (seen F m ops laws nodes j)
      seen_joined j =
          seen-append F m ops laws j nodes es
            (Tidy-IsOrdered F m ops laws (nodes ++ es) joined-Tidy)

      key_from_least : (j : ℕ) → IsKey r.0.keys 0 j → least ≤ j
      key_from_least j (i, low, inside, at) = grind (arith, w.still_valid.sorted 0 i)

      least_below : least < index.min_key
      least_below = key_below (r.0.keys ! 0) (0, omega arith, filled, refl)

      joined_bounded : Within F m ops laws (λ i. (least ≤ i) × (i ≤ index.max_key)) (nodes ++ es)
      joined_bounded =
          Within-append F m ops laws _ nodes es
            (Within-mono F m ops laws (IsKey r.0.keys 0) _ nodes
              (λ j k. (key_from_least j k, omega (arith, key_below j k, valid.ordered))) b.stored)
            (Within-mono F m ops laws _ _ es (λ j h. (omega (arith, least_below, h.0), h.1))
              valid.bounded)

      abbrev pub flushed : Index trees
      flushed = record index {
        btree = trees.insert index.btree nodes;
        min_key = least;
        left_buffer = Buffer.empty;
      }

      entries_flushed : trees.entries flushed.btree ≡ nodes ++ es
      entries_flushed = tlaws.entries-insert index.btree nodes ∙ entries_flush

      nodes_read :
          (j : ℕ)
          → seen F m ops laws nodes j
            ≡ (if ltb j least then none else some (lookup j r.0.keys r.0.payloads))
      nodes_read j = rw (b.reads j, lt→ltb 0 (length r.0.keys) filled) (ground arith)

      -- Before the old `min_key` the new leaves answer, from it on the old ones.
      flushed_seen :
          (j : ℕ)
          → least ≤ j
          → seen F m ops laws (trees.entries flushed.btree) j
            ≡ or_else (seen F m ops laws es j) (some (lookup j r.0.keys r.0.payloads))
      flushed_seen j h =
          ap (λ x. seen F m ops laws x j) entries_flushed
          ∙ seen_joined j
          ∙ rw (nodes_read j, le→ltb j least h)

      old_seen : (j : ℕ) → j < index.min_key → seen F m ops laws es j ≡ none
      old_seen j h =
          seen-eq-none F m ops laws j es (Within-Above F m ops laws j index.min_key es h from_min)

      flushed-IsValid : IsValid F m ops laws trees seg.run flushed
      flushed-IsValid = record {
        tidy = subst (Tidy F m ops laws) (sym entries_flushed) joined-Tidy;
        bounded =
            subst (Within F m ops laws (λ i. (least ≤ i) × (i ≤ index.max_key)))
              (sym entries_flushed) joined_bounded;
        covers = λ j h. rw (flushed_seen j h) (or_else_is_some _ _);
        ordered = omega (arith, least_below, valid.ordered);
        left = BufferPoint.empty-IsValid;
        left_room = omega arith;
        left_below = λ j v e. absurd (BufferPoint.empty-lookup j v e);
        right = valid.right;
        right_room = valid.right_room;
        right_above = valid.right_above;
      }

      -- No key below the new `min_key` is stored.
      nothing_below : (j : ℕ) → j < least → lookup j r.0.keys r.0.payloads ≡ none
      nothing_below j h =
          lookup-eq-none j r.0.keys r.0.payloads
            (λ i inside at. omega (arith, key_from_least j (i, omega arith, inside, at)))

      flushed_reads :
          (j : ℕ)
          → view F m ops laws trees seg.run flushed j
            ≡ (if key == j then some payload else view F m ops laws trees seg.run index j)
      unfolding view lookup
      flushed_reads j = elim (lt_cases j least) [
        | inl low ↦ ground (arith, nothing_below j low, w.reads j, least_below, valid.ordered)
        | inr from_least ↦ elim (lt_cases j index.min_key) [
          | inl low ↦
              rw (flushed_seen j from_least, old_seen j low)
                (ground (arith, w.reads j, least_below, valid.ordered))
          | inr high ↦
              let (o, s) = valid.covers j high in
              rw (flushed_seen j from_least, s) (ground (arith, least_below, valid.ordered))
        ]
      ]

      pub flushed-Upserted : Upserted key payload index flushed
      flushed-Upserted = record { valid = flushed-IsValid; reads = flushed_reads }
