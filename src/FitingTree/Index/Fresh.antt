-- ===== src/FitingTree/Index/Fresh.antt =====
-- The constructor of an index: it stands for the sorted records that it is given.
use viper_learned_index.Common.{
  ℕ, ◌+◌, ◌≤◌, ◌<◌, ◌≡◌, refl, sym, ap, subst, ◌∙◌, none, some, List, arith, length, ◌!◌, inl,
  lt→ltb, le→ltb, inr, lt_cases, get_elem?-eq-get_or, sub_size, Returns,
}
use viper_learned_index.FitingTree.Float.{Float, IsMonotone}
use viper_learned_index.FitingTree.Records.{IsSorted, lookup, lookup-eq-none}
use viper_learned_index.FitingTree.Buffer
use viper_learned_index.FitingTree.Buffer.{Buffer}
use viper_learned_index.FitingTree.Buffer.Point as BufferPoint
use viper_learned_index.FitingTree.Segment.{Segmentation, IsPrecise}
use viper_learned_index.FitingTree.Segment.Rebase.{run-Tiles}
use viper_learned_index.FitingTree.Node.{NodeOps, NodeLaws}
use viper_learned_index.FitingTree.Tree.{TreeOps, TreeLaws}
use viper_learned_index.FitingTree.Index.{Index, build}
use viper_learned_index.FitingTree.Index.Build.{Built, build_nodes-Built, IsKey}
use viper_learned_index.FitingTree.Index.Tidy.{Tidy, Within, Within-mono, Tidy-IsOrdered, seen}
use viper_learned_index.FitingTree.Index.View.{IsValid, view}

module _ (F : Float) (m : IsMonotone F) (ops : NodeOps F) (laws : NodeLaws F m ops)
    (trees : TreeOps ops.Node) (tlaws : TreeLaws ops.Node trees) (seg : Segmentation F m) where
  open ops use {Node}

  -- What the constructor promises.
  pub record Fresh (keys payloads : List ℕ) (index : Index trees) : Type 0 where
    pub valid : IsValid F m ops laws trees seg.run index
    pub reads : (j : ℕ) → view F m ops laws trees seg.run index j ≡ lookup j keys payloads

  module _ (keys payloads : List ℕ) (sorted : IsSorted keys) (full : length keys ≡ length payloads)
      (filled : 0 < length keys) where
    abbrev last : ℕ
    last = sub_size (length keys) 1

    last-eq : last + 1 ≡ length keys
    last-eq = ground arith

    abbrev fresh : List (ℕ × Node) → Index trees
    fresh nodes = record {
      min_key = keys ! 0;
      max_key = keys ! last;
      btree = trees.bulk_load nodes;
      left_buffer = Buffer.empty;
      right_buffer = Buffer.empty;
    }

    at_least : (j : ℕ) → IsKey keys 0 j → keys ! 0 ≤ j
    at_least j (i, low, inside, at) = grind (arith, sorted 0 i)

    at_most : (j : ℕ) → IsKey keys 0 j → j ≤ keys ! last
    at_most j (i, low, inside, at) = grind (arith, sorted i last, last-eq)

    module _ (nodes : List (ℕ × Node))
        (b : Built F m ops laws keys payloads sorted full 0 nodes) where
      loaded : trees.entries (trees.bulk_load nodes) ≡ nodes
      loaded = tlaws.entries-bulk_load nodes (Tidy-IsOrdered F m ops laws nodes b.tidy)

      fresh_seen :
          (j : ℕ)
          → keys ! 0 ≤ j
          → seen F m ops laws (trees.entries (trees.bulk_load nodes)) j
            ≡ some (lookup j keys payloads)
      fresh_seen j h =
          ap (λ x. seen F m ops laws x j) loaded
          ∙ b.reads j
          ∙ rw (lt→ltb 0 (length keys) filled, le→ltb j (keys ! 0) h) refl

      outside-none : (j : ℕ) → (IsKey keys 0 j → ⊥) → lookup j keys payloads ≡ none
      outside-none j h =
          lookup-eq-none j keys payloads (λ i inside at. h (i, omega arith, inside, at))

      fresh_reads :
          (j : ℕ) → view F m ops laws trees seg.run (fresh nodes) j ≡ lookup j keys payloads
      unfolding view lookup
      fresh_reads j = elim (lt_cases j (keys ! 0)) [
        | inl low ↦ ground (arith, outside-none j (λ k. omega (arith, at_least j k)))
        | inr from ↦ elim (lt_cases (keys ! last) j) [
          | inl high ↦ ground (arith, outside-none j (λ k. omega (arith, at_most j k)))
          | inr inside ↦ ground (arith, fresh_seen j from)
        ]
      ]

      fresh-Fresh : Fresh keys payloads (fresh nodes)
      unfolding view
      fresh-Fresh = record {
        valid = record {
          tidy = subst (Tidy F m ops laws) (sym loaded) b.tidy;
          bounded =
              subst (Within F m ops laws (λ i. (keys ! 0 ≤ i) × (i ≤ keys ! last))) (sym loaded) (
                Within-mono F m ops laws (IsKey keys 0) _ nodes (λ j k. (at_least j k, at_most j k))
                  b.stored);
          covers = λ j h. (lookup j keys payloads, fresh_seen j h);
          ordered = at_most (keys ! 0) (0, omega arith, filled, refl);
          left = BufferPoint.empty-IsValid;
          left_room = omega arith;
          left_below = λ j v e. absurd (BufferPoint.empty-lookup j v e);
          right = BufferPoint.empty-IsValid;
          right_room = omega arith;
          right_above = λ j v e. absurd (BufferPoint.empty-lookup j v e);
        };
        reads = fresh_reads;
      }

    -- Building from sorted records of distinct keys is defined, and the index is valid and stands for
    -- exactly those records.
    pub build_lem :
        IsPrecise F m seg keys
        → Returns (build ops trees seg.run keys payloads (length keys)) (Fresh keys payloads)
    unfolding build
    build_lem precise =
        let (nodes, made, b) =
          build_nodes-Built F m ops laws keys payloads sorted full (seg.run (length keys) keys) 0
            (run-Tiles F m seg keys filled sorted precise) in
        (
          fresh nodes,
          rw
              (
                get_elem?-eq-get_or keys 0 0 filled,
                get_elem?-eq-get_or keys last 0 (omega (arith, last-eq)),
                made,
              )
              refl,
          fresh-Fresh nodes b,
        )
