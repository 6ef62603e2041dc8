-- ===== src/FitingTree/Index/Range.antt =====
-- `range_query` of an index: from the leaf of the lower bound through the leaves behind it to the
-- right buffer.
use viper_learned_index.Common.{
  ℕ, ◌≤◌, ◌<◌, ◌≡◌, refl, ap, subst, ◌∙◌, true, false, none, some, List, ◌∷◌, ◌++◌, append-nil,
  append_assoc, arith, ltb, lt→ltb, if◌then◌else◌, or_else-none, Option-cases, inl, inr, lt_cases,
  Bool-cases,
}
use viper_learned_index.FitingTree.Float.{Float, IsMonotone}
use viper_learned_index.FitingTree.Records.{lookup}
use viper_learned_index.FitingTree.Scan.Count.{times, copies, times-append, times-between}
use viper_learned_index.FitingTree.Scan.Range.{
  in_bounds, between, answer, answer-append, answer-between,
}
use viper_learned_index.FitingTree.Buffer.Range as BufferRange
use viper_learned_index.FitingTree.Segment.{Segment}
use viper_learned_index.FitingTree.Node.{NodeOps, NodeLaws}
use viper_learned_index.FitingTree.Tree.{TreeOps, TreeLaws}
use viper_learned_index.FitingTree.Entries.{floor, Above}
use viper_learned_index.FitingTree.Entries.Laws.{Around, floor-Around}
use viper_learned_index.FitingTree.Index.{Index, in_range, behind, range_query}
use viper_learned_index.FitingTree.Index.Tidy.{
  Tidy, Tidy-split, Tidy-IsOrdered, Within, Within-mono, seen,
}
use viper_learned_index.FitingTree.Index.Leaf.{Within-split}
use viper_learned_index.FitingTree.Index.View.{IsValid, view, joined, Predicted, leaf_of}
use viper_learned_index.FitingTree.Index.Walk.{
  all_hits, answer-all_hits, times-all_hits, all_hits-eq-nil, all_hits-append, seen_kept,
  Within-later, behind-middle, rest, quiet, walk_on_lem,
}

module _ (F : Float) (m : IsMonotone F) (ops : NodeOps F) (laws : NodeLaws F m ops)
    (trees : TreeOps ops.Node) (tlaws : TreeLaws ops.Node trees)
    (run : ℕ → List ℕ → List (Segment F)) (index : Index trees)
    (valid : IsValid F m ops laws trees run index) (lower upper : ℕ) where
  open ops use {Node}

  abbrev es : List (ℕ × Node)
  es = trees.entries index.btree

  -- The records of the leaves, then those of the right buffer.
  abbrev pub expected : List (ℕ × ℕ)
  expected =
      rest F m ops laws index.right_buffer valid.right lower upper index.max_key valid.right_above
        es

  module _ (low : index.min_key ≤ lower) (f : ℕ) (n : Node)
      (found : floor lower es ≡ some (f, n)) where
    around : Around lower f n es
    around = floor-Around lower f n es (Tidy-IsOrdered F m ops laws es valid.tidy) found

    split :
        Tidy F m ops laws around.before
        × Tidy F m ops laws ((f, n) ∷ around.after)
        × Within F m ops laws (λ j. Above j ((f, n) ∷ around.after)) around.before
    split =
        Tidy-split F m ops laws around.before ((f, n) ∷ around.after)
          (subst (Tidy F m ops laws) around.whole valid.tidy)

    bounded :
        Within F m ops laws (λ i. (index.min_key ≤ i) × (i ≤ index.max_key)) ((f, n) ∷ around.after)
    bounded =
        (Within-split F m ops laws _ around.before ((f, n) ∷ around.after) (
          subst (Within F m ops laws (λ i. (index.min_key ≤ i) × (i ≤ index.max_key))) around.whole
            valid.bounded)).1

    -- The leaves before have nothing to add.
    from_leaf :
        all_hits F m ops laws lower upper es
        ≡ laws.hits lower upper n ++ all_hits F m ops laws lower upper around.after
    unfolding all_hits
    from_leaf =
        ap (all_hits F m ops laws lower upper) around.whole
        ∙ all_hits-append F m ops laws lower upper around.before ((f, n) ∷ around.after)
        ∙ rw
            (all_hits-eq-nil F m ops laws lower upper around.before split.0 (
              Within-mono F m ops laws _ _ around.before
                (λ j h. ground (arith, around.reached, h.0)) split.2))
            refl

    after_behind : behind ops f es ≡ around.after
    after_behind =
        ap (behind ops f) around.whole
        ∙ behind-middle F m ops laws f n around.before around.after around.lower

    later : Within F m ops laws (λ j. (lower ≤ j) × (j ≤ index.max_key)) around.after
    later =
        Within-later F m ops laws lower index.max_key around.after split.1.3 around.upper
          (Within-mono F m ops laws _ _ around.after (λ j h. h.1) bounded.2)

    -- In range: the leaf of the lower bound, and on from there.
    pub from_leaf_lem :
        (answers : List (ℕ × ℕ))
        → lower ≤ index.max_key
        → trees.before index.btree lower ≡ some (f, n)
        → laws.Predicts n lower
        → range_query ops trees run index lower upper answers ≡ some (answers ++ expected)
    unfolding range_query
    from_leaf_lem answers high before predicted =
        let good = split.1.0 in
        let (r, scanned, (hit, stops)) =
          laws.range_law n false lower upper answers good.valid (λ x. predicted) (λ x. absurd cc) in
        let hits = laws.hits lower upper n in
        let inside : in_range ops trees run index lower ≡ true = ground arith in
        let tail =
          rest F m ops laws index.right_buffer valid.right lower upper index.max_key
            valid.right_above around.after in
        let whole : expected ≡ hits ++ tail =
          rw from_leaf (append_assoc hits (all_hits F m ops laws lower upper around.after) _) in
        elim (Bool-cases r.1) [
          | inl on ↦
              rw
                (
                  inside,
                  before,
                  scanned,
                  on,
                  after_behind,
                  hit,
                  walk_on_lem F m ops laws index.right_buffer valid.right lower upper index.max_key
                      valid.right_above around.after (answers ++ hits) split.1.3 later,
                  append_assoc answers hits tail,
                  whole,
                )
                refl
          | inr off ↦
              let nothing =
                quiet F m ops laws index.right_buffer valid.right lower upper index.max_key
                  valid.right_above n around.after r.1 split.1.3
                  (λ j v at. ((split.1.1 j v at).1, (bounded.1 j v at).1)) stops off in
              rw (inside, before, scanned, off, hit, whole, nothing, append-nil hits) refl
        ]

  -- `range_query` from `min_key` on answers with the records of the leaves, then with those of the
  -- right buffer, that are within the bounds.
  pub range_query_lem :
      (answers : List (ℕ × ℕ))
      → index.min_key ≤ lower
      → Predicted F m ops laws trees run index lower
      → range_query ops trees run index lower upper answers ≡ some (answers ++ expected)
  unfolding range_query
  range_query_lem answers low predicted = elim (lt_cases index.max_key lower) [
    | inr high ↦
        let ((f, n), found, before) = leaf_of F m ops laws trees run tlaws index valid lower low in
        from_leaf_lem low f n found answers high before (predicted f n found)
    | inl above ↦
        let outside : in_range ops trees run index lower ≡ false = ground arith in
        let not_below : ltb lower index.min_key ≡ false = ground arith in
        let nothing =
          all_hits-eq-nil F m ops laws lower upper es valid.tidy
            (Within-mono F m ops laws _ _ es (λ j h. ground (arith, h)) valid.bounded) in
        rw
          (
            outside,
            not_below,
            nothing,
            BufferRange.buffer_range_query_lem index.right_buffer lower upper answers valid.right,
          )
          refl
  ]

  leaves_silent : (j : ℕ) → index.max_key < j → joined (seen F m ops laws es j) ≡ none
  leaves_silent j above = elim (Option-cases (seen F m ops laws es j)) [
    | inl away ↦ rw away refl
    | inr (o, at) ↦ elim (Option-cases o) [
      | inl silent ↦ rw (at, silent) refl
      | inr (v, stored) ↦
          let kept =
            seen_kept F m ops laws (λ i. (index.min_key ≤ i) × (i ≤ index.max_key)) j v es
              valid.tidy valid.bounded (at ∙ ap some stored) in
          absurd (omega (arith, kept.1))
    ]
  ]

  right_silent :
      (j : ℕ)
      → j ≤ index.max_key
      → lookup j index.right_buffer.keys index.right_buffer.payloads ≡ none
  right_silent j within =
      elim (Option-cases (lookup j index.right_buffer.keys index.right_buffer.payloads)) [
        | inl away ↦ away
        | inr (v, at) ↦ absurd (omega (arith, valid.right_above j v at))
      ]

  -- Those answers are what the index stands for, within the bounds.
  pub answer-expected :
      (j : ℕ)
      → index.min_key ≤ lower
      → answer j expected
        ≡ (if in_bounds lower upper j then view F m ops laws trees run index j else none)
  unfolding view
  answer-expected j low =
      rw
        (
          answer-append j (all_hits F m ops laws lower upper es)
              (between lower upper index.right_buffer.keys index.right_buffer.payloads),
          answer-all_hits F m ops laws lower upper j es valid.tidy,
          answer-between lower upper j index.right_buffer.keys index.right_buffer.payloads,
        )
        (elim (lt_cases index.max_key j) [
          | inl above ↦ ground (arith, leaves_silent j above)
          | inr within ↦
              ground (arith, right_silent j within, or_else-none (joined (seen F m ops laws es j)))
        ])

  -- Each of them stands in the answers once.
  pub times-expected :
      (j : ℕ)
      → index.min_key ≤ lower
      → times j expected
        ≡ copies (if in_bounds lower upper j then view F m ops laws trees run index j else none)
  unfolding view copies
  times-expected j low =
      rw
        (
          times-append j (all_hits F m ops laws lower upper es)
              (between lower upper index.right_buffer.keys index.right_buffer.payloads),
          times-all_hits F m ops laws lower upper j es valid.tidy,
          times-between lower upper j index.right_buffer.keys index.right_buffer.payloads
              valid.right.sorted,
        )
        (elim (lt_cases index.max_key j) [
          | inl above ↦ ground (arith, leaves_silent j above)
          | inr within ↦
              ground (arith, right_silent j within, or_else-none (joined (seen F m ops laws es j)))
        ])

  -- Below `min_key`, `range_query` answers with the records of the left buffer alone, whatever the
  -- upper bound is.
  pub range_query-below :
      (answers : List (ℕ × ℕ))
      → lower < index.min_key
      → range_query ops trees run index lower upper answers
        ≡ some (answers ++ between lower upper index.left_buffer.keys index.left_buffer.payloads)
  unfolding range_query
  range_query-below answers below =
      let outside : in_range ops trees run index lower ≡ false = ground arith in
      rw
        (
          outside,
          lt→ltb lower index.min_key below,
          BufferRange.buffer_range_query_lem index.left_buffer lower upper answers valid.left,
          lt→ltb lower index.max_key (omega (arith, valid.ordered)),
        )
        refl
