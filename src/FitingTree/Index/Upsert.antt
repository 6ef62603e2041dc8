-- ===== src/FitingTree/Index/Upsert.antt =====
-- `upsert` of an index: it writes the given key and nothing else, through a leaf, a split or a buffer.
use viper_learned_index.Common.{
  ℕ, ◌+◌, ◌≤◌, ◌<◌, ◌≡◌, ◌!◌, refl, subst, ◌∙◌, true, false, Option, none, some, List, arith,
  length, ltb, inl, lt→ltb, le→ltb, inr, lt_cases, Bool-cases, ◌==◌, if◌then◌else◌, ◌⊎◌, ◌≢◌, sym,
  get_or, get_elem?-eq-get_or, get_elem?-eq-none, Returns, bind-none,
}
use viper_learned_index.FitingTree.Float.{Float, IsMonotone}
use viper_learned_index.FitingTree.Parameters.{reserve}
use viper_learned_index.FitingTree.Records.{lookup, lookup_hit}
use viper_learned_index.FitingTree.Buffer
use viper_learned_index.FitingTree.Buffer.{Buffer}
use viper_learned_index.FitingTree.Buffer.Point as BufferPoint
use viper_learned_index.FitingTree.Segment.{Segmentation, ArePrecise}
use viper_learned_index.FitingTree.Segment.Rebase.{run-Tiles}
use viper_learned_index.FitingTree.Node.{NodeOps, NodeLaws}
use viper_learned_index.FitingTree.Tree.{TreeOps, TreeLaws}
use viper_learned_index.FitingTree.Entries.{floor}
use viper_learned_index.FitingTree.Index.{
  Index, build_nodes, in_range, split_leaf, flush_left, flush_right, upsert,
}
use viper_learned_index.FitingTree.Index.Build.{build_nodes-Built}
use viper_learned_index.FitingTree.Index.Tidy.{seen}
use viper_learned_index.FitingTree.Index.Leaf.{
  Written, leaf-IsGood, leaf_reached, assign-Written, split-Written, stored_fits, leaf_seen,
}
use viper_learned_index.FitingTree.Index.View.{IsValid, view, Predicted, leaf_of}
use viper_learned_index.FitingTree.Index.Flush.{
  Upserted, store_left-Upserted, flushed, flushed-Upserted, full,
}

module _ (F : Float) (m : IsMonotone F) (ops : NodeOps F) (laws : NodeLaws F m ops)
    (trees : TreeOps ops.Node) (tlaws : TreeLaws ops.Node trees) (seg : Segmentation F m)
    (index : Index trees) (valid : IsValid F m ops laws trees seg.run index) (key payload : ℕ) where
  open ops use {Node}

  abbrev Result : Index trees → Type 0
  Result = Upserted F m ops laws trees tlaws seg key payload index

  -- The keys that the leaves may hold.
  abbrev Bounded : ℕ → Type 0
  Bounded i = (index.min_key ≤ i) × (i ≤ index.max_key)

  -- The key that is written, and those that the index holds.
  abbrev pub Due : ℕ → Type 0
  Due k = (k ≡ key) ⊎ (view F m ops laws trees seg.run index k ≢ none)

  Written-covers :
      (es : List (ℕ × Node)) (j : ℕ)
      → Written F m ops laws key payload Bounded (trees.entries index.btree) es
      → index.min_key ≤ j
      → (o : Option ℕ) × (seen F m ops laws es j ≡ some o)
  Written-covers es j w h = elim (Bool-cases (key == j)) [
    | inl same ↦ (some payload, rw (w.reads j, same) refl)
    | inr other ↦ let (o, s) = valid.covers j h in (o, rw (w.reads j, other) s)
  ]

  -- A tree that differs at the key alone, in the place of the old one.
  write-Upserted :
      (btree : trees.Tree)
      → index.min_key ≤ key
      → key ≤ index.max_key
      → Written F m ops laws key payload Bounded (trees.entries index.btree) (trees.entries btree)
      → Result (record index { btree = btree })
  unfolding view
  write-Upserted btree low high w = record {
    valid = record {
      tidy = w.tidy;
      bounded = w.kept;
      covers = λ j h. Written-covers (trees.entries btree) j w h;
      ordered = valid.ordered;
      left = valid.left;
      left_room = valid.left_room;
      left_below = valid.left_below;
      right = valid.right;
      right_room = valid.right_room;
      right_above = valid.right_above;
    };
    reads = λ j. ground (arith, w.reads j);
  }

  module _ (low : index.min_key ≤ key) (high : key ≤ index.max_key) (f : ℕ) (n : Node)
      (found : floor key (trees.entries index.btree) ≡ some (f, n)) (n' : Node)
      (ok : laws.IsValid n') (start : laws.first n' ≡ f)
      (reads : (j : ℕ) → laws.view n' j ≡ (if key == j then some payload else laws.view n j)) where
    assign-Upserted :
        laws.load n' < ops.split_bound
        → Result (record index { btree = trees.assign index.btree f n' })
    assign-Upserted room = write-Upserted (trees.assign index.btree f n') low high (
        rw (tlaws.entries-assign index.btree f n') (
          assign-Written F m ops laws key payload Bounded (trees.entries index.btree) valid.tidy
            valid.bounded f n found n' reads (low, high)
            (record { valid = ok; room = room; starts = start })))

    leaf-Due : (j v : ℕ) → Bounded j → laws.view n' j ≡ some v → Due j
    unfolding view
    leaf-Due j v within at = elim (Bool-cases (key == j)) [
      | inl same ↦ inl (ground (arith, same))
      | inr other ↦
          let held : laws.view n j ≡ some v = ground (arith, reads j) in
          let shown =
            leaf_seen F m ops laws key payload Bounded (trees.entries index.btree) valid.tidy
              valid.bounded f n found j v held in
          inr (λ e. ground (arith, shown, within))
    ]

    split_leaf-Upserted :
        ArePrecise F m seg Due → Returns (split_leaf ops trees seg.run index f n') Result
    unfolding split_leaf
    split_leaf-Upserted precise =
        let (s, settled, (filled, sorted, full', counted, first, same)) = laws.settle_law n' ok in
        let keys = ops.get_keys s in
        let payloads = ops.get_payloads s in
        let due : (i : ℕ) → i < length keys → Due (keys ! i) = λ i h.
          let kept =
            (stored_fits F m ops laws key payload Bounded (trees.entries index.btree) valid.tidy
              valid.bounded f n found n' reads (low, high) keys payloads sorted full' same
              (keys ! i) (i, omega arith, h, refl)).2 in
          leaf-Due (keys ! i) (get_or payloads i 0) kept
            (sym (same (keys ! i)) ∙ lookup_hit i (keys ! i) keys payloads sorted h full' refl) in
        let (nodes, made, b) =
          build_nodes-Built F m ops laws keys payloads sorted full' (seg.run (length keys) keys) 0
            (run-Tiles F m seg keys filled sorted (precise keys filled sorted due)) in
        let made' =
          subst (λ k. build_nodes ops (seg.run k keys) keys payloads 0 ≡ some nodes) counted made in
        (
          record index { btree = trees.insert (trees.erase index.btree f) nodes },
          rw (settled, made') refl,
          write-Upserted (trees.insert (trees.erase index.btree f) nodes) low high (
              rw
                (
                  tlaws.entries-insert (trees.erase index.btree f) nodes,
                  tlaws.entries-erase index.btree f,
                )
                (split-Written F m ops laws key payload Bounded (trees.entries index.btree)
                  valid.tidy valid.bounded f n found n' reads (low, high) keys payloads sorted full'
                  nodes filled (first ∙ start) same b)),
        )

  -- In range: the leaf takes the record, and is split when it is full.
  in_range-Upserted :
      index.min_key ≤ key
      → key ≤ index.max_key
      → Predicted F m ops laws trees seg.run index key
      → ArePrecise F m seg Due
      → Returns (upsert ops trees seg.run index key payload) Result
  unfolding upsert
  in_range-Upserted low high predicted precise =
      let ((f, n), found, run_before) =
        leaf_of F m ops laws trees seg.run tlaws index valid key low in
      let good =
        leaf-IsGood F m ops laws key payload Bounded (trees.entries index.btree) valid.tidy
          valid.bounded f n found in
      let reached =
        leaf_reached F m ops laws key payload Bounded (trees.entries index.btree) valid.tidy
          valid.bounded f n found in
      let (r, written, (ok, counted, start, still, reads)) =
        laws.upsert_law n key payload good.valid (predicted f n found) good.room
          (omega (arith, good.starts)) in
      let inside : in_range ops trees seg.run index key ≡ true = ground arith in
      elim (lt_cases r.1 ops.split_bound) [
        | inl room ↦ (
          record index { btree = trees.assign index.btree f r.0 },
          rw (inside, run_before, written, lt→ltb r.1 ops.split_bound room) refl,
          assign-Upserted low high f n found r.0 ok (start ∙ good.starts) reads
              (omega (arith, counted)),
        )
        | inr over ↦
            rw (inside, run_before, written, le→ltb r.1 ops.split_bound over)
              (split_leaf-Upserted low high f n found r.0 ok (start ∙ good.starts) reads precise)
      ]

  buffered-Due :
      (r : Buffer × ℕ)
      → BufferPoint.Upserted index.left_buffer valid.left key payload r
      → (j v : ℕ) → lookup j r.0.keys r.0.payloads ≡ some v
      → Due j
  unfolding view
  buffered-Due r w j v at = elim (Bool-cases (key == j)) [
    | inl same ↦ inl (ground (arith, same))
    | inr other ↦
        let held : lookup j index.left_buffer.keys index.left_buffer.payloads ≡ some v =
          ground (arith, w.reads j) in
        let under = valid.left_below j v held in inr (λ e. ground (arith, held, under))
  ]

  below-Upserted :
      key < index.min_key
      → ArePrecise F m seg Due
      → Returns (upsert ops trees seg.run index key payload) Result
  unfolding upsert flush_left Buffer.init
  below-Upserted below precise =
      let (r, written, w) =
        BufferPoint.buffer_upsert_lem index.left_buffer valid.left key payload valid.left_room in
      let outside : in_range ops trees seg.run index key ≡ false = ground arith in
      elim (lt_cases r.1 reserve) [
        | inl room ↦ (
          record index { left_buffer = r.0 },
          rw (outside, lt→ltb key index.min_key below, written, lt→ltb r.1 reserve room) refl,
          store_left-Upserted F m ops laws trees tlaws seg index valid key payload below r w room,
        )
        | inr over ↦
            let keys = r.0.keys in
            let filled : length keys ≡ reserve =
              omega (arith, w.counted, w.still_valid.keys_full, w.still_valid.within) in
            let some_key : 0 < length keys = omega arith in
            let full' = full F m ops laws trees tlaws seg index valid key payload below r w in
            let due : (i : ℕ) → i < length keys → Due (keys ! i) = λ i h.
              let at =
                lookup_hit i (keys ! i) keys r.0.payloads w.still_valid.sorted h full' refl in
              buffered-Due r w (keys ! i) (get_or r.0.payloads i 0) at in
            let (nodes, made, b) =
              build_nodes-Built F m ops laws keys r.0.payloads w.still_valid.sorted full'
                (seg.run (length keys) keys) 0
                (run-Tiles F m seg keys some_key w.still_valid.sorted
                  (precise keys some_key w.still_valid.sorted due)) in
            let made' =
              subst (λ k. build_nodes ops (seg.run k keys) keys r.0.payloads 0 ≡ some nodes) filled
                made in
            (
              flushed F m ops laws trees tlaws seg index valid key payload below r w some_key nodes
                  b,
              rw
                  (
                    outside,
                    lt→ltb key index.min_key below,
                    written,
                    le→ltb r.1 reserve over,
                    made',
                    get_elem?-eq-get_or keys 0 0 some_key,
                  )
                  refl,
              flushed-Upserted F m ops laws trees tlaws seg index valid key payload below r w
                  some_key nodes b,
            )
      ]

  module _ (above : index.max_key < key) (r : Buffer × ℕ)
      (w : BufferPoint.Upserted index.right_buffer valid.right key payload r) where
    right_above : (j v : ℕ) → lookup j r.0.keys r.0.payloads ≡ some v → index.max_key < j
    right_above j v e = elim (Bool-cases (key == j)) [
      | inl same ↦ ground arith
      | inr other ↦ valid.right_above j v (ground (arith, w.reads j))
    ]

    store_right-Upserted : r.1 < reserve → Result (record index { right_buffer = r.0 })
    unfolding view
    store_right-Upserted room = record {
      valid = record {
        tidy = valid.tidy;
        bounded = valid.bounded;
        covers = valid.covers;
        ordered = valid.ordered;
        left = valid.left;
        left_room = valid.left_room;
        left_below = valid.left_below;
        right = w.still_valid;
        right_room = omega (arith, w.counted);
        right_above = right_above;
      };
      reads = λ j. ground (arith, w.reads j, valid.ordered);
    }

  above-Upserted :
      index.max_key < key
      → index.right_buffer.number + 1 < reserve
      → Returns (upsert ops trees seg.run index key payload) Result
  unfolding upsert
  above-Upserted above free =
      let (r, written, w) =
        BufferPoint.buffer_upsert_lem index.right_buffer valid.right key payload valid.right_room in
      let outside : in_range ops trees seg.run index key ≡ false = ground arith in
      let not_below : ltb key index.min_key ≡ false =
        le→ltb key index.min_key (omega (arith, valid.ordered)) in
      let room : r.1 < reserve = omega (arith, w.grows) in
      (
        record index { right_buffer = r.0 },
        rw (outside, not_below, written, lt→ltb r.1 reserve room) refl,
        store_right-Upserted above r w room,
      )

  -- Where the arithmetic is precise on the stored keys, `upsert` of a valid index is defined, keeps it
  -- valid, and writes the payload under the key and changes no other key, whichever branch it takes: a leaf, a split, the left buffer, its flush, or
  -- the right buffer while that has more than one free cell.
  pub upsert_lem :
      ArePrecise F m seg Due
      → Predicted F m ops laws trees seg.run index key
      → (index.max_key < key → index.right_buffer.number + 1 < reserve)
      → Returns (upsert ops trees seg.run index key payload) Result
  upsert_lem precise predicted free = elim (lt_cases key index.min_key) [
    | inl below ↦ below-Upserted below precise
    | inr low ↦ elim (lt_cases index.max_key key) [
      | inl above ↦ above-Upserted above (free above)
      | inr high ↦ in_range-Upserted low high predicted precise
    ]
  ]

  flush_right-eq-none :
      (right : Buffer)
      → length right.keys ≡ right.number
      → flush_right ops trees seg.run index right ≡ none
  unfolding flush_right
  flush_right-eq-none right e = rw (get_elem?-eq-none right.keys right.number (omega (arith, e))) (
      bind-none (build_nodes ops (seg.run reserve right.keys) right.keys right.payloads 0) _
        (λ nodes. refl))

  -- The write that fills the right buffer has no defined result: the flush reads `keys[RESERVE]`.
  pub upsert-eq-none :
      index.max_key < key
      → view F m ops laws trees seg.run index key ≡ none
      → index.right_buffer.number + 1 ≡ reserve
      → upsert ops trees seg.run index key payload ≡ none
  unfolding upsert view
  upsert-eq-none above new last =
      let (r, written, w) =
        BufferPoint.buffer_upsert_lem index.right_buffer valid.right key payload valid.right_room in
      let outside : in_range ops trees seg.run index key ≡ false = ground arith in
      let not_below : ltb key index.min_key ≡ false =
        le→ltb key index.min_key (omega (arith, valid.ordered)) in
      let absent : lookup key index.right_buffer.keys index.right_buffer.payloads ≡ none =
        ground (arith, new) in
      let over : reserve ≤ r.1 = omega (arith, w.added absent) in
      rw (outside, not_below, written, le→ltb r.1 reserve over)
        (flush_right-eq-none r.0 w.still_valid.keys_full)
