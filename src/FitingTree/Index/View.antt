-- ===== src/FitingTree/Index/View.antt =====
-- What an index stands for, what keeps it correct, and `find`.
use viper_learned_index.Common.{
  ℕ, ◌≤◌, ◌<◌, ◌≡◌, ap, sym, ◌∙◌, Option, none, some, List, arith, ltb, inl, inr, if◌then◌else◌,
  Bool-cases, Option-cases,
}
use viper_learned_index.FitingTree.Float.{Float, IsMonotone}
use viper_learned_index.FitingTree.Parameters.{reserve, payload_or_none}
use viper_learned_index.FitingTree.Records.{lookup}
use viper_learned_index.FitingTree.Buffer.Point as BufferPoint
use viper_learned_index.FitingTree.Segment.{Segment}
use viper_learned_index.FitingTree.Node.{NodeOps, NodeLaws}
use viper_learned_index.FitingTree.Tree.{TreeOps, TreeLaws}
use viper_learned_index.FitingTree.Entries.{floor}
use viper_learned_index.FitingTree.Index.{Index, in_range, find}
use viper_learned_index.FitingTree.Index.Tidy.{Within, Tidy, seen, seen-floor}
use viper_learned_index.FitingTree.Index.Leaf.{leaf-IsGood}

-- What the leaves say of a key, where one is responsible.
abbrev pub joined : Option (Option ℕ) → Option ℕ
joined none = none
joined (some o) = o

module _ (F : Float) (m : IsMonotone F) (ops : NodeOps F) (laws : NodeLaws F m ops)
    (trees : TreeOps ops.Node) (run : ℕ → List ℕ → List (Segment F)) where
  open ops use {Node}

  -- The leaves between `min_key` and `max_key`, the left buffer below, the right buffer above.
  unfoldable pub view : Index trees → ℕ → Option ℕ
  view index j =
      if in_range ops trees run index j
      then joined (seen F m ops laws (trees.entries index.btree) j)
      else if ltb j index.min_key
      then lookup j index.left_buffer.keys index.left_buffer.payloads
      else lookup j index.right_buffer.keys index.right_buffer.payloads

  pub record IsValid (index : Index trees) : Type 0 where
    pub tidy : Tidy F m ops laws (trees.entries index.btree)
    pub bounded :
        Within F m ops laws
          (λ i. (index.min_key ≤ i) × (i ≤ index.max_key))
          (trees.entries index.btree)
    -- some leaf is responsible for each key from `min_key` on
    pub covers :
        (j : ℕ)
        → index.min_key ≤ j
        → (o : Option ℕ) × (seen F m ops laws (trees.entries index.btree) j ≡ some o)
    pub ordered : index.min_key ≤ index.max_key
    pub left : BufferPoint.IsValid index.left_buffer
    pub left_room : index.left_buffer.number < reserve
    pub left_below :
        (j v : ℕ)
        → lookup j index.left_buffer.keys index.left_buffer.payloads ≡ some v
        → j < index.min_key
    pub right : BufferPoint.IsValid index.right_buffer
    pub right_room : index.right_buffer.number < reserve
    pub right_above :
        (j v : ℕ)
        → lookup j index.right_buffer.keys index.right_buffer.payloads ≡ some v
        → index.max_key < j

  -- The model of the leaf that a key in range leads to has a defined value there.
  abbrev pub Predicted : Index trees → ℕ → Type 0
  Predicted index key =
      (f : ℕ) (n : Node) → floor key (trees.entries index.btree) ≡ some (f, n) → laws.Predicts n key

  module _ (tlaws : TreeLaws ops.Node trees) (index : Index trees) (valid : IsValid index) where
    -- The leaf that a covered key leads to.
    pub leaf_of :
        (key : ℕ)
        → index.min_key ≤ key
        → (e : ℕ × Node) × (floor key (trees.entries index.btree) ≡ some e)
          × (trees.before index.btree key ≡ some e)
    unfolding seen
    leaf_of key h =
        let (o, s) = valid.covers key h in
        elim (Option-cases (floor key (trees.entries index.btree))) [
          | inl away ↦ absurd (ground (arith, s))
          | inr (e, found) ↦ (e, found, rw (tlaws.before-entries index.btree key) found)
        ]

    -- `find` of a valid index returns the payload that is stored under the key, in a leaf or in a
    -- buffer, and `NONE()` for a key that is not stored.
    pub find_lem :
        (key : ℕ)
        → Predicted index key
        → find ops trees run index key ≡ some (payload_or_none (view index key))
    unfolding find view
    find_lem key predicted = elim (Bool-cases (in_range ops trees run index key)) [
      | inl inside ↦
          let ((f, n), found, run_before) = leaf_of key (ground arith) in
          let good =
            leaf-IsGood F m ops laws key 0 (λ i. (index.min_key ≤ i) × (i ≤ index.max_key))
              (trees.entries index.btree) valid.tidy valid.bounded f n found in
          rw (inside, run_before)
            (laws.find_law n key good.valid (predicted f n found)
              ∙ ap (λ (o : Option (Option ℕ)). some (payload_or_none (joined o)))
                  (sym (seen-floor F m ops laws key (trees.entries index.btree) (f, n) found)))
      | inr outside ↦ rw outside (
          ground (
            arith,
            BufferPoint.buffer_find_lem index.left_buffer valid.left key,
            BufferPoint.buffer_find_lem index.right_buffer valid.right key,
          ))
    ]
