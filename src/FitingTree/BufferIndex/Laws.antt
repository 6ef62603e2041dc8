-- ===== src/FitingTree/BufferIndex/Laws.antt =====
-- BufferNode keeps what an index asks of its leaves.
use viper_learned_index.Common.{
  true, false, none, [], ◌++◌, append_assoc, ◌⊎◌, inl, inr, get_or, Option-cases, ℕ, ◌≤◌, ◌<◌, ◌≡◌,
  refl, sym, ap, ◌∙◌, Bool, some, List, arith, length, ◌!◌, ◌==◌, if◌then◌else◌, take, drop,
  Returns, or_else-none,
}
use viper_learned_index.Common.Int.{ℤ}
use viper_learned_index.FitingTree.Float.{Float, IsMonotone}
use viper_learned_index.FitingTree.Parameters.{reserve}
use viper_learned_index.FitingTree.Records.{IsSorted, lookup, lookup_hit}
use viper_learned_index.FitingTree.Scan.Count.{times, copies, times-append, times-between}
use viper_learned_index.FitingTree.Scan.Range.{
  in_bounds, between, answer, answer-append, answer-between, between-eq-nil,
}
use viper_learned_index.FitingTree.BufferNode.Range as Range
use viper_learned_index.FitingTree.Search.{predict_int}
use viper_learned_index.FitingTree.Segment.{Segment, Covers}
use viper_learned_index.FitingTree.Node.{NodeOps, NodeLaws}
use viper_learned_index.FitingTree.BufferNode
use viper_learned_index.FitingTree.BufferNode.{BufferNode}
use viper_learned_index.FitingTree.BufferNode.Point as Point
use viper_learned_index.FitingTree.BufferNode.Point.{IsValid, view}
use viper_learned_index.FitingTree.BufferNode.Fresh as Fresh
use viper_learned_index.FitingTree.BufferNode.Merged as Merged
use viper_learned_index.FitingTree.InplaceNode.Fresh.{slice_first}
use viper_learned_index.FitingTree.BufferIndex.{ops}

module _ (F : Float) (m : IsMonotone F) where
  abbrev pub Predicts : BufferNode F → ℕ → Type 0
  Predicts n key = (z : ℤ) × (predict_int F n.slope n.intercept key ≡ some z)

  pub make_law :
      (s : Segment F) (keys payloads : List ℕ) (start : ℕ)
      → IsSorted keys
      → length keys ≡ length payloads
      → Covers F m keys start s
      → Returns (NodeOps.make (ops F) s keys payloads start) λ n.
        IsValid F m n
        × (n.buffer.number < reserve)
        × (n.keys ! 0 ≡ keys ! start)
        × ((j : ℕ)
            → view n j
              ≡ lookup j (take s.number (drop start keys)) (take s.number (drop start payloads)))
  unfolding view lookup
  make_law s keys payloads start sorted full c =
      let (n, run, f) = Fresh.buffer_node_new_lem F m s keys payloads start sorted full c in
      (
        n,
        run,
        (
          f.valid,
          rw f.unbuffered (omega arith),
          ap (λ x. x ! 0) f.same_keys ∙ slice_first keys start s.number c.inside c.filled,
          λ j. rw (f.same_keys, f.same_payloads, f.unbuffered) (or_else-none _),
        ),
      )

  pub upsert_law :
      (n : BufferNode F) (key payload : ℕ)
      → IsValid F m n
      → Predicts n key
      → n.buffer.number < reserve
      → n.keys ! 0 ≤ key
      → Returns (BufferNode.upsert F n key payload) λ r.
        IsValid F m r.0
        × (r.1 ≡ r.0.buffer.number)
        × (r.0.keys ! 0 ≡ n.keys ! 0)
        × ((j : ℕ) → Predicts n j → Predicts r.0 j)
        × ((j : ℕ) → view r.0 j ≡ (if key == j then some payload else view n j))
  upsert_law n key payload valid (z, defined) room low =
      let (r, run, u) = Point.buffer_node_upsert_lem F m n valid key z defined payload room low in
      (
        r,
        run,
        (
          u.still_valid,
          u.counted,
          u.same_first,
          λ j p. (p.0, rw (u.same_slope, u.same_intercept) p.1),
          u.reads,
        ),
      )

  pub settle_law :
      (n : BufferNode F)
      → IsValid F m n
      → Returns (BufferNode.merge_buffer F n) λ r.
        (0 < length r.keys)
        × IsSorted r.keys
        × (length r.keys ≡ length r.payloads)
        × (length r.keys ≡ r.size)
        × (r.keys ! 0 ≡ n.keys ! 0)
        × ((j : ℕ) → lookup j r.keys r.payloads ≡ view n j)
  settle_law n valid =
      let (r, run, w) = Merged.merge_buffer_lem F m n valid in
      (r, run, (w.filled, w.sorted, w.full, w.counted.1, w.same_first, w.reads))

  abbrev pub hits : ℕ → ℕ → BufferNode F → List (ℕ × ℕ)
  hits lower upper n =
      between lower upper n.buffer.keys n.buffer.payloads ++ between lower upper n.keys n.payloads

  buffered :
      (n : BufferNode F) (i : ℕ)
      → IsValid F m n
      → i < length n.buffer.keys
      → view n (n.buffer.keys ! i) ≡ some (get_or n.buffer.payloads i 0)
  unfolding view
  buffered n i valid h =
      let at =
        lookup_hit i (n.buffer.keys ! i) n.buffer.keys n.buffer.payloads valid.buffered.sorted h
          (valid.buffered.keys_full ∙ sym valid.buffered.payloads_full) refl in
      rw (valid.apart (n.buffer.keys ! i) (get_or n.buffer.payloads i 0) at, at) refl

  pub hits_law :
      (lower upper : ℕ) (n : BufferNode F) (j : ℕ)
      → IsValid F m n
      → answer j (hits lower upper n) ≡ (if in_bounds lower upper j then view n j else none)
  unfolding view
  hits_law lower upper n j valid =
      rw
        (
          answer-append j (between lower upper n.buffer.keys n.buffer.payloads)
              (between lower upper n.keys n.payloads),
          answer-between lower upper j n.buffer.keys n.buffer.payloads,
          answer-between lower upper j n.keys n.payloads,
        )
        (elim (Option-cases (lookup j n.buffer.keys n.buffer.payloads)) [
          | inl away ↦ ground (arith, away)
          | inr (v, at) ↦ ground (arith, at, valid.apart j v at)
        ])

  pub times_law :
      (lower upper : ℕ) (n : BufferNode F) (j : ℕ)
      → IsValid F m n
      → times j (hits lower upper n) ≡ copies (if in_bounds lower upper j then view n j else none)
  unfolding view copies
  times_law lower upper n j valid =
      rw
        (
          times-append j (between lower upper n.buffer.keys n.buffer.payloads)
              (between lower upper n.keys n.payloads),
          times-between lower upper j n.buffer.keys n.buffer.payloads valid.buffered.sorted,
          times-between lower upper j n.keys n.payloads valid.sorted,
        )
        (elim (Option-cases (lookup j n.buffer.keys n.buffer.payloads)) [
          | inl away ↦ elim (Option-cases (lookup j n.keys n.payloads)) [
            | inl gone ↦ ground (arith, away, gone)
            | inr (w, there) ↦ ground (arith, away, there)
          ]
          | inr (v, at) ↦ ground (arith, at, valid.apart j v at)
        ])

  stored :
      (n : BufferNode F) (i : ℕ)
      → IsValid F m n
      → i < length n.keys
      → view n (n.keys ! i) ≡ some (get_or n.payloads i 0)
  unfolding view
  stored n i valid h =
      rw
        (lookup_hit i (n.keys ! i) n.keys n.payloads valid.sorted h
          (valid.keys_full ∙ sym valid.payloads_full) refl)
        refl

  pub hits-eq-nil :
      (lower upper : ℕ) (n : BufferNode F)
      → IsValid F m n
      → ((j v : ℕ) → view n j ≡ some v → in_bounds lower upper j ≡ false)
      → hits lower upper n ≡ []
  hits-eq-nil lower upper n valid away =
      rw
        (
          between-eq-nil lower upper n.buffer.keys n.buffer.payloads (λ i h.
              away (n.buffer.keys ! i) (get_or n.buffer.payloads i 0) (buffered n i valid h)),
          between-eq-nil lower upper n.keys n.payloads
              (λ i h. away (n.keys ! i) (get_or n.payloads i 0) (stored n i valid h)),
        )
        refl

  -- Both ways to start a scan.
  ranged :
      (n : BufferNode F) (type : Bool) (lower upper : ℕ) (answers : List (ℕ × ℕ))
      → (valid : IsValid F m n) → (type ≡ false → Predicts n lower)
      → (type ≡ true → (j v : ℕ) → view n j ≡ some v → lower ≤ j)
      → Returns
          (BufferNode.range_query F n type lower upper answers)
          (Range.Ranged F m n valid lower upper answers)
  ranged n true lower upper answers valid predicts low =
      Range.range_query_front F m n valid lower upper answers
        (λ i h. low refl (n.keys ! i) (get_or n.payloads i 0) (stored n i valid h))
  ranged n false lower upper answers valid predicts low =
      let (z, defined) = predicts refl in
      Range.buffer_node_range_query_lem F m n valid lower upper answers z defined

  pub range_law :
      (n : BufferNode F) (type : Bool) (lower upper : ℕ) (answers : List (ℕ × ℕ))
      → IsValid F m n
      → (type ≡ false → Predicts n lower)
      → (type ≡ true → (j v : ℕ) → view n j ≡ some v → lower ≤ j)
      → Returns (BufferNode.range_query F n type lower upper answers) λ r.
        (r.0 ≡ answers ++ hits lower upper n)
        × ((r.1 ≡ true) ⊎ ((j : ℕ) × (v : ℕ) × (view n j ≡ some v) × (upper < j)))
  range_law n type lower upper answers valid predicts low =
      let (r, run, c) = ranged n type lower upper answers valid predicts low in
      (
        r,
        run,
        (
          c.found ∙ append_assoc answers _ _,
          elim c.stops [
            | inl (end, upto) ↦ inl end
            | inr (off, (i, inside, from, above)) ↦
                inr (n.keys ! i, get_or n.payloads i 0, stored n i valid inside, above)
          ],
        ),
      )

  -- What an index relies on holds of `BufferNode`.
  abbrev pub laws : NodeLaws F m (ops F)
  laws = record {
    IsValid = IsValid F m;
    Predicts = Predicts;
    view = view;
    first = λ n. n.keys ! 0;
    load = λ n. n.buffer.number;
    make_law = make_law;
    find_law = λ n key valid p. Point.buffer_node_find_lem F m n valid key p.0 p.1;
    upsert_law = upsert_law;
    settle_law = settle_law;
    hits = hits;
    hits_law = hits_law;
    times_law = times_law;
    hits-eq-nil = hits-eq-nil;
    range_law = range_law;
  }
