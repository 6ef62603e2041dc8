-- ===== src/FitingTree/InplaceIndex/Laws.antt =====
-- InPlaceNode keeps what an index asks of its leaves.
use viper_learned_index.Common.{
  true, false, none, [], ◌++◌, ◌⊎◌, inl, inr, get_or, ℕ, ◌+◌, ◌≤◌, ◌<◌, ◌≡◌, refl, sym, ap, ◌∙◌,
  Bool, Option, some, List, arith, length, ◌!◌, ◌==◌, if◌then◌else◌, take, drop, Returns,
}
use viper_learned_index.Common.Int.{ℤ}
use viper_learned_index.FitingTree.Float.{Float, IsMonotone}
use viper_learned_index.FitingTree.Parameters.{epsilon_default, reserve}
use viper_learned_index.FitingTree.Records.{IsSorted, lookup, lookup_hit}
use viper_learned_index.FitingTree.Scan.Count.{times, copies, times-between}
use viper_learned_index.FitingTree.Scan.Range.{
  in_bounds, between, answer, answer-between, between-eq-nil,
}
use viper_learned_index.FitingTree.InplaceNode.Range as Range
use viper_learned_index.FitingTree.Search.{predict_int}
use viper_learned_index.FitingTree.Segment.{Segment, Covers}
use viper_learned_index.FitingTree.Node.{NodeOps, NodeLaws}
use viper_learned_index.FitingTree.InplaceNode
use viper_learned_index.FitingTree.InplaceNode.{InplaceNode}
use viper_learned_index.FitingTree.InplaceNode.Model.{IsValid}
use viper_learned_index.FitingTree.InplaceNode.Point as Point
use viper_learned_index.FitingTree.InplaceNode.Fresh as Fresh
use viper_learned_index.FitingTree.InplaceIndex.{ops}

module _ (F : Float) (m : IsMonotone F) where
  abbrev pub Predicts : InplaceNode F → ℕ → Type 0
  Predicts n key = (z : ℤ) × (predict_int F n.slope n.intercept key ≡ some z)

  abbrev pub view : InplaceNode F → ℕ → Option ℕ
  view n j = lookup j n.keys n.payloads

  pub make_law :
      (s : Segment F) (keys payloads : List ℕ) (start : ℕ)
      → IsSorted keys
      → length keys ≡ length payloads
      → Covers F m keys start s
      → Returns (NodeOps.make (ops F) s keys payloads start) λ n.
        IsValid F m n
        × (n.epsilon < epsilon_default + reserve)
        × (n.keys ! 0 ≡ keys ! start)
        × ((j : ℕ)
            → view n j
              ≡ lookup j (take s.number (drop start keys)) (take s.number (drop start payloads)))
  make_law s keys payloads start sorted full c =
      let (n, run, f) = Fresh.inplace_node_new_lem F m s keys payloads start sorted full c in
      (
        n,
        run,
        (
          f.valid,
          omega (arith, f.load),
          ap (λ x. x ! 0) f.same_keys ∙ Fresh.slice_first keys start s.number c.inside c.filled,
          λ j. rw (f.same_keys, f.same_payloads) refl,
        ),
      )

  pub upsert_law :
      (n : InplaceNode F) (key payload : ℕ)
      → IsValid F m n
      → Predicts n key
      → n.epsilon < epsilon_default + reserve
      → n.keys ! 0 ≤ key
      → Returns (InplaceNode.upsert F n key payload) λ r.
        IsValid F m r.0
        × (r.1 ≡ r.0.epsilon)
        × (r.0.keys ! 0 ≡ n.keys ! 0)
        × ((j : ℕ) → Predicts n j → Predicts r.0 j)
        × ((j : ℕ) → view r.0 j ≡ (if key == j then some payload else view n j))
  upsert_law n key payload valid (z, defined) room low =
      let (r, run, u) = Point.inplace_node_upsert_lem F m n valid key z defined payload room in
      (
        r,
        run,
        (
          u.still_valid,
          u.bound,
          u.same_first low,
          λ j p. (p.0, rw (u.same_slope, u.same_intercept) p.1),
          u.reads,
        ),
      )

  pub settle_law :
      (n : InplaceNode F)
      → IsValid F m n
      → Returns (NodeOps.settle (ops F) n) λ r.
        (0 < length r.keys)
        × IsSorted r.keys
        × (length r.keys ≡ length r.payloads)
        × (length r.keys ≡ r.number)
        × (r.keys ! 0 ≡ n.keys ! 0)
        × ((j : ℕ) → lookup j r.keys r.payloads ≡ view n j)
  settle_law n valid = (
    n,
    refl,
    (
      omega (arith, valid.filled, valid.keys_full),
      valid.sorted,
      valid.keys_full ∙ sym valid.payloads_full,
      valid.keys_full,
      refl,
      λ j. refl,
    ),
  )

  abbrev pub hits : ℕ → ℕ → InplaceNode F → List (ℕ × ℕ)
  hits lower upper n = between lower upper n.keys n.payloads

  pub hits_law :
      (lower upper : ℕ) (n : InplaceNode F) (j : ℕ)
      → IsValid F m n
      → answer j (hits lower upper n) ≡ (if in_bounds lower upper j then view n j else none)
  hits_law lower upper n j valid = answer-between lower upper j n.keys n.payloads

  pub times_law :
      (lower upper : ℕ) (n : InplaceNode F) (j : ℕ)
      → IsValid F m n
      → times j (hits lower upper n) ≡ copies (if in_bounds lower upper j then view n j else none)
  times_law lower upper n j valid = times-between lower upper j n.keys n.payloads valid.sorted

  stored :
      (n : InplaceNode F) (i : ℕ)
      → IsValid F m n
      → i < length n.keys
      → view n (n.keys ! i) ≡ some (get_or n.payloads i 0)
  stored n i valid h =
      lookup_hit i (n.keys ! i) n.keys n.payloads valid.sorted h
        (valid.keys_full ∙ sym valid.payloads_full) refl

  pub hits-eq-nil :
      (lower upper : ℕ) (n : InplaceNode F)
      → IsValid F m n
      → ((j v : ℕ) → view n j ≡ some v → in_bounds lower upper j ≡ false)
      → hits lower upper n ≡ []
  hits-eq-nil lower upper n valid away =
      between-eq-nil lower upper n.keys n.payloads
        (λ i h. away (n.keys ! i) (get_or n.payloads i 0) (stored n i valid h))

  -- Both ways to start a scan.
  ranged :
      (n : InplaceNode F) (type : Bool) (lower upper : ℕ) (answers : List (ℕ × ℕ))
      → (valid : IsValid F m n) → (type ≡ false → Predicts n lower)
      → (type ≡ true → (j v : ℕ) → view n j ≡ some v → lower ≤ j)
      → Returns
          (InplaceNode.range_query F n type lower upper answers)
          (Range.Ranged F m n valid lower upper answers)
  ranged n true lower upper answers valid predicts low =
      Range.range_query_front F m n valid lower upper answers
        (λ i h. low refl (n.keys ! i) (get_or n.payloads i 0) (stored n i valid h))
  ranged n false lower upper answers valid predicts low =
      let (z, defined) = predicts refl in
      Range.inplace_node_range_query_lem F m n valid lower upper answers z defined

  pub range_law :
      (n : InplaceNode F) (type : Bool) (lower upper : ℕ) (answers : List (ℕ × ℕ))
      → IsValid F m n
      → (type ≡ false → Predicts n lower)
      → (type ≡ true → (j v : ℕ) → view n j ≡ some v → lower ≤ j)
      → Returns (InplaceNode.range_query F n type lower upper answers) λ r.
        (r.0 ≡ answers ++ hits lower upper n)
        × ((r.1 ≡ true) ⊎ ((j : ℕ) × (v : ℕ) × (view n j ≡ some v) × (upper < j)))
  range_law n type lower upper answers valid predicts low =
      let (r, run, c) = ranged n type lower upper answers valid predicts low in
      (
        r,
        run,
        (
          c.found,
          elim c.stops [
            | inl (end, upto) ↦ inl end
            | inr (off, (i, inside, from, above)) ↦
                inr (n.keys ! i, get_or n.payloads i 0, stored n i valid inside, above)
          ],
        ),
      )

  -- What an index relies on holds of `InPlaceNode`.
  abbrev pub laws : NodeLaws F m (ops F)
  laws = record {
    IsValid = IsValid F m;
    Predicts = Predicts;
    view = view;
    first = λ n. n.keys ! 0;
    load = λ n. n.epsilon;
    make_law = make_law;
    find_law = λ n key valid p. Point.inplace_node_find_lem F m n valid key p.0 p.1;
    upsert_law = upsert_law;
    settle_law = settle_law;
    hits = hits;
    hits_law = hits_law;
    times_law = times_law;
    hits-eq-nil = hits-eq-nil;
    range_law = range_law;
  }
