-- ===== src/FitingTree/BufferNode/Range.antt =====
-- `range_query` of a `BufferNode`: first the records of the buffer, then those of the array.
use viper_learned_index.Common.{
  ℕ, ◌+◌, ◌≤◌, ◌<◌, ◌≡◌, refl, sym, ap, ◌∙◌, Bool, true, false, not, some, List, ◌++◌, arith,
  length, ◌!◌, drop, ltb, Returns,
}
use viper_learned_index.Common.Int.{ℤ}
use viper_learned_index.FitingTree.Float.{Float, IsMonotone}
use viper_learned_index.FitingTree.Records.{rank, rank-le, rank_le, lt_rank}
use viper_learned_index.FitingTree.Search.{predict_int}
use viper_learned_index.FitingTree.Search.Start.{Locates-le}
use viper_learned_index.FitingTree.Scan.Range.{
  between, skip_below-eq, Collected, collect_upto-Collected, Collected-Stops, Stops, from_rank,
}
use viper_learned_index.FitingTree.Buffer
use viper_learned_index.FitingTree.Buffer.Range as BufferRange
use viper_learned_index.FitingTree.BufferNode.{BufferNode, range_query}
use viper_learned_index.FitingTree.BufferNode.Point.{IsValid, node-Locates}

module _ (F : Float) (m : IsMonotone F) (n : BufferNode F) (valid : IsValid F m n) (lower upper : ℕ)
    (answers : List (ℕ × ℕ)) where
  full : length n.keys ≡ length n.payloads
  full = valid.keys_full ∙ sym valid.payloads_full

  -- What `range_query` promises: the records in the range, and whether the array was used up.
  pub record Ranged (r : List (ℕ × ℕ) × Bool) : Type 0 where
    pub found :
        r.0
        ≡ (answers ++ between lower upper n.buffer.keys n.buffer.payloads)
          ++ between lower upper n.keys n.payloads
    pub stops : Stops lower upper n.keys r.1

  abbrev buffered : List (ℕ × ℕ)
  buffered = answers ++ between lower upper n.buffer.keys n.buffer.payloads

  scanned : Buffer.range_query n.buffer lower upper answers ≡ some buffered
  scanned = BufferRange.buffer_range_query_lem n.buffer lower upper answers valid.buffered

  Collected-Ranged :
      (it : ℕ) (r : List (ℕ × ℕ) × ℕ)
      → between lower upper (drop it n.keys) (drop it n.payloads)
        ≡ between lower upper n.keys n.payloads
      → Collected n.keys n.payloads valid.sorted full lower upper it buffered r
      → ((i : ℕ) → i < it → n.keys ! i < lower)
      → (it < length n.keys → lower ≤ n.keys ! it)
      → Ranged (r.0, not (ltb r.1 (length n.keys)))
  Collected-Ranged it r e c before from = record {
    found = c.found ∙ ap (λ x. buffered ++ x) e;
    stops =
        Collected-Stops n.keys n.payloads valid.sorted full lower upper it buffered r c before from;
  }

  -- In a node that holds nothing below the lower bound, `range_query` with type 1 starts in front.
  pub range_query_front :
      ((i : ℕ) → i < length n.keys → lower ≤ n.keys ! i)
      → Returns (range_query F n true lower upper answers) Ranged
  unfolding range_query
  range_query_front low =
      let (r, run, c) =
        collect_upto-Collected n.keys n.payloads valid.sorted full lower upper (length n.keys + 1) 0
          buffered (omega arith) (omega arith) (low 0) in
      rw (scanned, ← valid.keys_full, run)
        (_, refl, Collected-Ranged 0 r refl c (λ i h. absurd (omega arith)) (low 0))

  -- On a valid node whose model has a defined value at the lower bound, `range_query`
  -- with type 0 is defined, and adds exactly the records within the bounds, those of the buffer
  -- first; it returns
  -- true if each key of the array is at most the upper bound or below the lower one, and false if
  -- some key from the lower bound on is above the upper one.
  pub buffer_node_range_query_lem :
      (z : ℤ)
      → predict_int F n.slope n.intercept lower ≡ some z
      → Returns (range_query F n false lower upper answers) Ranged
  unfolding range_query
  buffer_node_range_query_lem z defined =
      let (q, found, l) = node-Locates F m n valid lower z defined in
      let (r, run, c) =
        collect_upto-Collected n.keys n.payloads valid.sorted full lower upper (length n.keys + 1)
          (rank lower n.keys) buffered (rank-le lower n.keys) (omega arith)
          (rank_le lower (rank lower n.keys) n.keys valid.sorted (omega arith)) in
      let skip =
        skip_below-eq n.keys n.payloads valid.sorted full lower upper (length n.keys + 1) q
          (Locates-le n.keys lower q valid.sorted l) (omega arith) in
      let from = rank_le lower (rank lower n.keys) n.keys valid.sorted (omega arith) in
      let e = from_rank n.keys n.payloads valid.sorted full lower upper in
      rw (scanned, found, ← valid.keys_full, skip, run)
        (_, refl, Collected-Ranged (rank lower n.keys) r e c (λ i. lt_rank lower i n.keys) from)
