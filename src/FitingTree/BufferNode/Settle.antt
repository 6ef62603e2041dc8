-- ===== src/FitingTree/BufferNode/Settle.antt =====
-- `merge_buffer`: its loop computes the merge, and the merged arrays hold what the node held.
use viper_learned_index.Common.{
  ℕ, zero, suc, ◌+◌, ◌≤◌, ◌<◌, ◌≡◌, Option, some, List, [], ◌∷◌, ◌++◌, arith, length, ◌!◌, true,
  false, inl, inr, lt_cases, ltb, ==_iff, sym, lt→ltb, le→ltb, ne→==, get_elem?-eq-get_or, drop,
  ◌∙◌, append_assoc, append-nil,
}
use viper_learned_index.FitingTree.Buffer.{Buffer}
use viper_learned_index.FitingTree.Buffer.Point as BufferPoint
use viper_learned_index.FitingTree.BufferNode.{merge_loop, take_old}
use viper_learned_index.FitingTree.BufferNode.Merge.{
  merge_keys, merge_payloads, TakesOld, TakesBuffered, takes_old, takes_buffered, takes_last_old,
  takes_last_buffered, takes_none,
}

module _ (xs vs : List ℕ) (b : Buffer) (full : length xs ≡ length vs)
    (valid : BufferPoint.IsValid b) where
  -- What the loop returns with `i` and `k` records taken.
  abbrev pub remaining : ℕ → ℕ → List ℕ → List ℕ → Option (List ℕ × List ℕ)
  remaining i k keys payloads = some (
    keys ++ merge_keys (drop i xs) (drop k b.keys),
    payloads ++ merge_payloads (drop i xs) (drop k b.keys) (drop i vs) (drop k b.payloads),
  )

  buffered : length b.keys ≡ length b.payloads
  buffered = valid.keys_full ∙ sym valid.payloads_full

  remaining_old :
      (i k : ℕ) (keys payloads : List ℕ)
      → TakesOld xs vs b.keys b.payloads full buffered i k
      → remaining (i + 1) k (keys ++ xs ! i ∷ []) (payloads ++ vs ! i ∷ [])
        ≡ remaining i k keys payloads
  remaining_old i k keys payloads t = rw (t.0, t.1) (simp append_assoc)

  remaining_buffered :
      (i k : ℕ) (keys payloads : List ℕ)
      → TakesBuffered xs vs b.keys b.payloads full buffered i k
      → remaining i (k + 1) (keys ++ b.keys ! k ∷ []) (payloads ++ b.payloads ! k ∷ [])
        ≡ remaining i k keys payloads
  remaining_buffered i k keys payloads t = rw (t.0, t.1) (simp append_assoc)

  take_old_both :
      (i k : ℕ)
      → i < length xs
      → k < b.number
      → take_old xs b.keys (length xs) b.number i k ≡ some (ltb (xs ! i) (b.keys ! k))
  unfolding take_old
  take_old_both i k h l = rw (
    ne→== k b.number (omega arith),
    lt→ltb i (length xs) h,
    get_elem?-eq-get_or xs i 0 h,
    get_elem?-eq-get_or b.keys k 0 (omega (arith, valid.keys_full)),
  )

  take_old_last : (i k : ℕ) → k ≡ b.number → take_old xs b.keys (length xs) b.number i k ≡ some true
  unfolding take_old
  take_old_last i k e = rw ((==_iff k b.number).1 e)

  take_old_none :
      (i k : ℕ)
      → length xs ≤ i
      → k < b.number
      → take_old xs b.keys (length xs) b.number i k ≡ some false
  unfolding take_old
  take_old_none i k h l = rw (ne→== k b.number (omega arith), le→ltb i (length xs) h)

  -- The loop appends the merge of what is left.
  pub merge_loop-eq :
      (fuel i k : ℕ) (keys payloads : List ℕ)
      → i ≤ length xs
      → k ≤ b.number
      → length xs + b.number < i + k + fuel
      → merge_loop fuel xs vs b (length xs) i k keys payloads ≡ remaining i k keys payloads
  unfolding merge_loop
  merge_loop-eq zero i k keys payloads hi hk f = absurd (omega arith)
  merge_loop-eq (suc fuel) i k keys payloads hi hk f =
      let bk : length b.keys ≡ b.number = valid.keys_full in
      let bp : length b.payloads ≡ b.number = valid.payloads_full in
      elim (lt_cases i (length xs)) [
        | inl h ↦ elim (lt_cases k b.number) [
          | inl l ↦ elim (lt_cases (xs ! i) (b.keys ! k)) [
            | inl below ↦
                rw
                  (
                    lt→ltb i (length xs) h,
                    take_old_both i k h l,
                    lt→ltb (xs ! i) (b.keys ! k) below,
                    get_elem?-eq-get_or xs i 0 h,
                    get_elem?-eq-get_or vs i 0 (omega arith),
                    merge_loop-eq fuel (i + 1) k (keys ++ xs ! i ∷ []) (payloads ++ vs ! i ∷ [])
                        (omega arith) hk (omega arith),
                  )
                  (remaining_old i k keys payloads
                    (takes_old xs vs b.keys b.payloads full buffered i k h (omega arith) below))
            | inr above ↦
                rw
                  (
                    lt→ltb i (length xs) h,
                    take_old_both i k h l,
                    le→ltb (xs ! i) (b.keys ! k) above,
                    get_elem?-eq-get_or b.keys k 0 (omega arith),
                    get_elem?-eq-get_or b.payloads k 0 (omega arith),
                    merge_loop-eq fuel i (k + 1) (keys ++ b.keys ! k ∷ [])
                        (payloads ++ b.payloads ! k ∷ []) hi (omega arith) (omega arith),
                  )
                  (remaining_buffered i k keys payloads (
                    takes_buffered xs vs b.keys b.payloads full buffered i k h (omega arith) above))
          ]
          | inr l ↦
              rw
                (
                  lt→ltb i (length xs) h,
                  take_old_last i k (omega arith),
                  get_elem?-eq-get_or xs i 0 h,
                  get_elem?-eq-get_or vs i 0 (omega arith),
                  merge_loop-eq fuel (i + 1) k (keys ++ xs ! i ∷ []) (payloads ++ vs ! i ∷ [])
                      (omega arith) hk (omega arith),
                )
                (remaining_old i k keys payloads
                  (takes_last_old xs vs b.keys b.payloads full buffered i k h (omega arith)))
        ]
        | inr h ↦ elim (lt_cases k b.number) [
          | inl l ↦
              rw
                (
                  le→ltb i (length xs) h,
                  lt→ltb k b.number l,
                  take_old_none i k h l,
                  get_elem?-eq-get_or b.keys k 0 (omega arith),
                  get_elem?-eq-get_or b.payloads k 0 (omega arith),
                  merge_loop-eq fuel i (k + 1) (keys ++ b.keys ! k ∷ [])
                      (payloads ++ b.payloads ! k ∷ []) hi (omega arith) (omega arith),
                )
                (remaining_buffered i k keys payloads
                  (takes_last_buffered xs vs b.keys b.payloads full buffered i k h (omega arith)))
          | inr l ↦
              let t = takes_none xs vs b.keys b.payloads full buffered i k h (omega arith) in
              rw (le→ltb i (length xs) h, le→ltb k b.number l, t.0, t.1, append-nil, append-nil)
        ]
      ]
