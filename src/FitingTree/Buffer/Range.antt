-- ===== src/FitingTree/Buffer/Range.antt =====
-- `range_query` of a buffer.
use viper_learned_index.Common.{ℕ, ◌+◌, ◌≡◌, refl, sym, ◌∙◌, some, List, ◌++◌, arith, length}
use viper_learned_index.FitingTree.Records.{rank, rank-le, rank_le}
use viper_learned_index.FitingTree.Scan.Range.{
  between, skip_below-eq, collect_upto-Collected, from_rank,
}
use viper_learned_index.FitingTree.Buffer.{Buffer, range_query}
use viper_learned_index.FitingTree.Buffer.Point.{IsValid}

-- `range_query` of a valid buffer is defined, and adds exactly its records in the range, in order, to the answers.
pub buffer_range_query_lem :
    (b : Buffer) (lower upper : ℕ) (answers : List (ℕ × ℕ))
    → IsValid b
    → range_query b lower upper answers ≡ some (answers ++ between lower upper b.keys b.payloads)
unfolding range_query
buffer_range_query_lem b lower upper answers valid =
    let full : length b.keys ≡ length b.payloads = valid.keys_full ∙ sym valid.payloads_full in
    let (r, run, c) =
      collect_upto-Collected b.keys b.payloads valid.sorted full lower upper (length b.keys + 1)
        (rank lower b.keys) answers (rank-le lower b.keys) (omega arith)
        (rank_le lower (rank lower b.keys) b.keys valid.sorted (omega arith)) in
    rw
      (
        ← valid.keys_full,
        skip_below-eq b.keys b.payloads valid.sorted full lower upper (length b.keys + 1) 0
            (omega arith) (omega arith),
        run,
        c.found,
        from_rank b.keys b.payloads valid.sorted full lower upper,
      )
      refl
