-- ===== src/FitingTree/BufferNode/Merged.antt =====
-- `merge_buffer` on a valid node: the new arrays are sorted and hold what the node held.
use viper_learned_index.Common.{
  ℕ, ◌+◌, ◌<◌, ◌≡◌, refl, sym, subst, ◌∙◌, some, [], ◌∷◌, List, arith, length, ◌!◌, Returns, get_or,
}
use viper_learned_index.FitingTree.Float.{Float, IsMonotone}
use viper_learned_index.FitingTree.Records.{IsSorted, lookup, lookup_hit}
use viper_learned_index.FitingTree.Buffer
use viper_learned_index.FitingTree.BufferNode.{BufferNode, merge_loop, merge_buffer}
use viper_learned_index.FitingTree.BufferNode.Point.{IsValid, view}
use viper_learned_index.FitingTree.BufferNode.Merge.{
  Disjoint, merge_keys, merge_payloads, merge_keys_left, merge_keys-IsSorted, length-merge_keys,
  length-merge_payloads, lookup-merge,
}
use viper_learned_index.FitingTree.BufferNode.Settle.{merge_loop-eq}

-- The first key stays first, since the buffered keys are above it.
head-merge_keys :
    (xs bs : List ℕ)
    → 0 < length xs
    → ((k : ℕ) → k < length bs → xs ! 0 < bs ! k)
    → merge_keys xs bs ! 0 ≡ xs ! 0
head-merge_keys [] bs h a = absurd (omega arith)
head-merge_keys (x ∷ xs) [] h a = unfold merge_keys in refl
head-merge_keys (x ∷ xs) (y ∷ bs) h a = rw (merge_keys_left x y xs bs (a 0 (omega arith)))

module _ (F : Float) (m : IsMonotone F) (n : BufferNode F) (valid : IsValid F m n) where
  -- What `merge_buffer` promises of the merged node.
  pub record Merged (r : BufferNode F) : Type 0 where
    pub filled : 0 < length r.keys
    pub sorted : IsSorted r.keys
    pub full : length r.keys ≡ length r.payloads
    pub counted : (r.size ≡ n.size + n.buffer.number) × (length r.keys ≡ r.size)
    pub emptied : r.buffer ≡ Buffer.empty
    pub same_first : r.keys ! 0 ≡ n.keys ! 0
    pub reads : (j : ℕ) → lookup j r.keys r.payloads ≡ view n j

  full : length n.keys ≡ length n.payloads
  full = valid.keys_full ∙ sym valid.payloads_full

  buffered : length n.buffer.keys ≡ length n.buffer.payloads
  buffered = valid.buffered.keys_full ∙ sym valid.buffered.payloads_full

  stored :
      (k : ℕ)
      → k < length n.buffer.keys
      → lookup (n.buffer.keys ! k) n.buffer.keys n.buffer.payloads
        ≡ some (get_or n.buffer.payloads k 0)
  stored k h = lookup_hit k _ n.buffer.keys n.buffer.payloads valid.buffered.sorted h buffered refl

  disjoint : Disjoint n.keys n.buffer.keys
  disjoint i k h l e =
      let here = lookup_hit i (n.buffer.keys ! k) n.keys n.payloads valid.sorted h full e in
      let away = valid.apart (n.buffer.keys ! k) (get_or n.buffer.payloads k 0) (stored k l) in cc

  above : (k : ℕ) → k < length n.buffer.keys → n.keys ! 0 < n.buffer.keys ! k
  above k l = valid.above (n.buffer.keys ! k) (get_or n.buffer.payloads k 0) (stored k l)

  loop_runs :
      merge_loop (n.size + n.buffer.number + 1) n.keys n.payloads n.buffer n.size 0 0 [] []
      ≡ some (
        merge_keys n.keys n.buffer.keys,
        merge_payloads n.keys n.buffer.keys n.payloads n.buffer.payloads,
      )
  loop_runs =
      subst
        (λ s.
          merge_loop (n.size + n.buffer.number + 1) n.keys n.payloads n.buffer s 0 0 [] []
          ≡ some (
            merge_keys n.keys n.buffer.keys,
            merge_payloads n.keys n.buffer.keys n.payloads n.buffer.payloads,
          ))
        valid.keys_full
        (merge_loop-eq n.keys n.payloads n.buffer full valid.buffered (n.size + n.buffer.number + 1)
          0 0 [] [] (omega arith) (omega arith) (omega (arith, valid.keys_full)))

  -- On a valid node, `merge_buffer` is defined, sorts the array and the buffer into one, empties the buffer, and
  -- changes no lookup.
  pub merge_buffer_lem : Returns (merge_buffer F n) Merged
  unfolding merge_buffer view Buffer.init
  merge_buffer_lem =
      let bk = valid.buffered.keys_full in
      let keys = merge_keys n.keys n.buffer.keys in
      let payloads = merge_payloads n.keys n.buffer.keys n.payloads n.buffer.payloads in
      let size = length-merge_keys n.keys n.buffer.keys in
      (
        record n {
          size = n.size + n.buffer.number;
          keys = keys;
          payloads = payloads;
          buffer = Buffer.empty;
        },
        rw loop_runs,
        record {
          filled = omega (arith, valid.filled, valid.keys_full);
          sorted =
              merge_keys-IsSorted n.keys n.buffer.keys valid.sorted valid.buffered.sorted disjoint;
          full = omega (
            arith,
            size,
            full,
            buffered,
            length-merge_payloads n.keys n.buffer.keys n.payloads n.buffer.payloads full buffered,
          );
          counted = (refl, omega (arith, valid.keys_full));
          emptied = refl;
          same_first =
              head-merge_keys n.keys n.buffer.keys (omega (arith, valid.filled, valid.keys_full))
                above;
          reads = λ j.
              lookup-merge j n.keys n.buffer.keys n.payloads n.buffer.payloads full buffered
                disjoint;
        },
      )
