-- ===== src/FitingTree/BufferNode/Point.antt =====
-- `find` and `upsert` of a `BufferNode`: on a valid node they are defined, read and write the map
-- that the array and the buffer stand for together, and `upsert` keeps the node valid.
use viper_learned_index.Common.{
  ℕ, ◌+◌, ◌≤◌, ◌<◌, ◌≡◌, ◌≢◌, refl, sym, ◌∙◌, Option, none, some, arith, length, ◌!◌, Returns, inl,
  inr, ◌==◌, ==_iff, ne→==, if◌then◌else◌, get_elem?-eq-get_or, or_else, set, length-set,
}
use viper_learned_index.Common.Int.{ℤ}
use viper_learned_index.FitingTree.Float.{Float, IsMonotone}
use viper_learned_index.FitingTree.Parameters.{epsilon_default, reserve, payload_or_none}
use viper_learned_index.FitingTree.Records.{
  IsSorted, lookup, lookup_hit, lookup-eq-none, lookup-set,
}
use viper_learned_index.FitingTree.Search.{predict_int}
use viper_learned_index.FitingTree.Search.Position.{Locates}
use viper_learned_index.FitingTree.Search.Model.{FitsWithin, model-Locates}
use viper_learned_index.FitingTree.Buffer
use viper_learned_index.FitingTree.Buffer.Point as BufferPoint
use viper_learned_index.FitingTree.BufferNode.{BufferNode, find_precise_position, find, upsert}

-- The map that a node stands for: its array, then its buffer.
unfoldable pub view : {F : Float} → BufferNode F → ℕ → Option ℕ
view n j = or_else (lookup j n.keys n.payloads) (lookup j n.buffer.keys n.buffer.payloads)

module _ (F : Float) (m : IsMonotone F) where
  pub record IsValid (n : BufferNode F) : Type 0 where
    pub filled : 0 < n.size
    pub keys_full : length n.keys ≡ n.size
    pub payloads_full : length n.payloads ≡ n.size
    pub sorted : IsSorted n.keys
    pub rising : m.NonNegative n.slope
    pub fits : FitsWithin F n.slope n.intercept n.size epsilon_default n.keys
    pub buffered : BufferPoint.IsValid n.buffer
    -- the buffer holds keys that the array does not, all above the first key of the array
    pub apart :
        (j v : ℕ)
        → lookup j n.buffer.keys n.buffer.payloads ≡ some v
        → lookup j n.keys n.payloads ≡ none
    pub above : (j v : ℕ) → lookup j n.buffer.keys n.buffer.payloads ≡ some v → n.keys ! 0 < j

module _ (F : Float) (m : IsMonotone F) (n : BufferNode F) (valid : IsValid F m n) (key : ℕ) (z : ℤ)
    (defined : predict_int F n.slope n.intercept key ≡ some z) where
  full : length n.keys ≡ length n.payloads
  full = valid.keys_full ∙ sym valid.payloads_full

  pub node-Locates : Returns (find_precise_position F n key) (Locates n.keys key)
  node-Locates =
      model-Locates F m n.slope n.intercept n.keys n.size epsilon_default key z valid.rising
        valid.keys_full valid.filled valid.sorted defined valid.fits

  -- On a valid node whose model has a defined value at the key, `find` is defined; it returns the
  -- payload stored under the key, in the array or the buffer, and `NONE()` for a key in neither.
  pub buffer_node_find_lem : find F n key ≡ some (payload_or_none (view n key))
  unfolding find view
  buffer_node_find_lem =
      let (q, run, l) = node-Locates in
      let read = get_elem?-eq-get_or n.payloads q 0 (rw (← full) l.0) in
      rw (run, get_elem?-eq-get_or n.keys q 0 l.0)
        (elim l.1 [
          | inl hit ↦
              ground (arith, read, lookup_hit q key n.keys n.payloads valid.sorted l.0 full hit)
          | inr miss ↦ ground (
            arith,
            miss.0 q l.0,
            lookup-eq-none key n.keys n.payloads miss.0,
            BufferPoint.buffer_find_lem n.buffer valid.buffered key,
          )
        ])

  -- What `upsert` promises of the node and the number that it returns.
  pub record Upserted (payload : ℕ) (r : BufferNode F × ℕ) : Type 0 where
    pub still_valid : IsValid F m r.0
    pub counted : r.1 ≡ r.0.buffer.number
    pub grows : r.1 ≤ n.buffer.number + 1
    pub same_slope : r.0.slope ≡ n.slope
    pub same_intercept : r.0.intercept ≡ n.intercept
    pub same_first : r.0.keys ! 0 ≡ n.keys ! 0
    pub reads : (j : ℕ) → view r.0 j ≡ (if key == j then some payload else view n j)

  write-Upserted :
      (payload q : ℕ)
      → q < length n.keys
      → n.keys ! q ≡ key
      → Upserted payload (record n { payloads = set n.payloads q payload }, n.buffer.number)
  unfolding view
  write-Upserted payload q h hit =
      let w = λ (j : ℕ). lookup-set q j payload n.keys n.payloads valid.sorted h full in
      let at = lookup_hit q key n.keys n.payloads valid.sorted h full hit in
      record {
        still_valid = record {
          filled = valid.filled;
          keys_full = valid.keys_full;
          payloads_full = length-set n.payloads q payload ∙ valid.payloads_full;
          sorted = valid.sorted;
          rising = valid.rising;
          fits = valid.fits;
          buffered = valid.buffered;
          apart = λ j v e. ground (arith, w j, at, valid.apart j v e);
          above = valid.above;
        };
        counted = refl;
        grows = omega arith;
        same_slope = refl;
        same_intercept = refl;
        same_first = refl;
        reads = λ j. ground (arith, w j);
      }

  buffer-Upserted :
      (payload : ℕ)
      → ((i : ℕ) → i < length n.keys → n.keys ! i ≢ key)
      → n.keys ! 0 ≤ key
      → (r : Buffer.Buffer × ℕ) → BufferPoint.Upserted n.buffer valid.buffered key payload r
      → Upserted payload (record n { buffer = r.0 }, r.1)
  unfolding view
  buffer-Upserted payload new first r w =
      let absent = lookup-eq-none key n.keys n.payloads new in
      record {
        still_valid = record {
          filled = valid.filled;
          keys_full = valid.keys_full;
          payloads_full = valid.payloads_full;
          sorted = valid.sorted;
          rising = valid.rising;
          fits = valid.fits;
          buffered = w.still_valid;
          apart = λ j v e. ground (arith, w.reads j, absent, valid.apart j v);
          above = λ j v e. ground (
            arith,
            w.reads j,
            new 0 (omega (arith, valid.keys_full, valid.filled)),
            valid.above j v,
          );
        };
        counted = w.counted;
        grows = w.grows.1;
        same_slope = refl;
        same_intercept = refl;
        same_first = refl;
        reads = λ j. ground (arith, w.reads j, absent);
      }

  -- On a valid node with a free cell in its buffer, `upsert` of a key that is not below the node's
  -- first, and at which the model has a defined value, is defined, keeps the node valid, and writes
  -- exactly the given key.
  pub buffer_node_upsert_lem :
      (payload : ℕ)
      → n.buffer.number < reserve
      → n.keys ! 0 ≤ key
      → Returns (upsert F n key payload) (Upserted payload)
  unfolding upsert
  buffer_node_upsert_lem payload room first =
      let (q, run, l) = node-Locates in
      rw (run, get_elem?-eq-get_or n.keys q 0 l.0)
        (elim l.1 [
          | inl hit ↦ rw ((==_iff (n.keys ! q) key).1 hit) (
            (record n { payloads = set n.payloads q payload }, n.buffer.number),
            refl,
            write-Upserted payload q l.0 hit,
          )
          | inr miss ↦
              let (r, e, w) =
                BufferPoint.buffer_upsert_lem n.buffer valid.buffered key payload room in
              rw (ne→== (n.keys ! q) key (miss.0 q l.0), e)
                ((record n { buffer = r.0 }, r.1), refl, buffer-Upserted payload miss.0 first r w)
        ])
