-- ===== src/FitingTree/InplaceNode/Point.antt =====
-- `find` and `upsert` of an `InPlaceNode` on a valid node: they are defined, read and write the map
-- that the node stands for, and `upsert` keeps the node valid.
use viper_learned_index.Common.{
  ℕ, ◌+◌, ◌≤◌, ◌<◌, ◌≡◌, ◌≢◌, refl, sym, some, arith, length, ◌!◌, Returns, inl, inr, ltb, lt→ltb,
  ne→==, ◌==◌, ==_iff, if◌then◌else◌, get_elem?-eq-get_or, get_or-insert_at, insert_at, set,
  length-set, length-insert_at, ◌∙◌,
}
use viper_learned_index.Common.Int.{ℤ}
use viper_learned_index.FitingTree.Float.{Float, IsMonotone}
use viper_learned_index.FitingTree.Parameters.{epsilon_default, reserve, payload_or_none}
use viper_learned_index.FitingTree.Records.{
  rank, lookup, rank-le, lt_rank, rank_le, lookup-eq-none, lookup-set, lookup-insert_at, lookup_hit,
  insert_at-IsSorted,
}
use viper_learned_index.FitingTree.Search.{predict_int, clamp}
use viper_learned_index.FitingTree.Search.Position.{Reaches, Locates}
use viper_learned_index.FitingTree.Search.Model.{
  model-Locates, number-Reaches, insert_at-FitsWithin,
}
use viper_learned_index.FitingTree.InplaceNode.{
  InplaceNode, find_precise_position, find, upsert, insert_record,
}
use viper_learned_index.FitingTree.InplaceNode.Model.{IsValid}

module _ (F : Float) (m : IsMonotone F) (n : InplaceNode F) (valid : IsValid F m n) (key : ℕ)
    (z : ℤ) (defined : predict_int F n.slope n.intercept key ≡ some z) where
  node-Reaches : Reaches n.keys key n.epsilon (clamp n.number z)
  node-Reaches =
      number-Reaches F m n.slope n.intercept n.keys n.number n.epsilon key z valid.rising
        valid.keys_full valid.filled valid.sorted defined valid.fits

  pub node-Locates : Returns (find_precise_position F n key) (Locates n.keys key)
  node-Locates =
      model-Locates F m n.slope n.intercept n.keys n.number n.epsilon key z valid.rising
        valid.keys_full valid.filled valid.sorted defined valid.fits

  -- On a valid node whose model has a defined value at the key, `find` is defined; it returns the
  -- payload stored under the key, and `NONE()` for a key that is not stored.
  pub inplace_node_find_lem : find F n key ≡ some (payload_or_none (lookup key n.keys n.payloads))
  unfolding find
  inplace_node_find_lem =
      let (q, run, l) = node-Locates in
      let full : length n.keys ≡ length n.payloads = valid.keys_full ∙ sym valid.payloads_full in
      let read = get_elem?-eq-get_or n.payloads q 0 (rw (← full) l.0) in
      rw (run, get_elem?-eq-get_or n.keys q 0 l.0)
        (elim l.1 [
          | inl hit ↦
              ground (arith, read, lookup_hit q key n.keys n.payloads valid.sorted l.0 full hit)
          | inr miss ↦ ground (arith, miss.0 q l.0, lookup-eq-none key n.keys n.payloads miss.0)
        ])

  -- What `upsert` promises of the node and the number that it returns.
  pub record Upserted (payload : ℕ) (r : InplaceNode F × ℕ) : Type 0 where
    pub still_valid : IsValid F m r.0
    pub bound : r.1 ≡ r.0.epsilon
    pub grows : r.1 ≤ n.epsilon + 1
    pub same_slope : r.0.slope ≡ n.slope
    pub same_intercept : r.0.intercept ≡ n.intercept
    pub same_first : n.keys ! 0 ≤ key → r.0.keys ! 0 ≡ n.keys ! 0
    pub reads :
        (j : ℕ)
        → lookup j r.0.keys r.0.payloads
          ≡ (if key == j then some payload else lookup j n.keys n.payloads)

  full : length n.keys ≡ length n.payloads
  full = valid.keys_full ∙ sym valid.payloads_full

  -- A write over the payload of a stored key.
  write-Upserted :
      (payload q : ℕ)
      → q < length n.keys
      → n.keys ! q ≡ key
      → Upserted payload (record n { payloads = set n.payloads q payload }, n.epsilon)
  write-Upserted payload q h hit = record {
    still_valid = record {
      filled = valid.filled;
      keys_full = valid.keys_full;
      payloads_full = length-set n.payloads q payload ∙ valid.payloads_full;
      sorted = valid.sorted;
      roomy = valid.roomy;
      rising = valid.rising;
      fits = valid.fits;
    };
    bound = refl;
    grows = omega arith;
    same_slope = refl;
    same_intercept = refl;
    same_first = λ h. refl;
    reads = λ j. rw (← hit) (lookup-set q j payload n.keys n.payloads valid.sorted h full);
  }

  -- The cell on which the search lands, or the next one, is the place of a key that is not stored.
  place_at_rank :
      (q : ℕ)
      → q < length n.keys
      → ((i : ℕ) → i < length n.keys → n.keys ! i ≢ key)
        × (q ≤ rank key n.keys)
        × (rank key n.keys ≤ q + 1)
      → (if ltb (n.keys ! q) key then q + 1 else q) ≡ rank key n.keys
  place_at_rank q h miss =
      grind
        (arith, miss.0 q h, lt_rank key q n.keys, rank_le key q n.keys valid.sorted, miss.1, miss.2)

  -- A new key above the first one leaves the first one in its place.
  first_stays :
      ((i : ℕ) → i < length n.keys → n.keys ! i ≢ key)
      → n.keys ! 0 ≤ key
      → insert_at (rank key n.keys) key n.keys ! 0 ≡ n.keys ! 0
  first_stays new h =
      let inside : 0 < length n.keys = omega (arith, valid.filled, valid.keys_full) in
      grind (
        arith,
        get_or-insert_at (rank key n.keys) 0 key 0 n.keys (rank-le key n.keys),
        rank_le key 0 n.keys valid.sorted,
        new 0 inside,
        inside,
      )

  -- An insertion of a key that is not stored, at its rank.
  insert_record-Upserted :
      (payload : ℕ)
      → n.epsilon < epsilon_default + reserve
      → ((i : ℕ) → i < length n.keys → n.keys ! i ≢ key)
      → Returns (insert_record F n (rank key n.keys) key payload) (Upserted payload)
  unfolding insert_record
  insert_record-Upserted payload room new =
      let r = rank key n.keys in
      let inside = rank-le key n.keys in
      let space : n.number < n.size = omega (arith, valid.roomy) in
      (
        (
          record n {
            number = n.number + 1;
            epsilon = n.epsilon + 1;
            keys = insert_at r key n.keys;
            payloads = insert_at r payload n.payloads;
          },
          n.epsilon + 1,
        ),
        rw (lt→ltb n.number n.size space),
        record {
          still_valid = record {
            filled = omega arith;
            keys_full = rw (length-insert_at r key n.keys) (omega (arith, valid.keys_full));
            payloads_full =
                rw (length-insert_at r payload n.payloads) (omega (arith, valid.payloads_full));
            sorted = insert_at-IsSorted key n.keys valid.sorted new;
            roomy = omega (arith, valid.roomy);
            rising = valid.rising;
            fits =
                insert_at-FitsWithin F m n.slope n.intercept n.keys n.number n.epsilon key z
                  valid.keys_full valid.filled defined node-Reaches.near node-Reaches.far
                  valid.fits;
          };
          bound = refl;
          grows = omega arith;
          same_slope = refl;
          same_intercept = refl;
          same_first = first_stays new;
          reads = λ j.
              lookup-insert_at r key j payload n.keys n.payloads inside full
                (λ i h. new i (omega arith));
        },
      )

  -- On a valid node with `epsilon` below the split bound, whose model has a defined value at the
  -- key, `upsert` is defined, keeps the node valid, and writes exactly the given key.
  pub inplace_node_upsert_lem :
      (payload : ℕ)
      → n.epsilon < epsilon_default + reserve
      → Returns (upsert F n key payload) (Upserted payload)
  unfolding upsert
  inplace_node_upsert_lem payload room =
      let (q, run, l) = node-Locates in
      rw (run, get_elem?-eq-get_or n.keys q 0 l.0)
        (elim l.1 [
          | inl hit ↦ rw ((==_iff (n.keys ! q) key).1 hit) (
            (record n { payloads = set n.payloads q payload }, n.epsilon),
            refl,
            write-Upserted payload q l.0 hit,
          )
          | inr miss ↦
              let place : (if ltb (n.keys ! q) key then q + 1 else q) ≡ rank key n.keys =
                place_at_rank q l.0 miss in
              rw (ne→== (n.keys ! q) key (miss.0 q l.0), place)
                (insert_record-Upserted payload room miss.0)
        ])
