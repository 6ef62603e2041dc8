-- ===== src/FitingTree/Buffer/Point.antt =====
-- `find` and `upsert` of a buffer: they read and write the map that the buffer stands for.
use viper_learned_index.Common.{
  ℕ, zero, suc, ◌+◌, ◌≤◌, ◌<◌, ◌≡◌, ◌≢◌, none, refl, sym, subst, some, List, arith, length, ◌!◌,
  Returns, inl, inr, lt_cases, leb, lt→ltb, lt→leb, le→leb, ◌==◌, ==_iff, Bool-cases, if◌then◌else◌,
  get_elem?-eq-get_or, insert_at, set, length-set, length-insert_at, ◌∙◌,
}
use viper_learned_index.FitingTree.Parameters.{reserve, payload_or_none}
use viper_learned_index.FitingTree.Records.{
  IsSorted, rank, lookup, lookup_hit, rank-le, lt_rank, rank_le, lookup-set, lookup-insert_at,
  insert_at-IsSorted, not_at_rank, lookup-rank,
}
use viper_learned_index.FitingTree.Buffer.{
  Buffer, Place, found, shift, append, find_loop, find, place_loop, insert_record, store, upsert,
  empty,
}

pub record IsValid (b : Buffer) : Type 0 where
  pub keys_full : length b.keys ≡ b.number
  pub payloads_full : length b.payloads ≡ b.number
  pub within : b.number ≤ reserve
  pub sorted : IsSorted b.keys

pub empty-IsValid : IsValid empty
empty-IsValid = record {
  keys_full = refl;
  payloads_full = refl;
  within = omega arith;
  sorted = λ i j h l. absurd (omega arith);
}

pub empty-lookup : (j v : ℕ) → lookup j empty.keys empty.payloads ≡ some v → ⊥
unfolding lookup
empty-lookup j v e = cc

-- Where the loops end.
abbrev place_of : ℕ → List ℕ → Place
place_of key keys =
    if leb (length keys) (rank key keys)
    then append
    else if keys ! rank key keys == key
    then found (rank key keys)
    else shift (rank key keys)

place_loop-eq :
    (rounds key i : ℕ) (keys : List ℕ)
    → IsSorted keys
    → i + rounds ≡ length keys
    → i ≤ rank key keys
    → place_loop rounds keys key i ≡ some (place_of key keys)
unfolding place_loop
place_loop-eq zero key i keys s e h = ground (arith, rank-le key keys)
place_loop-eq (suc rounds) key i keys s e h = rw (get_elem?-eq-get_or keys i 0 (omega arith)) (
    ground (
      arith,
      rank-le key keys,
      lt_rank key i keys,
      rank_le key i keys s,
      place_loop-eq rounds key (i + 1) keys s,
    ))

find_loop-eq :
    (rounds key i : ℕ) (keys payloads : List ℕ)
    → IsSorted keys
    → length keys ≡ length payloads
    → i + rounds ≡ length keys
    → i ≤ rank key keys
    → find_loop rounds keys payloads key i ≡ some (payload_or_none (lookup key keys payloads))
unfolding find_loop
find_loop-eq zero key i keys payloads s full e h =
    ground (arith, rank-le key keys, lookup-rank key keys payloads s full)
find_loop-eq (suc rounds) key i keys payloads s full e h =
    rw (get_elem?-eq-get_or keys i 0 (omega arith)) (
      ground (
        arith,
        rank-le key keys,
        lt_rank key i keys,
        rank_le key i keys s,
        lookup-rank key keys payloads s full,
        get_elem?-eq-get_or payloads i 0,
        find_loop-eq rounds key (i + 1) keys payloads s full,
      ))

module _ (b : Buffer) (valid : IsValid b) (key : ℕ) where
  -- On a valid buffer, `find` is defined; it returns the payload stored under the key, and `NONE()`
  -- for a key that is not stored.
  pub buffer_find_lem : find b key ≡ some (payload_or_none (lookup key b.keys b.payloads))
  unfolding find
  buffer_find_lem =
      find_loop-eq b.number key 0 b.keys b.payloads valid.sorted full
        (omega (arith, valid.keys_full)) (omega arith)
    where
      full : length b.keys ≡ length b.payloads
      full = valid.keys_full ∙ sym valid.payloads_full

  -- What `upsert` promises of the buffer and the number that it returns.
  pub record Upserted (payload : ℕ) (r : Buffer × ℕ) : Type 0 where
    pub still_valid : IsValid r.0
    pub counted : r.1 ≡ r.0.number
    pub added : lookup key b.keys b.payloads ≡ none → r.1 ≡ b.number + 1
    pub grows : (b.number ≤ r.1) × (r.1 ≤ b.number + 1)
    pub reads :
        (j : ℕ)
        → lookup j r.0.keys r.0.payloads
          ≡ (if key == j then some payload else lookup j b.keys b.payloads)

  full : length b.keys ≡ length b.payloads
  full = valid.keys_full ∙ sym valid.payloads_full

  write-Upserted :
      (payload : ℕ)
      → rank key b.keys < length b.keys
      → b.keys ! rank key b.keys ≡ key
      → Upserted payload
          (record b { payloads = set b.payloads (rank key b.keys) payload }, b.number)
  write-Upserted payload h hit = record {
    still_valid = record {
      keys_full = valid.keys_full;
      payloads_full = length-set b.payloads (rank key b.keys) payload ∙ valid.payloads_full;
      within = valid.within;
      sorted = valid.sorted;
    };
    counted = refl;
    added = λ e.
        absurd (cc (e, lookup_hit (rank key b.keys) key b.keys b.payloads valid.sorted h full hit));
    grows = omega arith;
    reads = λ j.
        let w = lookup-set (rank key b.keys) j payload b.keys b.payloads valid.sorted h full in
        rw hit at w;
  }

  insert_record-Upserted :
      (payload : ℕ)
      → b.number < reserve
      → ((i : ℕ) → i < length b.keys → b.keys ! i ≢ key)
      → Returns (insert_record b (rank key b.keys) key payload) (Upserted payload)
  unfolding insert_record
  insert_record-Upserted payload room new =
      let r = rank key b.keys in
      let inside = rank-le key b.keys in
      (
        (
          record {
            number = b.number + 1;
            keys = insert_at r key b.keys;
            payloads = insert_at r payload b.payloads;
          },
          b.number + 1,
        ),
        rw (lt→ltb b.number reserve room),
        record {
          still_valid = record {
            keys_full = rw (length-insert_at r key b.keys) (omega (arith, valid.keys_full));
            payloads_full =
                rw (length-insert_at r payload b.payloads) (omega (arith, valid.payloads_full));
            within = omega arith;
            sorted = insert_at-IsSorted key b.keys valid.sorted new;
          };
          counted = refl;
          added = λ e. refl;
          grows = omega arith;
          reads = λ j.
              lookup-insert_at r key j payload b.keys b.payloads inside full
                (λ i h. new i (omega arith));
        },
      )

  store-Upserted :
      (payload : ℕ)
      → b.number < reserve
      → Returns (store b key payload (place_of key b.keys)) (Upserted payload)
  unfolding store
  store-Upserted payload room = elim (lt_cases (rank key b.keys) (length b.keys)) [
    | inl h ↦ elim (Bool-cases (b.keys ! rank key b.keys == key)) [
      | inl hit ↦
          let hit' = (==_iff (b.keys ! rank key b.keys) key).0 hit in
          rw (lt→leb (rank key b.keys) (length b.keys) h, hit)
            (_, refl, write-Upserted payload h hit')
      | inr miss ↦
          rw (lt→leb (rank key b.keys) (length b.keys) h, miss)
            (insert_record-Upserted payload room
              (not_at_rank key b.keys valid.sorted (ground arith)))
    ]
    | inr end ↦
        let e : rank key b.keys ≡ b.number = omega (arith, valid.keys_full, rank-le key b.keys) in
        rw (le→leb (length b.keys) (rank key b.keys) end) (
          subst (λ pos. Returns (insert_record b pos key payload) (Upserted payload)) e
            (insert_record-Upserted payload room
              (not_at_rank key b.keys valid.sorted (ground arith))))
  ]

  -- On a valid buffer with a free cell, `upsert` is defined, keeps the buffer valid, and writes
  -- exactly the given key.
  pub buffer_upsert_lem :
      (payload : ℕ) → b.number < reserve → Returns (upsert b key payload) (Upserted payload)
  unfolding upsert
  buffer_upsert_lem payload room =
      rw
        (place_loop-eq b.number key 0 b.keys valid.sorted (omega (arith, valid.keys_full))
          (omega arith))
        (store-Upserted payload room)
