-- ===== src/RadixSpline/MultiMap/Lookup.antt =====
-- The lookups of `MultiMap` are exact when the spline keeps its error.
use viper_learned_index.Common.{
  ℕ, ◌+◌, ◌-◌, ◌≤◌, ◌<◌, ◌≡◌, ◌≢◌, ◌⊎◌, refl, true, false, some, arith, length, ◌!◌, le→leb, word,
  ◌==◌, ==_iff, get_elem?-eq-get_or, Returns, Bool-cases, inl, inr, lt_cases,
}
use viper_learned_index.FitingTree.Records.{rank, rank-le, lt_rank}
use viper_learned_index.RadixSpline.Sorted.{IsNondecreasing, rank_from, lower_bound-eq}
use viper_learned_index.RadixSpline.Spline.{Real, get_estimated_position}
use viper_learned_index.RadixSpline.Spline.Bound.{get_search_bound_lem}
use viper_learned_index.RadixSpline.MultiMap.{MultiMap, lower_bound, find}

module _ (R : Real) where
  -- The spline's estimate for the key misses the key's place by at most `max_error`, or by one more
  -- to the left.
  pub record IsNear (map : MultiMap R) (key : ℕ) : Type 0 where
    pub sorted : IsNondecreasing map.keys
    pub counted : map.rs.num_keys ≡ length map.keys
    pub estimate : ℕ
    pub position : R.Double
    pub estimated : get_estimated_position map.rs key ≡ some position
    pub converts : R.to_size position ≡ some estimate
    pub small : estimate + map.rs.max_error + 2 < word
    pub low : estimate ≤ rank key map.keys + map.rs.max_error
    pub high : rank key map.keys ≤ estimate + map.rs.max_error + 1

  -- On sorted data, with an estimate within the error, `lower_bound` is defined and returns the first
  -- index whose key is not below the given one, or the end.
  pub lower_bound_lem :
      (map : MultiMap R) (key : ℕ) → IsNear map key → lower_bound map key ≡ some (rank key map.keys)
  unfolding lower_bound
  lower_bound_lem map key n =
      let (b, run, w) =
        get_search_bound_lem R map.rs key n.estimate n.position n.estimated n.converts n.small in
      let inside = rank-le key map.keys in
      let (from, upto) = w.holds (rank key map.keys) (omega (arith, n.counted)) n.low n.high in
      let ordered : b.begin ≤ b.end = omega arith in
      rw (run, le→leb b.begin b.end ordered)
        (lower_bound-eq (b.end - b.begin) b.begin key map.keys n.sorted from (omega arith)
          (omega (arith, w.inside, n.counted)))

  -- On sorted data, with an estimate within the error, `find` is defined; it returns the first index
  -- with the given key, or the end if the key is nowhere.
  pub multi_map_find_lem :
      (map : MultiMap R) (key : ℕ)
      → IsNear map key
      → Returns (find map key) λ i.
        ((i < length map.keys) × (map.keys ! i ≡ key) × ((k : ℕ) → k < i → map.keys ! k < key))
        ⊎ ((i ≡ length map.keys) × ((k : ℕ) → k < length map.keys → map.keys ! k ≢ key))
  unfolding find
  multi_map_find_lem map key n =
      let r = rank key map.keys in
      let run = lower_bound_lem map key n in
      elim (lt_cases r (length map.keys)) [
        | inl inside ↦
            let other : (r == length map.keys) ≡ false = ground arith in
            elim (Bool-cases (map.keys ! r == key)) [
              | inl hit ↦ (
                r,
                rw (run, other, get_elem?-eq-get_or map.keys r 0 inside, hit) refl,
                inl (inside, (==_iff (map.keys ! r) key).0 hit, λ k h. lt_rank key k map.keys h),
              )
              | inr miss ↦ (
                length map.keys,
                rw (run, other, get_elem?-eq-get_or map.keys r 0 inside, miss) refl,
                inr (refl, λ k l e. absurd (away k l e miss)),
              )
            ]
        | inr end ↦
            let same : r ≡ length map.keys = omega (arith, rank-le key map.keys) in
            let at_end : (r == length map.keys) ≡ true = ground arith in
            (
              length map.keys,
              rw (run, at_end) refl,
              inr (refl, λ k l e. omega (arith, lt_rank key k map.keys)),
            )
      ]
    where
      away :
          (k : ℕ)
          → k < length map.keys
          → map.keys ! k ≡ key
          → (map.keys ! rank key map.keys == key) ≡ false
          → ⊥
      away k l e miss = grind (
        arith,
        lt_rank key k map.keys,
        rank_from key (rank key map.keys) map.keys n.sorted,
        n.sorted (rank key map.keys) k,
        ==_iff (map.keys ! rank key map.keys) key,
      )
