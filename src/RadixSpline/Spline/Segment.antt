-- ===== src/RadixSpline/Spline/Segment.antt =====
-- `GetSplineSegment`: the radix table narrows the range, and either search finds the segment.
use viper_learned_index.Common.{
  ℕ, zero, suc, ◌+◌, ◌-◌, ◌≤◌, ◌<◌, ◌≡◌, refl, ap, some, List, [], ◌∷◌, arith, length, ◌!◌, ltb,
  get_elem?, inl, inr, Bool-cases,
}
use viper_learned_index.FitingTree.Records.{rank, lt_rank}
use viper_learned_index.RadixSpline.Sorted.{IsNondecreasing, rank_from, lower_bound-eq}
use viper_learned_index.RadixSpline.Spline.{
  Real, Coord, RadixSpline, xs, sub_uint32, linear_search, get_prefix, get_spline_segment,
}

module _ (R : Real) where
  pub length-xs : (ps : List (Coord R)) → length (xs ps) ≡ length ps
  length-xs [] = refl
  length-xs (p ∷ ps) = ap suc (length-xs ps)

  point_at :
      (ps : List (Coord R)) (i : ℕ)
      → i < length ps
      → (p : Coord R) × (get_elem? ps i ≡ some p) × (p.x ≡ xs ps ! i)
  point_at [] i h = absurd (omega arith)
  point_at (p ∷ ps) zero h = (p, refl, refl)
  point_at (p ∷ ps) (suc i) h = point_at ps i (omega arith)

  linear_search-eq :
      (fuel key current : ℕ) (ps : List (Coord R))
      → IsNondecreasing (xs ps)
      → current ≤ rank key (xs ps)
      → rank key (xs ps) < length ps
      → rank key (xs ps) < fuel + current
      → linear_search fuel ps key current ≡ some (rank key (xs ps))
  unfolding linear_search
  linear_search-eq zero key current ps s low inside enough = absurd (omega arith)
  linear_search-eq (suc fuel) key current ps s low inside enough =
      let (p, at, same) = point_at ps current (omega arith) in
      rw at (
        ground (
          arith,
          same,
          length-xs ps,
          linear_search-eq fuel key (current + 1) ps s,
          lt_rank key current (xs ps),
          rank_from key current (xs ps) s,
        ))

  -- What the radix table and the points must satisfy at a key.
  pub record Narrows (s : RadixSpline R) (key begin end : ℕ) : Type 0 where
    pub sorted : IsNondecreasing (xs s.spline_points)
    pub first : get_elem? s.radix_table (get_prefix s key) ≡ some begin
    pub last : get_elem? s.radix_table (get_prefix s key + 1) ≡ some end
    pub low : begin ≤ rank key (xs s.spline_points)
    pub high : rank key (xs s.spline_points) ≤ end
    pub inside : end ≤ length s.spline_points
    -- some point is not below the key
    pub ended : rank key (xs s.spline_points) < length s.spline_points

  -- If the entries of the radix table for the key's prefix enclose the first spline point that is
  -- not below the key, and there is one, then `GetSplineSegment` is defined and returns its index,
  -- by the linear search for a narrow range and by the binary search for a wide one.
  pub get_spline_segment_lem :
      (s : RadixSpline R) (key begin end : ℕ)
      → Narrows s key begin end
      → get_spline_segment s key ≡ some (rank key (xs s.spline_points))
  unfolding get_spline_segment
  get_spline_segment_lem s key begin end n = elim (Bool-cases (ltb (sub_uint32 end begin) 32)) [
    | inl narrow ↦
        rw (n.first, n.last, narrow)
          (linear_search-eq (length s.spline_points + 1) key begin s.spline_points n.sorted n.low
            n.ended (omega (arith, n.ended)))
    | inr wide ↦
        rw (n.first, n.last, wide)
          (lower_bound-eq (end - begin) begin key (xs s.spline_points) n.sorted n.low
            (omega (arith, n.low, n.high))
            (omega (arith, n.low, n.high, n.inside, length-xs s.spline_points)))
  ]
