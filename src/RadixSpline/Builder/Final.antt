-- ===== src/RadixSpline/Builder/Final.antt =====
-- The spline that a `Builder` hands over: its radix table leads each lookup to the right segment.
use native.Mathlib.Nat.{le-div_iff_mul-le, div-mul-le_self, one-le-pow}
use viper_learned_index.Common.{
  ℕ, zero, suc, ◌+◌, ◌/◌, ◌^◌, ◌≤◌, ◌<◌, ◌≡◌, refl, ap, ◌∙◌, some, List, [], ◌∷◌, arith, length,
  ◌!◌, sub_size, get_elem?-eq-get_or, inl, inr, lt_cases,
}
use viper_learned_index.FitingTree.Records.{rank, rank-le, lt_rank}
use viper_learned_index.RadixSpline.Sorted.{IsNondecreasing, rank_from}
use viper_learned_index.RadixSpline.Spline.{
  Real, Coord, RadixSpline, xs, get_prefix, get_spline_segment,
}
use viper_learned_index.RadixSpline.Spline.Segment.{length-xs, get_spline_segment_lem}
use viper_learned_index.RadixSpline.Builder.Table.{map_prefix, length-map_prefix}

module _ (R : Real) where
  map_prefix_at :
      (f : ℕ → ℕ) (ps : List (Coord R)) (i : ℕ)
      → i < length ps
      → map_prefix f ps ! i ≡ f (xs ps ! i)
  map_prefix_at f [] i h = absurd (omega arith)
  map_prefix_at f (p ∷ ps) zero h = refl
  map_prefix_at f (p ∷ ps) (suc i) h = map_prefix_at f ps i (omega arith)

  pub div_mono : (k a b : ℕ) → 0 < k → a ≤ b → a / k ≤ b / k
  div_mono k a b pos h =
      let low = div-mul-le_self a k in (le-div_iff_mul-le pos).1 (omega (arith, low))

  -- A spline whose points ascend from `min_key` on, and whose table counts the points with smaller
  -- prefixes.
  pub record IsFinal (s : RadixSpline R) : Type 0 where
    pub sorted : IsNondecreasing (xs s.spline_points)
    pub from_min : (i : ℕ) → i < length s.spline_points → s.min_key ≤ xs s.spline_points ! i
    pub cells :
        (p : ℕ)
        → p < length s.radix_table
        → s.radix_table ! p ≡ rank p (map_prefix (get_prefix s) s.spline_points)

  module _ (s : RadixSpline R) (final : IsFinal s) (key : ℕ) (low : s.min_key ≤ key) where
    prefix_mono : (a b : ℕ) → s.min_key ≤ a → a ≤ b → get_prefix s a ≤ get_prefix s b
    prefix_mono a b h l =
        let pos : 0 < 2 ^ s.num_shift_bits = one-le-pow s.num_shift_bits 2 (omega arith) in
        let below : sub_size a s.min_key ≤ sub_size b s.min_key = ground arith in
        div_mono (2 ^ s.num_shift_bits) (sub_size a s.min_key) (sub_size b s.min_key) pos below

    abbrev prefixes : List ℕ
    prefixes = map_prefix (get_prefix s) s.spline_points

    at : (i : ℕ) → i < length s.spline_points → prefixes ! i ≡ get_prefix s (xs s.spline_points ! i)
    at = map_prefix_at (get_prefix s) s.spline_points

    size : length prefixes ≡ length s.spline_points
    size = length-map_prefix (get_prefix s) s.spline_points

    prefixes-IsNondecreasing : IsNondecreasing prefixes
    prefixes-IsNondecreasing i j h l =
        let inside : j < length s.spline_points = omega (arith, size) in
        let step =
          prefix_mono (xs s.spline_points ! i) (xs s.spline_points ! j)
            (final.from_min i (omega arith))
            (final.sorted i j h (omega (arith, length-xs R s.spline_points))) in
        omega (arith, at i (omega arith), at j inside)

    from_table :
        rank key (xs s.spline_points) < length s.spline_points
        → rank (get_prefix s key) prefixes ≤ rank key (xs s.spline_points)
    from_table ended =
        elim (lt_cases (rank key (xs s.spline_points)) (rank (get_prefix s key) prefixes)) [
          | inr fine ↦ fine
          | inl wrong ↦
              let r = rank key (xs s.spline_points) in
              let small = lt_rank (get_prefix s key) r prefixes wrong in
              let large =
                rank_from key r (xs s.spline_points) final.sorted (omega arith)
                  (omega (arith, length-xs R s.spline_points)) in
              absurd (omega (arith, at r ended, prefix_mono key (xs s.spline_points ! r) low large))
        ]

    upto_table : rank key (xs s.spline_points) ≤ rank (get_prefix s key + 1) prefixes
    upto_table =
        elim (lt_cases (rank (get_prefix s key + 1) prefixes) (rank key (xs s.spline_points))) [
          | inr fine ↦ fine
          | inl wrong ↦
              let r = rank (get_prefix s key + 1) prefixes in
              let inside : r < length s.spline_points =
                omega (arith, rank-le key (xs s.spline_points), length-xs R s.spline_points) in
              let below = lt_rank key r (xs s.spline_points) wrong in
              let large =
                rank_from (get_prefix s key + 1) r prefixes prefixes-IsNondecreasing (omega arith)
                  (omega (arith, size)) in
              absurd (
                omega (
                  arith,
                  at r inside,
                  prefix_mono (xs s.spline_points ! r) key (final.from_min r inside) (omega arith),
                ))
        ]

    -- On a finished spline, for a key from `min_key` on that is not above all points and whose prefix
    -- and the next one have cells in the table, `GetSplineSegment` is defined and returns the index of
    -- the first point that is not below the key.
    pub get_spline_segment-IsFinal :
        get_prefix s key + 1 < length s.radix_table
        → rank key (xs s.spline_points) < length s.spline_points
        → get_spline_segment s key ≡ some (rank key (xs s.spline_points))
    get_spline_segment-IsFinal room ended =
        let q = get_prefix s key in
        get_spline_segment_lem R s key (rank q prefixes) (rank (q + 1) prefixes) (record {
          sorted = final.sorted;
          first =
              get_elem?-eq-get_or s.radix_table q 0 (omega arith)
              ∙ ap some (final.cells q (omega arith));
          last =
              get_elem?-eq-get_or s.radix_table (q + 1) 0 room ∙ ap some (final.cells (q + 1) room);
          low = from_table ended;
          high = upto_table;
          inside = omega (arith, rank-le (q + 1) prefixes, size);
          ended = ended;
        })
