-- ===== src/RadixSpline/Spline/Bound.antt =====
-- `GetSearchBound`: the range around the estimate holds every position that the error allows.
use viper_learned_index.Common.{
  ℕ, ◌+◌, ◌-◌, ◌≤◌, ◌<◌, ◌≡◌, ◌%◌, refl, some, arith, ltb, word, if◌then◌else◌, Returns,
}
use viper_learned_index.RadixSpline.Spline.{
  Real, RadixSpline, SearchBound, get_estimated_position, get_search_bound,
}

module _ (R : Real) where
  -- The bound lies within the data, and holds the positions within the error of the estimate.
  pub record Bounds (s : RadixSpline R) (estimate : ℕ) (b : SearchBound) : Type 0 where
    pub inside : b.end ≤ s.num_keys
    pub holds :
        (p : ℕ)
        → p ≤ s.num_keys
        → estimate ≤ p + s.max_error
        → p ≤ estimate + s.max_error + 1
        → (b.begin ≤ p) × (p ≤ b.end)
    pub excludes_end : (p : ℕ) → p < s.num_keys → p ≤ estimate + s.max_error + 1 → p < b.end

  -- If the estimate converts to `size_t`, and the sum with the error does not wrap, then
  -- `GetSearchBound` is defined, stays within the data, and holds each position that differs from the
  -- estimate by at most the error, and by one more on the right.
  pub get_search_bound_lem :
      (s : RadixSpline R) (key estimate : ℕ) (y : R.Double)
      → get_estimated_position s key ≡ some y
      → R.to_size y ≡ some estimate
      → estimate + s.max_error + 2 < word
      → Returns (get_search_bound s key) (Bounds s estimate)
  unfolding get_search_bound
  get_search_bound_lem s key estimate y found converts small =
      let e : (estimate + s.max_error + 2) % word ≡ estimate + s.max_error + 2 = omega arith in
      (
        record {
          begin = if ltb estimate s.max_error then 0 else estimate - s.max_error;
          end =
              if ltb s.num_keys (estimate + s.max_error + 2)
              then s.num_keys
              else estimate + s.max_error + 2;
        },
        rw (found, converts, e) refl,
        record {
          inside = ground arith;
          holds = λ p h low high. (ground arith, ground arith);
          excludes_end = λ p h high. ground arith;
        },
      )
