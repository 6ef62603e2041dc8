-- ===== src/RadixSpline/Builder/Ready.antt =====
-- What holds of a `Builder` between two keys, and within `AddKey`.
use viper_learned_index.Common.{
  ℕ, ◌+◌, ◌≤◌, ◌<◌, ◌≡◌, refl, true, false, Option, some, List, [], ◌∷◌, Bool, arith, length,
  if◌then◌else◌, Returns,
}
use viper_learned_index.RadixSpline.Spline.{Real, Coord}
use viper_learned_index.RadixSpline.Builder.{Builder, back}
use viper_learned_index.RadixSpline.Builder.Points.{IsAscending}

module _ (R : Real) where
  abbrev pub IsPresent : Option (Coord R) → Type 0
  IsPresent o = (p : Coord R) × (o ≡ some p)

  -- What holds of a builder between two keys.
  pub record IsReady (b : Builder R) : Type 0 where
    pub points : IsAscending R b b.prev_key
    pub from_min : b.min_key ≤ b.prev_key
    pub counted : length b.spline_points ≤ b.curr_num_keys
    pub filled : 0 < b.curr_num_keys → 0 < length b.spline_points
    pub unseen : b.curr_num_keys ≡ 0 → b.curr_num_distinct_keys ≡ 0
    pub seen : 0 < b.curr_num_keys → 0 < b.curr_num_distinct_keys
    -- the last point of the distribution stands at the last key
    pub previous :
        0 < b.curr_num_keys → (p : Coord R) × (b.prev_point ≡ some p) × (p.x ≡ b.prev_key)
    pub upper : 1 < b.curr_num_distinct_keys → IsPresent b.upper_limit
    pub lower : 1 < b.curr_num_distinct_keys → IsPresent b.lower_limit

  pub back_set : (ps : List (Coord R)) → 0 < length ps → IsPresent (back ps)
  back_set [] h = absurd (omega arith)
  back_set (p ∷ []) h = (p, refl)
  back_set (p ∷ q ∷ ps) h = back_set (q ∷ ps) (omega arith)

  pub both :
      (c : Bool) (x y : Option (Builder R)) (P : Builder R → Type 0)
      → Returns x P
      → Returns y P
      → Returns (if c then x else y) P
  both true x y P h k = h
  both false x y P h k = k

  -- What one key changes.
  pub record Next (b : Builder R) (key : ℕ) (b' : Builder R) : Type 0 where
    pub ready : IsReady b'
    pub last : b'.prev_key ≡ key
    pub count : b'.curr_num_keys ≡ b.curr_num_keys + 1
    pub same_min : b'.min_key ≡ b.min_key
    pub same_shift : b'.num_shift_bits ≡ b.num_shift_bits
    pub same_size : length b'.radix_table ≡ length b.radix_table

  -- The builder within `AddKey`, before the counters of the keys move on.
  pub record IsMoved (b : Builder R) (key : ℕ) (b' : Builder R) : Type 0 where
    pub points : IsAscending R b' key
    pub counted : length b'.spline_points ≤ b.curr_num_keys + 1
    pub filled : 0 < length b'.spline_points
    pub seen : 0 < b'.curr_num_distinct_keys
    pub previous : (p : Coord R) × (b'.prev_point ≡ some p) × (p.x ≡ key)
    pub upper : 1 < b'.curr_num_distinct_keys → IsPresent b'.upper_limit
    pub lower : 1 < b'.curr_num_distinct_keys → IsPresent b'.lower_limit
    pub same_keys : b'.curr_num_keys ≡ b.curr_num_keys
    pub same_min : b'.min_key ≡ b.min_key
    pub same_shift : b'.num_shift_bits ≡ b.num_shift_bits
    pub same_size : length b'.radix_table ≡ length b.radix_table
