-- ===== src/RadixSpline/Tests.antt =====
-- Runs of the RadixSpline on four keys, with whole numbers for `double`.
use viper_learned_index.Common.{
  ℕ, zero, suc, ◌+◌, ◌-◌, ◌*◌, ◌/◌, ◌≤◌, ◌<◌, ◌≡◌, ◌≢◌, ◌⊎◌, refl, some, none, List, [], ◌∷◌, arith,
  length, ◌!◌, ltb, Returns,
}
use viper_learned_index.FitingTree.Records.{rank}
use viper_learned_index.RadixSpline.Sorted.{IsNondecreasing}
use viper_learned_index.RadixSpline.Spline.{
  Real, Coord, RadixSpline, xs, get_prefix, get_spline_segment, get_estimated_position,
  get_search_bound, linear_search,
}
use viper_learned_index.RadixSpline.Spline.Bound.{Bounds, get_search_bound_lem}
use viper_learned_index.RadixSpline.MultiMap.{MultiMap, find}
use viper_learned_index.RadixSpline.MultiMap.Lookup.{IsNear, multi_map_find_lem}
use viper_learned_index.RadixSpline.Builder.Ready.{IsReady, Next}
use viper_learned_index.RadixSpline.Builder.Run.{add_key_lem}
use viper_learned_index.RadixSpline.Builder.Finish.{finalize_lem}
use viper_learned_index.RadixSpline.Builder.{add_key, finalize, Builder, finalize_radix_table}
use viper_learned_index.RadixSpline.Builder.Table.{
  HasTable, prefix_of, map_prefix, finalize_radix_table_lem,
}
use viper_learned_index.RadixSpline.Builder.Final.{IsFinal, get_spline_segment-IsFinal}

abbrev whole : Real
whole = record {
  Double = ℕ;
  of_size = λ n. n;
  fadd = λ a b. a + b;
  fsub = λ a b. a - b;
  fdiv = λ a b. a / b;
  fma = λ a b c. a * b + c;
  neg = λ a. a;
  less = λ a b. ltb a b;
  precision = 0;
  to_size = λ a. some a;
}

abbrev points : List (Coord whole)
points = record { x = 10; y = 0 } ∷ record { x = 40; y = 3 } ∷ []

abbrev spline : RadixSpline whole
spline = record {
  min_key = 10;
  max_key = 40;
  num_keys = 4;
  num_radix_bits = 2;
  num_shift_bits = 3;
  max_error = 1;
  radix_table = 0 ∷ 1 ∷ 1 ∷ 1 ∷ 2 ∷ [];
  spline_points = points;
}

cons-IsNondecreasing :
    (x : ℕ) (l : List ℕ) → (0 < length l → x ≤ l ! 0) → IsNondecreasing l → IsNondecreasing (x ∷ l)
cons-IsNondecreasing x l h s zero zero a b = omega arith
cons-IsNondecreasing x l h s zero (suc j) a b =
    omega (arith, h (omega arith), s 0 j (omega arith) (omega arith))
cons-IsNondecreasing x l h s (suc i) zero a b = absurd (omega arith)
cons-IsNondecreasing x l h s (suc i) (suc j) a b = s i j (omega arith) (omega arith)

one-IsNondecreasing : (x : ℕ) → IsNondecreasing (x ∷ [])
one-IsNondecreasing x =
    cons-IsNondecreasing x [] (λ h. absurd (omega (arith, h)))
      (λ i j h l. absurd (omega (arith, l)))

two-IsNondecreasing : (x y : ℕ) → x ≤ y → IsNondecreasing (x ∷ y ∷ [])
two-IsNondecreasing x y h = cons-IsNondecreasing x (y ∷ []) (λ l. h) (one-IsNondecreasing y)

cells :
    (p : ℕ)
    → p < length spline.radix_table
    → spline.radix_table ! p ≡ rank p (map_prefix (get_prefix spline) points)
unfolding rank
cells zero h = refl
cells (suc zero) h = refl
cells (suc (suc zero)) h = refl
cells (suc (suc (suc zero))) h = refl
cells (suc (suc (suc (suc zero)))) h = refl
cells (suc (suc (suc (suc (suc p))))) h = absurd (omega arith)

from_min : (i : ℕ) → i < length points → 10 ≤ xs points ! i
from_min zero h = omega arith
from_min (suc zero) h = omega arith
from_min (suc (suc i)) h = absurd (omega arith)

final : IsFinal whole spline
final = record {
  sorted = two-IsNondecreasing 10 40 (omega arith);
  from_min = from_min;
  cells = cells;
}

get_spline_segment_example : get_spline_segment spline 20 ≡ some 1
unfolding rank
get_spline_segment_example =
    get_spline_segment-IsFinal whole spline final 20 (omega arith) (omega arith) (omega arith)

estimated : get_estimated_position spline 20 ≡ some 0
unfolding get_estimated_position get_spline_segment linear_search
estimated = refl

get_search_bound_example : Returns (get_search_bound spline 20) (Bounds whole spline 0)
get_search_bound_example = get_search_bound_lem whole spline 20 0 0 estimated refl (omega arith)

abbrev keys : List ℕ
keys = 10 ∷ 20 ∷ 20 ∷ 40 ∷ []

abbrev map : MultiMap whole
map = record { keys = keys; values = 1 ∷ 2 ∷ 3 ∷ 4 ∷ []; rs = spline }

near : IsNear whole map 20
unfolding rank
near = record {
  sorted =
      cons-IsNondecreasing 10 (20 ∷ 20 ∷ 40 ∷ []) (λ l. omega arith)
        (cons-IsNondecreasing 20 (20 ∷ 40 ∷ []) (λ l. omega arith)
          (two-IsNondecreasing 20 40 (omega arith)));
  counted = refl;
  estimate = 0;
  position = 0;
  estimated = estimated;
  converts = refl;
  small = omega arith;
  low = omega arith;
  high = omega arith;
}

multi_map_find_example : Returns (find map 20) λ i.
    ((i < length keys) × (keys ! i ≡ 20) × ((k : ℕ) → k < i → keys ! k < 20))
    ⊎ ((i ≡ length keys) × ((k : ℕ) → k < length keys → keys ! k ≢ 20))
multi_map_find_example = multi_map_find_lem whole map 20 near

-- A builder that has seen the first key.
abbrev builder : Builder whole
builder = record {
  min_key = 10;
  max_key = 40;
  num_radix_bits = 2;
  num_shift_bits = 3;
  max_error = 1;
  radix_table = 0 ∷ 0 ∷ 0 ∷ 0 ∷ 0 ∷ [];
  spline_points = record { x = 10; y = 0 } ∷ [];
  curr_num_keys = 1;
  curr_num_distinct_keys = 1;
  prev_key = 10;
  prev_position = 0;
  prev_prefix = 0;
  upper_limit = none;
  lower_limit = none;
  prev_point = some (record { x = 10; y = 0 });
}

builder_table : HasTable builder
unfolding rank
builder_table = record {
  sorted = one-IsNondecreasing 0;
  below = λ i h. let e : i ≡ 0 = omega (arith, h) in rw e (omega arith);
  room = omega arith;
  cells = λ p h. let e : p ≡ 0 = omega (arith, h) in rw e refl;
}

finalize_radix_table_example : Returns (finalize_radix_table builder) λ b.
    (b.spline_points ≡ builder.spline_points)
    × (length b.radix_table ≡ 5)
    × ((p : ℕ)
        → p < 5
        → b.radix_table ! p ≡ rank p (map_prefix (prefix_of builder) builder.spline_points))
    × (b.min_key ≡ 10)
    × (b.num_shift_bits ≡ 3)
    × (b.curr_num_keys ≡ 1)
finalize_radix_table_example = finalize_radix_table_lem builder builder_table (omega arith)

first_point : (i : ℕ) → i < 1 → xs builder.spline_points ! i ≡ 10
first_point i h = let e : i ≡ 0 = omega (arith, h) in rw e refl

ready : IsReady whole builder
ready = record {
  points = record {
    table = builder_table;
    ascending = one-IsNondecreasing 10;
    from_min = λ i h. omega (arith, first_point i h);
    upto = λ i h. omega (arith, first_point i h);
    reach = λ k h u. omega arith;
  };
  from_min = omega arith;
  counted = omega arith;
  filled = λ h. omega arith;
  unseen = λ h. absurd (omega (arith, h));
  seen = λ h. omega arith;
  previous = λ h. (record { x = 10; y = 0 }, refl, refl);
  upper = λ h. absurd (omega (arith, h));
  lower = λ h. absurd (omega (arith, h));
}

add_key_example : Returns (add_key builder 40) (Next whole builder 40)
add_key_example = add_key_lem whole builder 40 ready (omega arith) (omega arith) (omega arith)

finalize_example : Returns (finalize builder) λ s.
    IsFinal whole s
    × (s.num_keys ≡ 1)
    × ((i : ℕ) × (i < length s.spline_points) × (xs s.spline_points ! i ≡ 10))
finalize_example = finalize_lem whole builder ready (omega arith) (omega arith) (omega arith)
