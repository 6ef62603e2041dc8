-- ===== src/RadixSpline/MultiMap.antt =====
-- index/rs/multi_map.h: the lookups of `MultiMap`. An iterator is an index into `data_`.
pub mod Lookup
use viper_learned_index.Common.{
  ℕ, ◌+◌, ◌-◌, Bool, ◌&&◌, not, Option, none, some, List, length, ltb, leb, ◌==◌, if◌then◌else◌,
  get_elem?, get_or, ◌>>=◌,
}
use viper_learned_index.RadixSpline.Sorted
use viper_learned_index.RadixSpline.Spline.{Real, RadixSpline, get_search_bound}

-- The keys and the values of `data_`, cell by cell.
pub record MultiMap (R : Real) : Type 0 where
  pub keys : List ℕ
  pub values : List ℕ
  pub rs : RadixSpline R

module _ {R : Real} where
  unfoldable pub lower_bound : MultiMap R → ℕ → Option ℕ
  lower_bound map key = do
    bound ← get_search_bound map.rs key
    if leb bound.begin bound.end
        then Sorted.lower_bound (bound.end - bound.begin) map.keys bound.begin key
        else none

  unfoldable pub find : MultiMap R → ℕ → Option ℕ
  unfolding lower_bound
  find map key = do
    iter ← lower_bound map key
    if iter == length map.keys then some (length map.keys) else (do
      current ← get_elem? map.keys iter
      some (if current == key then iter else length map.keys))
