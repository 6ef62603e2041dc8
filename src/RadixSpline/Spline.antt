-- ===== src/RadixSpline/Spline.antt =====
-- index/rs/radix_spline.h: the estimate of a key's position and the bound of the search around it.
pub mod Segment
pub mod Bound
use viper_learned_index.Common.{
  ℕ, zero, suc, ◌+◌, ◌-◌, ◌*◌, ◌/◌, ◌%◌, ◌^◌, Bool, Option, none, some, List, ◌∷◌, [], length, ltb,
  leb, if◌then◌else◌, get_elem?, sub_size, word, ◌>>=◌,
}
use viper_learned_index.RadixSpline.Sorted.{lower_bound}

-- `double`, as far as the spline uses it.
pub record Real : Type 1 where
  pub Double : Type 0
  pub of_size : ℕ → Double
  pub fadd : Double → Double → Double
  pub fsub : Double → Double → Double
  pub fdiv : Double → Double → Double
  -- `std::fma`
  pub fma : Double → Double → Double → Double
  pub neg : Double → Double
  pub less : Double → Double → Bool
  -- `std::numeric_limits<double>::epsilon()`
  pub precision : Double
  -- the conversion to `size_t`; undefined out of its range
  pub to_size : Double → Option ℕ

pub record Coord (R : Real) : Type 0 where
  pub x : ℕ
  pub y : R.Double

pub record SearchBound : Type 0 where
  pub begin : ℕ
  pub end : ℕ

pub record RadixSpline (R : Real) : Type 0 where
  pub min_key : ℕ
  pub max_key : ℕ
  pub num_keys : ℕ
  pub num_radix_bits : ℕ
  pub num_shift_bits : ℕ
  pub max_error : ℕ
  pub radix_table : List ℕ
  pub spline_points : List (Coord R)

-- `a - b` on `uint32_t`
abbrev pub sub_uint32 : ℕ → ℕ → ℕ
sub_uint32 a b = if leb b a then a - b else (2 ^ 32 + a) - b

module _ {R : Real} where
  abbrev pub xs : List (Coord R) → List ℕ
  xs [] = []
  xs (p ∷ ps) = p.x ∷ xs ps

  -- `while (spline_points_[current].x < key) ++current;` The fuel bounds the rounds.
  unfoldable pub linear_search : ℕ → List (Coord R) → ℕ → ℕ → Option ℕ
  linear_search zero points key current = none
  linear_search (suc fuel) points key current = do
    point ← get_elem? points current
    let rest = linear_search fuel points key (current + 1) in
        if ltb point.x key then rest else some current

  abbrev pub get_prefix : RadixSpline R → ℕ → ℕ
  get_prefix s key = sub_size key s.min_key / 2 ^ s.num_shift_bits

  -- The cells of a radix table ascend; `std::lower_bound` is undefined where `end` is before `begin`,
  -- and here it then looks at nothing.
  unfoldable pub get_spline_segment : RadixSpline R → ℕ → Option ℕ
  unfolding linear_search lower_bound
  get_spline_segment s key = do
    begin ← get_elem? s.radix_table (get_prefix s key)
    end ← get_elem? s.radix_table (get_prefix s key + 1)
    if ltb (sub_uint32 end begin) 32
        then linear_search (length s.spline_points + 1) s.spline_points key begin
        else lower_bound (end - begin) (xs s.spline_points) begin key

  unfoldable pub get_estimated_position : RadixSpline R → ℕ → Option R.Double
  get_estimated_position s key =
      if leb key s.min_key
      then some (R.of_size 0)
      else if leb s.max_key key
      then some (R.of_size (sub_size s.num_keys 1))
      else (do
        index ← get_spline_segment s key
        down ← get_elem? s.spline_points (sub_size index 1)
        up ← get_elem? s.spline_points index
        let slope = R.fdiv (R.fsub up.y down.y) (R.of_size (sub_size up.x down.x)) in
            some (R.fma (R.of_size (sub_size key down.x)) slope down.y))

  unfoldable pub get_search_bound : RadixSpline R → ℕ → Option SearchBound
  get_search_bound s key = do
    position ← get_estimated_position s key
    estimate ← R.to_size position
    some (record {
      begin = if ltb estimate s.max_error then 0 else estimate - s.max_error;
      end =
          if ltb s.num_keys ((estimate + s.max_error + 2) % word)
          then s.num_keys
          else (estimate + s.max_error + 2) % word;
    })
