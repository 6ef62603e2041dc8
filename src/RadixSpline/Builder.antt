-- ===== src/RadixSpline/Builder.antt =====
-- index/rs/builder.h: `Builder`, which reads sorted keys once and keeps a corridor around the spline.
-- The assertions are left out, as in a release build.
pub mod Radix
pub mod Table
pub mod Final
pub mod Points
pub mod Ready
pub mod Step
pub mod Run
pub mod Finish
use viper_learned_index.Common.{
  ℕ, zero, suc, ◌+◌, ◌-◌, ◌/◌, ◌%◌, ◌^◌, Bool, true, false, not, ◌&&◌, ◌||◌, Option, none, some,
  List, [], ◌∷◌, ◌++◌, length, ltb, leb, ◌==◌, if◌then◌else◌, get_elem?, set, sub_size, ◌>>=◌,
}
use viper_learned_index.RadixSpline.Spline.{Real, Coord, RadixSpline}

-- The members that the constructor leaves unset start as `none`.
pub record Builder (R : Real) : Type 0 where
  pub min_key : ℕ
  pub max_key : ℕ
  pub num_radix_bits : ℕ
  pub num_shift_bits : ℕ
  pub max_error : ℕ
  pub radix_table : List ℕ
  pub spline_points : List (Coord R)
  pub curr_num_keys : ℕ
  pub curr_num_distinct_keys : ℕ
  pub prev_key : ℕ
  pub prev_position : ℕ
  pub prev_prefix : ℕ
  pub upper_limit : Option (Coord R)
  pub lower_limit : Option (Coord R)
  pub prev_point : Option (Coord R)

-- The number of bits up to the highest one that is set, `64 - __builtin_clzl(n)`, on fuel.
unfoldable pub bit_length : ℕ → ℕ → ℕ
bit_length zero n = 0
bit_length (suc fuel) n = if n == 0 then 0 else suc (bit_length fuel (n / 2))

-- `__builtin_clzl` is undefined at 0.
unfoldable pub get_num_shift_bits : ℕ → ℕ → Option ℕ
unfolding bit_length
get_num_shift_bits diff num_radix_bits =
    if diff == 0
    then none
    else if ltb (bit_length 64 diff) num_radix_bits
    then some 0
    else some (bit_length 64 diff - num_radix_bits)

unfoldable pub zeros : ℕ → List ℕ
zeros zero = []
zeros (suc n) = 0 ∷ zeros n

-- `for (…; ++prefix) radix_table_[prefix] = value;` on the rounds that are left.
unfoldable pub fill : ℕ → List ℕ → ℕ → ℕ → Option (List ℕ)
fill zero table prefix value = some table
fill (suc rounds) table prefix value =
    let rest = fill rounds (set table prefix value) (prefix + 1) value in
    if ltb prefix (length table) then rest else none

pub data Orientation : Type 0 where
  collinear : Orientation
  cw : Orientation
  ccw : Orientation

abbrev pub is_cw : Orientation → Bool
is_cw cw = true
is_cw collinear = false
is_cw ccw = false

abbrev pub is_ccw : Orientation → Bool
is_ccw ccw = true
is_ccw collinear = false
is_ccw cw = false

abbrev pub back : {R : Real} → List (Coord R) → Option (Coord R)
back [] = none
back (p ∷ []) = some p
back (p ∷ q ∷ ps) = back (q ∷ ps)

unfoldable pub compute_orientation :
    (R : Real) → R.Double → R.Double → R.Double → R.Double → Orientation
compute_orientation R dx1 dy1 dx2 dy2 =
    let expr = R.fma dy1 dx2 (R.neg (R.fma dy2 dx1 (R.of_size 0))) in
    if R.less R.precision expr
    then cw
    else if R.less expr (R.neg R.precision)
    then ccw
    else collinear

module _ {R : Real} where
  unfoldable pub new : ℕ → ℕ → ℕ → ℕ → Option (Builder R)
  unfolding get_num_shift_bits zeros
  new min_key max_key num_radix_bits max_error = do
    num_shift_bits ← get_num_shift_bits (sub_size max_key min_key) num_radix_bits
    let max_prefix = (sub_size max_key min_key / 2 ^ num_shift_bits) % 2 ^ 32 in
        some (record {
          min_key = min_key;
          max_key = max_key;
          num_radix_bits = num_radix_bits;
          num_shift_bits = num_shift_bits;
          max_error = max_error;
          radix_table = zeros ((max_prefix + 2) % 2 ^ 32);
          spline_points = [];
          curr_num_keys = 0;
          curr_num_distinct_keys = 0;
          prev_key = min_key;
          prev_position = 0;
          prev_prefix = 0;
          upper_limit = none;
          lower_limit = none;
          prev_point = none;
        })

  unfoldable pub possibly_add_key_to_radix_table : Builder R → ℕ → Option (Builder R)
  unfolding fill
  possibly_add_key_to_radix_table b key =
      let curr_prefix = sub_size key b.min_key / 2 ^ b.num_shift_bits in
      let curr_index = sub_size (length b.spline_points) 1 % 2 ^ 32 in
      if curr_prefix == b.prev_prefix then some b else (do
        table ← fill (curr_prefix - b.prev_prefix) b.radix_table (b.prev_prefix + 1) curr_index
        some (record b { radix_table = table; prev_prefix = curr_prefix }))

  unfoldable pub add_key_to_spline : Builder R → ℕ → R.Double → Option (Builder R)
  unfolding possibly_add_key_to_radix_table
  add_key_to_spline b key position =
      possibly_add_key_to_radix_table
        (record b { spline_points = b.spline_points ++ record { x = key; y = position } ∷ [] }) key

  -- `(position < max_error_) ? 0 : position - max_error_`
  abbrev pub lower_of : Builder R → R.Double → R.Double
  lower_of b position =
      if R.less position (R.of_size b.max_error)
      then R.of_size 0
      else R.fsub position (R.of_size b.max_error)

  -- The corridor of a third or later distinct key, around the last point of the spline.
  unfoldable pub narrow_corridor :
      Builder R → ℕ → R.Double → Coord R → Coord R → Coord R → Coord R → Option (Builder R)
  unfolding compute_orientation add_key_to_spline
  narrow_corridor b key position last upper lower previous =
      let upper_y = R.fadd position (R.of_size b.max_error) in
      let lower_y = lower_of b position in
      let upper_limit_x_diff = R.of_size (sub_size upper.x last.x) in
      let lower_limit_x_diff = R.of_size (sub_size lower.x last.x) in
      let x_diff = R.of_size (sub_size key last.x) in
      let upper_limit_y_diff = R.fsub upper.y last.y in
      let lower_limit_y_diff = R.fsub lower.y last.y in
      let y_diff = R.fsub position last.y in
      let cut =
        not (is_cw (compute_orientation R upper_limit_x_diff upper_limit_y_diff x_diff y_diff))
        || not
            (is_ccw (compute_orientation R lower_limit_x_diff lower_limit_y_diff x_diff y_diff)) in
      let above : Coord R = record { x = key; y = upper_y } in
      let below : Coord R = record { x = key; y = lower_y } in
      let upper' =
        if is_cw (
          compute_orientation R upper_limit_x_diff upper_limit_y_diff x_diff
            (R.fsub upper_y last.y))
        then above
        else upper in
      let lower' =
        if is_ccw (
          compute_orientation R lower_limit_x_diff lower_limit_y_diff x_diff
            (R.fsub lower_y last.y))
        then below
        else lower in
      if cut
      then (do
        b' ← add_key_to_spline b previous.x previous.y
        some (record b' { upper_limit = some above; lower_limit = some below }))
      else some (record b { upper_limit = some upper'; lower_limit = some lower' })

  unfoldable pub possibly_add_key_to_spline : Builder R → ℕ → R.Double → Option (Builder R)
  possibly_add_key_to_spline b key position =
      let point : Coord R = record { x = key; y = position } in
      if b.curr_num_keys == 0
      then (do
        b' ← add_key_to_spline b key position
        some (record b' {
          curr_num_distinct_keys = b'.curr_num_distinct_keys + 1;
          prev_point = some point;
        }))
      else if key == b.prev_key
      then some b
      else if b.curr_num_distinct_keys + 1 == 2
      then some (record b {
        curr_num_distinct_keys = b.curr_num_distinct_keys + 1;
        upper_limit = some (record { x = key; y = R.fadd position (R.of_size b.max_error) });
        lower_limit = some (record { x = key; y = lower_of b position });
        prev_point = some point;
      })
      else (do
        last ← back b.spline_points
        upper ← b.upper_limit
        lower ← b.lower_limit
        previous ← b.prev_point
        b' ← narrow_corridor b key position last upper lower previous
        some (record b' {
          curr_num_distinct_keys = b.curr_num_distinct_keys + 1;
          prev_point = some point;
        }))

  -- `AddKey(key, position)`
  unfoldable pub add_key_at : Builder R → ℕ → ℕ → Option (Builder R)
  unfolding possibly_add_key_to_spline
  add_key_at b key position = do
    b' ← possibly_add_key_to_spline b key (R.of_size position)
    some (record b' {
      curr_num_keys = b'.curr_num_keys + 1;
      prev_key = key;
      prev_position = position;
    })

  -- `AddKey(key)`
  unfoldable pub add_key : Builder R → ℕ → Option (Builder R)
  unfolding add_key_at
  add_key b key =
      if b.curr_num_keys == 0 then add_key_at b key 0 else add_key_at b key (b.prev_position + 1)

  unfoldable pub finalize_radix_table : Builder R → Option (Builder R)
  unfolding fill
  finalize_radix_table b =
      let prefix = b.prev_prefix + 1 in
      (do
        table ←
            fill (length b.radix_table - prefix) b.radix_table prefix
              (length b.spline_points % 2 ^ 32)
        some (record b {
          radix_table = table;
          prev_prefix = if ltb prefix (length b.radix_table) then length b.radix_table else prefix;
        }))

  unfoldable pub finalize : Builder R → Option (RadixSpline R)
  finalize b = do
    b' ←
        (if b.curr_num_keys == 0 then some b else (do
          last ← back b.spline_points
          if last.x == b.prev_key
              then some b
              else add_key_to_spline b b.prev_key (R.of_size b.prev_position)))
    done ← finalize_radix_table b'
    some (record {
      min_key = done.min_key;
      max_key = done.max_key;
      num_keys = done.curr_num_keys;
      num_radix_bits = done.num_radix_bits;
      num_shift_bits = done.num_shift_bits;
      max_error = done.max_error;
      radix_table = done.radix_table;
      spline_points = done.spline_points;
    })
