-- ===== src/RadixSpline/Builder/Step.antt =====
-- `PossiblyAddKeyToSpline` of a sorted key, on each of its branches.
use viper_learned_index.Common.{
  ℕ, ◌+◌, ◌^◌, ◌≤◌, ◌<◌, ◌≡◌, ◌≢◌, refl, ap, ◌∙◌, true, false, some, Bool, arith, length, ◌==◌,
  ==_iff, ne→==, if◌then◌else◌, Returns, bind-some, inl, inr, lt_cases, Bool-cases, ◌>>=◌,
}
use viper_learned_index.RadixSpline.Spline.{Real, Coord}
use viper_learned_index.RadixSpline.Builder.{
  Builder, back, lower_of, add_key_to_spline, narrow_corridor, possibly_add_key_to_spline,
}
use viper_learned_index.RadixSpline.Builder.Table.{prefix_of, length-snoc}
use viper_learned_index.RadixSpline.Builder.Points.{
  IsAscending, IsAscending-mono, prefix_mono, add_point,
}
use viper_learned_index.RadixSpline.Builder.Ready.{IsPresent, IsReady, IsMoved, back_set}

module _ (R : Real) where
  module _ (b : Builder R) (ready : IsReady R b) (key : ℕ) (position : R.Double)
      (up : b.prev_key ≤ key) (room : prefix_of b key < length b.radix_table)
      (few : b.curr_num_keys < 2 ^ 32) where
    -- The corridor, cut or narrowed: the points still end at or before the key.
    record IsCut (b' : Builder R) : Type 0 where
      pub points : IsAscending R b' key
      pub counted : length b'.spline_points ≤ b.curr_num_keys + 1
      pub filled : 0 < length b'.spline_points
      pub upper : IsPresent R b'.upper_limit
      pub lower : IsPresent R b'.lower_limit
      pub same_keys : b'.curr_num_keys ≡ b.curr_num_keys
      pub same_min : b'.min_key ≡ b.min_key
      pub same_shift : b'.num_shift_bits ≡ b.num_shift_bits
      pub same_size : length b'.radix_table ≡ length b.radix_table

    abbrev still : IsAscending R b key
    still = IsAscending-mono R b b.prev_key key up ready.points

    branches-IsCut :
        (cut : Bool) (above below upper lower : Coord R) (previous : Coord R)
        → 0 < b.curr_num_keys
        → previous.x ≡ b.prev_key
        → Returns
            (if cut
              then (do
                b' ← add_key_to_spline b previous.x previous.y
                some (record b' { upper_limit = some above; lower_limit = some below }))
              else some (record b { upper_limit = some upper; lower_limit = some lower }))
            IsCut
    branches-IsCut true above below upper lower previous some_key at =
        let in_table : prefix_of b previous.x < length b.radix_table =
          omega
            (arith, prefix_mono R b previous.x key (omega (arith, ready.from_min)) (omega arith)) in
        let (b', run, (w, a)) =
          add_point R b b.prev_key previous.x previous.y ready.points (omega arith)
            (omega (arith, ready.from_min)) in_table (omega (arith, ready.counted)) in
        let longer = ap length w.points ∙ length-snoc b.spline_points _ in
        (
          record b' { upper_limit = some above; lower_limit = some below },
          rw run refl,
          record {
            points =
                let moved = IsAscending-mono R b' previous.x key (omega arith) a in
                record {
                  table = moved.table;
                  ascending = moved.ascending;
                  from_min = moved.from_min;
                  upto = moved.upto;
                  reach = moved.reach;
                };
            counted = omega (arith, longer, ready.counted);
            filled = omega (arith, longer);
            upper = (above, refl);
            lower = (below, refl);
            same_keys = w.same_keys;
            same_min = w.same_min;
            same_shift = w.same_shift;
            same_size = w.size;
          },
        )
    branches-IsCut false above below upper lower previous some_key at = (
      record b { upper_limit = some upper; lower_limit = some lower },
      refl,
      record {
        points = record {
          table = still.table;
          ascending = still.ascending;
          from_min = still.from_min;
          upto = still.upto;
          reach = still.reach;
        };
        counted = omega (arith, ready.counted);
        filled = ready.filled some_key;
        upper = (upper, refl);
        lower = (lower, refl);
        same_keys = refl;
        same_min = refl;
        same_shift = refl;
        same_size = refl;
      },
    )

    narrow_corridor_lem :
        (last upper lower previous : Coord R)
        → 0 < b.curr_num_keys
        → previous.x ≡ b.prev_key
        → Returns (narrow_corridor b key position last upper lower previous) IsCut
    unfolding narrow_corridor
    narrow_corridor_lem last upper lower previous some_key at =
        branches-IsCut _ _ _ _ _ previous some_key at

    first_key :
        b.curr_num_keys ≡ 0 → Returns (possibly_add_key_to_spline b key position) (IsMoved R b key)
    unfolding possibly_add_key_to_spline
    first_key none_yet =
        let (b', run, (w, a)) =
          add_point R b b.prev_key key position ready.points up (omega (arith, ready.from_min)) room
            (omega (arith, ready.counted)) in
        let longer = ap length w.points ∙ length-snoc b.spline_points _ in
        let fresh = ready.unseen none_yet in
        let zero_keys : (b.curr_num_keys == 0) ≡ true = ground arith in
        (
          record b' {
            curr_num_distinct_keys = b'.curr_num_distinct_keys + 1;
            prev_point = some (record { x = key; y = position });
          },
          rw (zero_keys, run) refl,
          record {
            points = record {
              table = a.table;
              ascending = a.ascending;
              from_min = a.from_min;
              upto = a.upto;
              reach = a.reach;
            };
            counted = omega (arith, longer, ready.counted);
            filled = omega (arith, longer);
            seen = omega arith;
            previous = (record { x = key; y = position }, refl, refl);
            upper = λ h. absurd (omega (arith, w.same_distinct, fresh, h));
            lower = λ h. absurd (omega (arith, w.same_distinct, fresh, h));
            same_keys = w.same_keys;
            same_min = w.same_min;
            same_shift = w.same_shift;
            same_size = w.size;
          },
        )

    repeated_key :
        0 < b.curr_num_keys
        → key ≡ b.prev_key
        → Returns (possibly_add_key_to_spline b key position) (IsMoved R b key)
    unfolding possibly_add_key_to_spline
    repeated_key some_key same =
        let (p, at, equal) = ready.previous some_key in
        let some_keys : (b.curr_num_keys == 0) ≡ false = ground arith in
        (
          b,
          rw (some_keys, (==_iff key b.prev_key).1 same) refl,
          record {
            points = still;
            counted = omega (arith, ready.counted);
            filled = ready.filled some_key;
            seen = ready.seen some_key;
            previous = (p, at, omega arith);
            upper = ready.upper;
            lower = ready.lower;
            same_keys = refl;
            same_min = refl;
            same_shift = refl;
            same_size = refl;
          },
        )

    second_key :
        0 < b.curr_num_keys
        → key ≢ b.prev_key
        → b.curr_num_distinct_keys ≡ 1
        → Returns (possibly_add_key_to_spline b key position) (IsMoved R b key)
    unfolding possibly_add_key_to_spline
    second_key some_key other one =
        let some_keys : (b.curr_num_keys == 0) ≡ false = ground arith in
        let two : (b.curr_num_distinct_keys + 1 == 2) ≡ true = ground arith in
        (
          record b {
            curr_num_distinct_keys = b.curr_num_distinct_keys + 1;
            upper_limit = some (record { x = key; y = R.fadd position (R.of_size b.max_error) });
            lower_limit = some (record { x = key; y = lower_of b position });
            prev_point = some (record { x = key; y = position });
          },
          rw (some_keys, ne→== key b.prev_key other, two) refl,
          record {
            points = record {
              table = still.table;
              ascending = still.ascending;
              from_min = still.from_min;
              upto = still.upto;
              reach = still.reach;
            };
            counted = omega (arith, ready.counted);
            filled = ready.filled some_key;
            seen = omega arith;
            previous = (record { x = key; y = position }, refl, refl);
            upper = λ h. (_, refl);
            lower = λ h. (_, refl);
            same_keys = refl;
            same_min = refl;
            same_shift = refl;
            same_size = refl;
          },
        )

    later_key :
        0 < b.curr_num_keys
        → key ≢ b.prev_key
        → 1 < b.curr_num_distinct_keys
        → Returns (possibly_add_key_to_spline b key position) (IsMoved R b key)
    unfolding possibly_add_key_to_spline
    later_key some_key other many =
        let some_keys : (b.curr_num_keys == 0) ≡ false = ground arith in
        let more : (b.curr_num_distinct_keys + 1 == 2) ≡ false = ground arith in
        let (last, last_at) = back_set R b.spline_points (ready.filled some_key) in
        let (upper, upper_at) = ready.upper many in
        let (lower, lower_at) = ready.lower many in
        let (previous, previous_at, equal) = ready.previous some_key in
        let (b', run, c) = narrow_corridor_lem last upper lower previous some_key equal in
        (
          record b' {
            curr_num_distinct_keys = b.curr_num_distinct_keys + 1;
            prev_point = some (record { x = key; y = position });
          },
          rw (some_keys, ne→== key b.prev_key other, more)
              (bind-some (back b.spline_points) last _ last_at
                ∙ bind-some b.upper_limit upper _ upper_at
                ∙ bind-some b.lower_limit lower _ lower_at
                ∙ bind-some b.prev_point previous _ previous_at
                ∙ bind-some (narrow_corridor b key position last upper lower previous) b' _ run),
          record {
            points = record {
              table = c.points.table;
              ascending = c.points.ascending;
              from_min = c.points.from_min;
              upto = c.points.upto;
              reach = c.points.reach;
            };
            counted = c.counted;
            filled = c.filled;
            seen = omega arith;
            previous = (record { x = key; y = position }, refl, refl);
            upper = λ h. c.upper;
            lower = λ h. c.lower;
            same_keys = c.same_keys;
            same_min = c.same_min;
            same_shift = c.same_shift;
            same_size = c.same_size;
          },
        )

    pub possibly_add_key_to_spline_lem :
        Returns (possibly_add_key_to_spline b key position) (IsMoved R b key)
    possibly_add_key_to_spline_lem = elim (lt_cases 0 b.curr_num_keys) [
      | inr none_yet ↦ first_key (omega arith)
      | inl some_key ↦ elim (Bool-cases (key == b.prev_key)) [
        | inl same ↦ repeated_key some_key ((==_iff key b.prev_key).0 same)
        | inr other ↦
            let differ : key ≢ b.prev_key = λ e. absurd (ground (arith, other, e)) in
            elim (lt_cases 1 b.curr_num_distinct_keys) [
              | inl many ↦ later_key some_key differ many
              | inr few_seen ↦ second_key some_key differ (omega (arith, ready.seen some_key))
            ]
      ]
    ]
