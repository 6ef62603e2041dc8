-- ===== src/RadixSpline/Builder/Run.antt =====
-- `AddKey` of a `Builder`, on sorted keys.
use viper_learned_index.Common.{ℕ, ◌+◌, ◌^◌, ◌≤◌, ◌<◌, refl, arith, length, ◌==◌, Returns}
use viper_learned_index.RadixSpline.Spline.{Real}
use viper_learned_index.RadixSpline.Builder.{Builder, add_key_at, add_key}
use viper_learned_index.RadixSpline.Builder.Table.{prefix_of}
use viper_learned_index.RadixSpline.Builder.Ready.{IsReady, Next, both}
use viper_learned_index.RadixSpline.Builder.Step.{possibly_add_key_to_spline_lem}

module _ (R : Real) where
  add_key_at_lem :
      (b : Builder R) (key position : ℕ)
      → IsReady R b
      → b.prev_key ≤ key
      → prefix_of b key < length b.radix_table
      → b.curr_num_keys < 2 ^ 32
      → Returns (add_key_at b key position) (Next R b key)
  unfolding add_key_at
  add_key_at_lem b key position ready up room few =
      let (b', run, v) =
        possibly_add_key_to_spline_lem R b ready key (R.of_size position) up room few in
      (
        record b' {
          curr_num_keys = b'.curr_num_keys + 1;
          prev_key = key;
          prev_position = position;
        },
        rw run refl,
        record {
          ready = record {
            points = record {
              table = v.points.table;
              ascending = v.points.ascending;
              from_min = v.points.from_min;
              upto = v.points.upto;
              reach = v.points.reach;
            };
            from_min = omega (arith, v.same_min, ready.from_min);
            counted = omega (arith, v.counted, v.same_keys);
            filled = λ h. v.filled;
            unseen = λ h. absurd (omega (arith, h));
            seen = λ h. v.seen;
            previous = λ h. v.previous;
            upper = v.upper;
            lower = v.lower;
          };
          last = refl;
          count = omega (arith, v.same_keys);
          same_min = v.same_min;
          same_shift = v.same_shift;
          same_size = v.same_size;
        },
      )

  -- On a ready builder with fewer than 2 ^ 32 keys, `AddKey` of a key that is not below the last one
  -- and whose prefix has a cell in the table is defined, counts the key, and leaves the builder ready:
  -- its points ascend from `min_key` to at most the key, and the radix table counts them.
  pub add_key_lem :
      (b : Builder R) (key : ℕ)
      → IsReady R b
      → b.prev_key ≤ key
      → prefix_of b key < length b.radix_table
      → b.curr_num_keys < 2 ^ 32
      → Returns (add_key b key) (Next R b key)
  unfolding add_key
  add_key_lem b key ready up room few =
      both R (b.curr_num_keys == 0) (add_key_at b key 0) (add_key_at b key (b.prev_position + 1))
        (Next R b key) (add_key_at_lem b key 0 ready up room few)
        (add_key_at_lem b key (b.prev_position + 1) ready up room few)
