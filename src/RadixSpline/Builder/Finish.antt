-- ===== src/RadixSpline/Builder/Finish.antt =====
-- `Finalize` of a `Builder` that has seen its keys.
use viper_learned_index.Common.{
  ℕ, suc, ◌+◌, ◌^◌, ◌≤◌, ◌<◌, ◌≡◌, refl, ap, ◌∙◌, false, some, List, [], ◌∷◌, arith, length, ◌!◌,
  ◌==◌, ==_iff, if◌then◌else◌, Returns, bind-some, some_inj, inl, inr, Bool-cases,
}
use viper_learned_index.RadixSpline.Spline.{Real, Coord, RadixSpline, xs}
use viper_learned_index.RadixSpline.Builder.{
  Builder, back, add_key_to_spline, finalize_radix_table, finalize,
}
use viper_learned_index.RadixSpline.Builder.Final.{IsFinal}
use viper_learned_index.RadixSpline.Builder.Table.{prefix_of, length-snoc, finalize_radix_table_lem}
use viper_learned_index.RadixSpline.Builder.Points.{IsAscending, snoc_at, add_point}
use viper_learned_index.RadixSpline.Builder.Ready.{IsReady, back_set}

module _ (R : Real) where
  back_at :
      (ps : List (Coord R)) (p : Coord R)
      → back ps ≡ some p
      → (i : ℕ) × (i < length ps) × (xs ps ! i ≡ p.x)
  back_at [] p e = absurd cc
  back_at (q ∷ []) p e = (0, omega arith, ap (λ (c : Coord R). c.x) (some_inj q p e))
  back_at (q ∷ r ∷ ps) p e = let (i, h, at) = back_at (r ∷ ps) p e in (suc i, omega arith, at)

  -- The builder with the last key on its spline.
  record IsEnded (b b' : Builder R) : Type 0 where
    pub points : IsAscending R b' b.prev_key
    pub counted : length b'.spline_points ≤ b.curr_num_keys + 1
    pub ended : (i : ℕ) × (i < length b'.spline_points) × (xs b'.spline_points ! i ≡ b.prev_key)
    pub same_min : b'.min_key ≡ b.min_key
    pub same_keys : b'.curr_num_keys ≡ b.curr_num_keys

  module _ (b : Builder R) (ready : IsReady R b) (some_key : 0 < b.curr_num_keys)
      (room : prefix_of b b.prev_key < length b.radix_table)
      (few : b.curr_num_keys + 1 < 2 ^ 32) where
    ended_lem :
        (last : Coord R)
        → back b.spline_points ≡ some last
        → Returns
            (if last.x == b.prev_key
              then some b
              else add_key_to_spline b b.prev_key (R.of_size b.prev_position))
            (IsEnded b)
    ended_lem last at = elim (Bool-cases (last.x == b.prev_key)) [
      | inl same ↦
          let (i, h, e) = back_at b.spline_points last at in
          rw same (
            b,
            refl,
            record {
              points = ready.points;
              counted = omega (arith, ready.counted);
              ended = (i, h, e ∙ (==_iff last.x b.prev_key).0 same);
              same_min = refl;
              same_keys = refl;
            },
          )
      | inr other ↦
          let p : Coord R = record { x = b.prev_key; y = R.of_size b.prev_position } in
          let (b', run, (w, a)) =
            add_point R b b.prev_key b.prev_key (R.of_size b.prev_position) ready.points
              (omega arith) ready.from_min room (omega (arith, ready.counted)) in
          let longer = ap length w.points ∙ length-snoc b.spline_points p in
          let n = length b.spline_points in
          let ends : xs b'.spline_points ! n ≡ b.prev_key =
            ap (λ l. xs l ! n) w.points
            ∙ grind (arith, snoc_at R b.spline_points p n (omega arith)) in
          rw other (
            b',
            run,
            record {
              points = a;
              counted = omega (arith, longer, ready.counted);
              ended = (n, omega (arith, longer), ends);
              same_min = w.same_min;
              same_keys = w.same_keys;
            },
          )
    ]

    abbrev made : Builder R → RadixSpline R
    made c = record {
      min_key = c.min_key;
      max_key = c.max_key;
      num_keys = c.curr_num_keys;
      num_radix_bits = c.num_radix_bits;
      num_shift_bits = c.num_shift_bits;
      max_error = c.max_error;
      radix_table = c.radix_table;
      spline_points = c.spline_points;
    }

    -- On a ready builder that has seen a key, with fewer than 2 ^ 32 - 1 keys, and a table with a
    -- cell for the prefix of the last key, `Finalize` is defined. The spline counts the keys, its
    -- points ascend from `min_key` on and include one at the last key, and each cell of its radix
    -- table is the number of points with a smaller prefix.
    pub finalize_lem : Returns (finalize b) λ s.
        IsFinal R s
        × (s.num_keys ≡ b.curr_num_keys)
        × ((i : ℕ) × (i < length s.spline_points) × (xs s.spline_points ! i ≡ b.prev_key))
    unfolding finalize
    finalize_lem =
        let (last, at) = back_set R b.spline_points (ready.filled some_key) in
        let (b', run, e) = ended_lem last at in
        let (c, done, f) = finalize_radix_table_lem b' e.points.table (omega (arith, e.counted)) in
        let seen : (b.curr_num_keys == 0) ≡ false = ground arith in
        let spline = made c in
        (
          spline,
          rw seen (
              bind-some _ b' _ (bind-some (back b.spline_points) last _ at ∙ run)
              ∙ bind-some (finalize_radix_table b') c _ done),
          (
            record {
              sorted = rw f.0 e.points.ascending;
              from_min = rw (f.0, f.3) e.points.from_min;
              cells = λ p h. rw (f.0, f.3, f.4) (f.2 p (omega (arith, f.1, h)));
            },
            omega (arith, f.5, e.same_keys),
            rw f.0 e.ended,
          ),
        )
