-- ===== src/RadixSpline/Builder/Table.antt =====
-- The radix table of a `Builder`, as points are added and when it is finalized.
use viper_learned_index.Common.{
  ℕ, suc, ◌+◌, ◌/◌, ◌%◌, ◌^◌, ◌≤◌, ◌<◌, ◌≡◌, refl, sym, ap, ◌∙◌, subst, List, [], ◌∷◌, ◌++◌, arith,
  length, ◌!◌, ltb, sub_size, if◌then◌else◌, ◌==◌, ==_iff, Returns, inl, inr, Bool-cases,
}
use viper_learned_index.FitingTree.Records.{rank}
use viper_learned_index.RadixSpline.Spline.{Real, Coord}
use viper_learned_index.RadixSpline.Builder.{
  Builder, fill, possibly_add_key_to_radix_table, add_key_to_spline, finalize_radix_table,
}
use viper_learned_index.RadixSpline.Builder.Radix.{IsTable, IsTable-snoc, IsTable-same, fill_table}

module _ {R : Real} where
  abbrev pub prefix_of : Builder R → ℕ → ℕ
  prefix_of b key = sub_size key b.min_key / 2 ^ b.num_shift_bits

  abbrev pub map_prefix : (ℕ → ℕ) → List (Coord R) → List ℕ
  map_prefix f [] = []
  map_prefix f (p ∷ ps) = f p.x ∷ map_prefix f ps

  map_prefix-snoc :
      (f : ℕ → ℕ) (ps : List (Coord R)) (p : Coord R)
      → map_prefix f (ps ++ p ∷ []) ≡ map_prefix f ps ++ f p.x ∷ []
  map_prefix-snoc f [] p = refl
  map_prefix-snoc f (q ∷ ps) p = ap (λ l. f q.x ∷ l) (map_prefix-snoc f ps p)

  pub length-map_prefix : (f : ℕ → ℕ) (ps : List (Coord R)) → length (map_prefix f ps) ≡ length ps
  length-map_prefix f [] = refl
  length-map_prefix f (p ∷ ps) = ap suc (length-map_prefix f ps)

  pub length-snoc : (ps : List (Coord R)) (p : Coord R) → length (ps ++ p ∷ []) ≡ length ps + 1
  length-snoc [] p = omega arith
  length-snoc (q ∷ ps) p = omega (arith, length-snoc ps p)

  -- The table of the builder counts the points with a smaller prefix, up to the last prefix.
  abbrev pub HasTable : Builder R → Type 0
  HasTable b = IsTable (map_prefix (prefix_of b) b.spline_points) b.radix_table b.prev_prefix

  -- The builder after a point was added.
  pub record Added (b : Builder R) (key : ℕ) (position : R.Double) (b' : Builder R) : Type 0 where
    pub table : HasTable b'
    pub size : length b'.radix_table ≡ length b.radix_table
    pub points : b'.spline_points ≡ b.spline_points ++ record { x = key; y = position } ∷ []
    pub prefix : b'.prev_prefix ≡ prefix_of b key
    pub same_min : b'.min_key ≡ b.min_key
    pub same_shift : b'.num_shift_bits ≡ b.num_shift_bits
    pub same_keys : b'.curr_num_keys ≡ b.curr_num_keys
    pub same_distinct : b'.curr_num_distinct_keys ≡ b.curr_num_distinct_keys

  -- With a table that is right so far, `AddKeyToSpline` of a key whose prefix is not below the last
  -- one and inside the table is defined, appends the point, and keeps the table right up to the new
  -- prefix, for fewer than 2 ^ 32 points.
  pub add_key_to_spline_lem :
      (b : Builder R) (key : ℕ) (position : R.Double)
      → HasTable b
      → b.prev_prefix ≤ prefix_of b key
      → prefix_of b key < length b.radix_table
      → length b.spline_points < 2 ^ 32
      → Returns (add_key_to_spline b key position) (Added b key position)
  unfolding add_key_to_spline possibly_add_key_to_radix_table fill
  add_key_to_spline_lem b key position ok up inside few =
      let f = prefix_of b in
      let p : Coord R = record { x = key; y = position } in
      let points = b.spline_points ++ p ∷ [] in
      let snoc = map_prefix-snoc f b.spline_points p in
      elim (Bool-cases (f key == b.prev_prefix)) [
        | inl same ↦
            let e : f key ≡ b.prev_prefix = (==_iff (f key) b.prev_prefix).0 same in
            (
              record b { spline_points = points },
              rw same refl,
              record {
                table =
                    subst (λ l. IsTable l b.radix_table b.prev_prefix)
                      (sym (snoc ∙ ap (λ c. map_prefix f b.spline_points ++ c ∷ []) e))
                      (IsTable-same (map_prefix f b.spline_points) b.radix_table b.prev_prefix ok);
                size = refl;
                points = refl;
                prefix = sym e;
                same_min = refl;
                same_shift = refl;
                same_keys = refl;
                same_distinct = refl;
              },
            )
        | inr other ↦
            let (t, run, (size, table)) =
              IsTable-snoc (map_prefix f b.spline_points) b.radix_table b.prev_prefix (f key) ok up
                inside in
            let index : sub_size (length points) 1 % 2 ^ 32
                ≡ length (map_prefix f b.spline_points) =
              last_index b.spline_points p few in
            (
              record b { spline_points = points; radix_table = t; prev_prefix = f key },
              rw (other, index, run) refl,
              record {
                table = subst (λ l. IsTable l t (f key)) (sym snoc) table;
                size = size;
                points = refl;
                prefix = refl;
                same_min = refl;
                same_shift = refl;
                same_keys = refl;
                same_distinct = refl;
              },
            )
      ]
    where
      last_index :
          (ps : List (Coord R)) (p : Coord R)
          → length ps < 2 ^ 32
          → sub_size (length (ps ++ p ∷ [])) 1 % 2 ^ 32 ≡ length (map_prefix (prefix_of b) ps)
      last_index ps p few =
          let e : sub_size (length (ps ++ p ∷ [])) 1 ≡ length ps =
            ground (arith, length-snoc ps p) in
          rw e (omega (arith, length-map_prefix (prefix_of b) ps))

  -- With a table that is right so far, for fewer than 2 ^ 32 points, `FinalizeRadixTable` is defined,
  -- keeps the points, and each cell of the table is the number of points with a smaller prefix.
  pub finalize_radix_table_lem :
      (b : Builder R)
      → HasTable b
      → length b.spline_points < 2 ^ 32
      → Returns (finalize_radix_table b) λ b'.
        (b'.spline_points ≡ b.spline_points)
        × (length b'.radix_table ≡ length b.radix_table)
        × ((p : ℕ)
            → p < length b.radix_table
            → b'.radix_table ! p ≡ rank p (map_prefix (prefix_of b) b.spline_points))
        × (b'.min_key ≡ b.min_key)
        × (b'.num_shift_bits ≡ b.num_shift_bits)
        × (b'.curr_num_keys ≡ b.curr_num_keys)
  unfolding finalize_radix_table
  finalize_radix_table_lem b ok few =
      let (t, run, (size, cells)) =
        fill_table (map_prefix (prefix_of b) b.spline_points) b.radix_table b.prev_prefix ok in
      let number : length b.spline_points % 2 ^ 32
          ≡ length (map_prefix (prefix_of b) b.spline_points) =
        omega (arith, length-map_prefix (prefix_of b) b.spline_points) in
      (
        record b {
          radix_table = t;
          prev_prefix =
              if ltb (b.prev_prefix + 1) (length b.radix_table)
              then length b.radix_table
              else b.prev_prefix + 1;
        },
        rw (number, run) refl,
        (refl, size, cells, refl, refl, refl),
      )
