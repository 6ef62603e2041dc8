-- ===== src/RadixSpline/Builder/Points.antt =====
-- The points of a `Builder`: they ascend, and end at or before a key.
use native.Mathlib.Nat.{one-le-pow}
use viper_learned_index.Common.{
  ℕ, ◌+◌, ◌^◌, ◌≤◌, ◌<◌, ◌≡◌, refl, sym, ap, ◌∙◌, subst, List, [], ◌∷◌, ◌++◌, arith, length, ◌!◌,
  sub_size, ltb, if◌then◌else◌, Returns,
}
use viper_learned_index.RadixSpline.Sorted.{IsNondecreasing}
use viper_learned_index.RadixSpline.Spline.{Real, Coord, xs}
use viper_learned_index.RadixSpline.Spline.Segment.{length-xs}
use viper_learned_index.RadixSpline.Builder.{Builder, add_key_to_spline}
use viper_learned_index.RadixSpline.Builder.Radix.{get_or-snoc}
use viper_learned_index.RadixSpline.Builder.Final.{div_mono}
use viper_learned_index.RadixSpline.Builder.Table.{
  HasTable, Added, prefix_of, length-snoc, add_key_to_spline_lem,
}

module _ (R : Real) where
  xs-snoc : (ps : List (Coord R)) (p : Coord R) → xs (ps ++ p ∷ []) ≡ xs ps ++ p.x ∷ []
  xs-snoc [] p = refl
  xs-snoc (q ∷ ps) p = ap (λ l. q.x ∷ l) (xs-snoc ps p)

  pub snoc_at :
      (ps : List (Coord R)) (p : Coord R) (i : ℕ)
      → i < length ps + 1
      → xs (ps ++ p ∷ []) ! i ≡ (if ltb i (length ps) then xs ps ! i else p.x)
  snoc_at ps p i h =
      ap (λ l. l ! i) (xs-snoc ps p)
      ∙ get_or-snoc (xs ps) p.x i (omega (arith, length-xs R ps))
      ∙ ap (λ n. if ltb i n then xs ps ! i else p.x) (length-xs R ps)

  pub prefix_mono :
      (b : Builder R) (k l : ℕ) → b.min_key ≤ k → k ≤ l → prefix_of b k ≤ prefix_of b l
  prefix_mono b k l h le =
      let below : sub_size k b.min_key ≤ sub_size l b.min_key = ground arith in
      div_mono R (2 ^ b.num_shift_bits) (sub_size k b.min_key) (sub_size l b.min_key)
        (one-le-pow b.num_shift_bits 2 (omega arith)) below

  abbrev pub Upto : List (Coord R) → ℕ → Type 0
  Upto ps last = (i : ℕ) → i < length ps → xs ps ! i ≤ last

  -- The points ascend from `min_key` to at most `last`, and the table counts them.
  pub record IsAscending (b : Builder R) (last : ℕ) : Type 0 where
    pub table : HasTable b
    pub ascending : IsNondecreasing (xs b.spline_points)
    pub from_min : (i : ℕ) → i < length b.spline_points → b.min_key ≤ xs b.spline_points ! i
    pub upto : Upto b.spline_points last
    pub reach : (k : ℕ) → b.min_key ≤ k → Upto b.spline_points k → b.prev_prefix ≤ prefix_of b k

  pub IsAscending-mono :
      (b : Builder R) (last k : ℕ) → last ≤ k → IsAscending b last → IsAscending b k
  IsAscending-mono b last k h a = record {
    table = a.table;
    ascending = a.ascending;
    from_min = a.from_min;
    upto = λ i l. omega (arith, a.upto i l);
    reach = a.reach;
  }

  module _ (ps : List (Coord R)) (p : Coord R) where
    snoc-IsNondecreasing :
        IsNondecreasing (xs ps) → Upto ps p.x → IsNondecreasing (xs (ps ++ p ∷ []))
    snoc-IsNondecreasing s upto i j h l =
        let inside : j < length ps + 1 =
          omega (arith, length-xs R (ps ++ p ∷ []), length-snoc ps p) in
        grind (
          arith,
          snoc_at ps p i (omega arith),
          snoc_at ps p j inside,
          s i j h,
          upto i,
          length-xs R ps,
        )

    snoc_from :
        (min : ℕ)
        → ((i : ℕ) → i < length ps → min ≤ xs ps ! i)
        → min ≤ p.x
        → (i : ℕ) → i < length (ps ++ p ∷ [])
        → min ≤ xs (ps ++ p ∷ []) ! i
    snoc_from min h low i l =
        let inside : i < length ps + 1 = omega (arith, length-snoc ps p) in
        grind (arith, snoc_at ps p i inside, h i)

    snoc-Upto : Upto ps p.x → Upto (ps ++ p ∷ []) p.x
    snoc-Upto upto i l =
        let inside : i < length ps + 1 = omega (arith, length-snoc ps p) in
        grind (arith, snoc_at ps p i inside, upto i)

    snoc_last : (k : ℕ) → Upto (ps ++ p ∷ []) k → p.x ≤ k
    snoc_last k upto = grind (
      arith,
      snoc_at ps p (length ps) (omega arith),
      upto (length ps) (omega (arith, length-snoc ps p)),
    )

  -- A point at a key that is not below the others.
  pub add_point :
      (b : Builder R) (last key : ℕ) (position : R.Double)
      → IsAscending b last
      → last ≤ key
      → b.min_key ≤ key
      → prefix_of b key < length b.radix_table
      → length b.spline_points < 2 ^ 32
      → Returns
          (add_key_to_spline b key position)
          λ b'. Added b key position b' × IsAscending b' key
  add_point b last key position a up low inside few =
      let p : Coord R = record { x = key; y = position } in
      let ps = b.spline_points in
      let upto : Upto ps key = λ i l. omega (arith, a.upto i l) in
      let (b', run, w) =
        add_key_to_spline_lem b key position a.table (a.reach key low upto) inside few in
      (
        b',
        run,
        (
          w,
          record {
            table = w.table;
            ascending =
                subst (λ l. IsNondecreasing (xs l)) (sym w.points)
                  (snoc-IsNondecreasing ps p a.ascending upto);
            from_min =
                subst (λ l. (i : ℕ) → i < length l → b'.min_key ≤ xs l ! i) (sym w.points)
                  (snoc_from ps p b'.min_key (rw w.same_min a.from_min) (rw w.same_min low));
            upto = subst (λ l. Upto l key) (sym w.points) (snoc-Upto ps p upto);
            reach = λ k h all.
                let after : key ≤ k = snoc_last ps p k (subst (λ l. Upto l k) w.points all) in
                rw (w.prefix, w.same_min, w.same_shift) (prefix_mono b key k low after);
          },
        ),
      )
