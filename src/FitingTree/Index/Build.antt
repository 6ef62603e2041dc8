-- ===== src/FitingTree/Index/Build.antt =====
-- The leaves that are built from an array: in order, and together they stand for the array.
use viper_learned_index.Common.{
  ℕ, ◌+◌, ◌≤◌, ◌<◌, ◌≡◌, refl, sym, ◌∙◌, not, ◌&&◌, Option, none, some, List, [], ◌∷◌, arith,
  length, ◌!◌, ltb, le→ltb, inl, inr, lt_cases, or_else, if◌then◌else◌, take, drop, length-take,
  length-drop, get_or-take, get_or-drop, drop-drop, Returns,
}
use viper_learned_index.FitingTree.Float.{Float, IsMonotone}
use viper_learned_index.FitingTree.Records.{
  IsSorted, lookup, lookup_inv, lookup-eq-none, lookup-take-drop,
}
use viper_learned_index.FitingTree.Segment.{Segment, Covers, Tiles}
use viper_learned_index.FitingTree.Node.{NodeOps, NodeLaws}
use viper_learned_index.FitingTree.Entries.{Above}
use viper_learned_index.FitingTree.Index.{build_nodes}
use viper_learned_index.FitingTree.Index.Tidy.{
  Within, Tidy, seen, seen-append, seen-eq-none, seen_one, Within-mono, Tidy-IsOrdered,
}

-- `j` is a key of the array from `start` on.
abbrev pub IsKey : List ℕ → ℕ → ℕ → Type 0
IsKey keys start j = (i : ℕ) × (start ≤ i) × (i < length keys) × (keys ! i ≡ j)

module _ (keys payloads : List ℕ) (sorted : IsSorted keys) where
  -- The records from `start` on.
  abbrev pub from : ℕ → ℕ → Option ℕ
  from start j = lookup j (drop start keys) (drop start payloads)

  abbrev pub within : ℕ → ℕ → ℕ → Option ℕ
  within start number j =
      lookup j (take number (drop start keys)) (take number (drop start payloads))

  from-within :
      (start number j : ℕ)
      → from start j ≡ or_else (within start number j) (from (start + number) j)
  from-within start number j =
      rw (← drop-drop number start keys, ← drop-drop number start payloads)
        (lookup-take-drop number j (drop start keys) (drop start payloads))

  within_key :
      (start number i : ℕ) → i < number → take number (drop start keys) ! i ≡ keys ! (start + i)
  within_key start number i h =
      get_or-take number i 0 (drop start keys) h ∙ get_or-drop start i 0 keys

  within_inv :
      (start number j v : ℕ)
      → start + number ≤ length keys
      → within start number j ≡ some v
      → (i : ℕ) × (start ≤ i) × (i < start + number) × (keys ! i ≡ j)
  within_inv start number j v h e =
      let (i, l, at) = lookup_inv j v _ _ e in
      let l' : i < number =
        omega (arith, length-take number (drop start keys), length-drop start keys) in
      (start + i, omega arith, omega arith, sym (within_key start number i l') ∙ at)

  -- Nothing stands in a run of records above its keys.
  within-eq-none :
      (start number j : ℕ)
      → start + number < length keys
      → keys ! (start + number) ≤ j
      → within start number j ≡ none
  within-eq-none start number j h le = lookup-eq-none j _ _ (λ i l e.
      let l' : i < number =
        omega (arith, length-take number (drop start keys), length-drop start keys) in
      omega (arith, within_key start number i l', sorted (start + i) (start + number)))

  from-eq-none : (start j : ℕ) → (start < length keys → j < keys ! start) → from start j ≡ none
  from-eq-none start j h = lookup-eq-none j _ _ (λ i l e.
      let inside : start < length keys = omega (arith, length-drop start keys) in
      let room : start + i < length keys = omega (arith, length-drop start keys) in
      grind (arith, get_or-drop start i 0 keys, h inside, sorted start (start + i)))

module _ (F : Float) (m : IsMonotone F) (ops : NodeOps F) (laws : NodeLaws F m ops) where
  open ops use {Node}
  open laws use {IsValid, view, first, load}

  module _ (keys payloads : List ℕ) (sorted : IsSorted keys)
      (full : length keys ≡ length payloads) where
    -- Leaves that stand for the records from `start` on.
    pub record Built (start : ℕ) (es : List (ℕ × Node)) : Type 0 where
      pub tidy : Tidy F m ops laws es
      pub stored : Within F m ops laws (IsKey keys start) es
      pub reads :
          (j : ℕ)
          → seen F m ops laws es j ≡ (
              if ltb start (length keys) && not (ltb j (keys ! start))
              then some (from keys payloads sorted start j)
              else none)

    Built-nil : (start : ℕ) → start ≡ length keys → Built start []
    Built-nil start e = record {
      tidy = tt;
      stored = tt;
      reads = λ j. rw (seen-eq-none F m ops laws j [] tt, le→ltb start (length keys) (omega arith));
    }

    -- The keys behind a segment are above those of the segment.
    IsKey-Above :
        (start end j : ℕ) (es : List (ℕ × Node))
        → start ≤ end
        → (i : ℕ) × (start ≤ i) × (i < end) × (keys ! i ≡ j)
        → Within F m ops laws (IsKey keys end) es
        → Above j es
    IsKey-Above start end j [] h k w = tt
    IsKey-Above start end j ((f, n) ∷ es) h k w =
        let (i, low, high, at) = k in
        let (l, from_end, inside, key) = w.0 in
        let below : keys ! i < keys ! l = sorted i l (omega arith) inside in
        (omega arith, IsKey-Above start end j es h k w.2)

    least_key :
        (start : ℕ) (s : Segment F) (j : ℕ)
        → Covers F m keys start s
        → (i : ℕ) × (start ≤ i) × (i < start + s.number) × (keys ! i ≡ j)
        → s.first_key ≤ j
    least_key start s j c (i, low, high, at) = grind (arith, c.first, c.inside, sorted start i)

    IsKey-inside :
        (start : ℕ) (s : Segment F) (j : ℕ)
        → Covers F m keys start s
        → (i : ℕ) × (start ≤ i) × (i < start + s.number) × (keys ! i ≡ j)
        → IsKey keys start j
    IsKey-inside start s j c (i, low, high, at) = (i, low, omega (arith, c.inside), at)

    -- The first segment and the leaves behind it answer as the array does.
    reads_cons :
        (start : ℕ) (s : Segment F) (j : ℕ)
        → Covers F m keys start s
        → or_else
            (if ltb (start + s.number) (length keys) && not (ltb j (keys ! (start + s.number)))
              then some (from keys payloads sorted (start + s.number) j)
              else none)
            (if ltb j s.first_key
              then none
              else some (within keys payloads sorted start s.number j))
          ≡ (if ltb start (length keys) && not (ltb j (keys ! start))
              then some (from keys payloads sorted start j)
              else none)
    reads_cons start s j c =
        let end = start + s.number in
        let first_inside : start < length keys = omega (arith, c.filled, c.inside) in
        elim (lt_cases end (length keys)) [
          | inl more ↦
              let up = sorted start end (omega (arith, c.filled)) more in
              elim (lt_cases j (keys ! end)) [
                | inl before ↦ ground (
                  arith,
                  c.first,
                  from-within keys payloads sorted start s.number j,
                  from-eq-none keys payloads sorted end j (λ h. before),
                )
                | inr behind ↦ ground (
                  arith,
                  c.first,
                  from-within keys payloads sorted start s.number j,
                  within-eq-none keys payloads sorted start s.number j more behind,
                )
              ]
          | inr last ↦ ground (
            arith,
            c.first,
            from-within keys payloads sorted start s.number j,
            from-eq-none keys payloads sorted end j (λ h. absurd (omega arith)),
          )
        ]

    Built-cons :
        (start : ℕ) (s : Segment F) (n : Node) (es : List (ℕ × Node))
        → Covers F m keys start s
        → IsValid n
        → load n < ops.split_bound
        → first n ≡ keys ! start
        → ((j : ℕ) → view n j ≡ within keys payloads sorted start s.number j)
        → Built (start + s.number) es
        → Built start ((s.first_key, n) ∷ es)
    Built-cons start s n es c v r f g b =
        let contents = λ (j x : ℕ) (e : view n j ≡ some x).
          within_inv keys payloads sorted start s.number j x c.inside (sym (g j) ∙ e) in
        let first_inside : start < length keys = omega (arith, c.filled, c.inside) in
        let end = start + s.number in
        let above = λ (j : ℕ) (k : (i : ℕ) × (start ≤ i) × (i < end) × (keys ! i ≡ j)).
          IsKey-Above start end j es (omega arith) k b.stored in
        let tidy : Tidy F m ops laws ((s.first_key, n) ∷ es) = (
          record { valid = v; room = r; starts = f ∙ sym c.first },
          λ j x e. (least_key start s j c (contents j x e), above j (contents j x e)),
          above s.first_key (start, omega arith, omega (arith, c.filled), sym c.first),
          b.tidy,
        ) in
        record {
          tidy = tidy;
          stored = (
            (start, omega arith, first_inside, sym c.first),
            λ j x e. IsKey-inside start s j c (contents j x e),
            Within-mono F m ops laws (IsKey keys end) (IsKey keys start) es
                (λ j k. (k.0, omega (arith, k.1), k.2, k.3)) b.stored,
          );
          reads = λ j.
              rw
                (
                  seen-append F m ops laws j ((s.first_key, n) ∷ []) es
                      (Tidy-IsOrdered F m ops laws ((s.first_key, n) ∷ es) tidy),
                  b.reads j,
                  seen_one F m ops laws j s.first_key n,
                  g j,
                )
                (reads_cons start s j c);
        }

    -- The leaves that are built from the segments of an array are in order and stand for it.
    pub build_nodes-Built :
        (ss : List (Segment F)) (start : ℕ)
        → Tiles F m keys start ss
        → Returns (build_nodes ops ss keys payloads start) (Built start)
    unfolding build_nodes
    build_nodes-Built [] start t = ([], refl, Built-nil start t)
    build_nodes-Built (s ∷ ss) start t =
        let (n, made, v) = laws.make_law s keys payloads start sorted full t.0 in
        let (es, built, b) = build_nodes-Built ss (start + s.number) t.1 in
        ((s.first_key, n) ∷ es, rw (made, built), Built-cons start s n es t.0 v.0 v.1 v.2 v.3 b)
