-- ===== src/FitingTree/Index/Walk.antt =====
-- The loops over the leaves in `range_query` of an index.
use viper_learned_index.Common.{
  ℕ, ◌≤◌, ◌<◌, ◌≡◌, refl, sym, ◌∙◌, Bool, true, false, none, some, List, [], ◌∷◌, ◌++◌, append-nil,
  append_assoc, arith, length, ◌!◌, if◌then◌else◌, get_or, Option-cases, ◌⊎◌, inl, inr, Bool-cases,
}
use viper_learned_index.FitingTree.Float.{Float, IsMonotone}
use viper_learned_index.FitingTree.Records.{lookup, lookup_hit}
use viper_learned_index.FitingTree.Scan.Count.{times, copies, times-append}
use viper_learned_index.FitingTree.Scan.Range.{
  in_bounds, between, answer, answer-append, between-eq-nil,
}
use viper_learned_index.FitingTree.Buffer.{Buffer}
use viper_learned_index.FitingTree.Buffer.Point as BufferPoint
use viper_learned_index.FitingTree.Buffer.Range as BufferRange
use viper_learned_index.FitingTree.Node.{NodeOps, NodeLaws}
use viper_learned_index.FitingTree.Entries.{Above}
use viper_learned_index.FitingTree.Entries.Laws.{Below}
use viper_learned_index.FitingTree.Index.{behind, walk, walk_on}
use viper_learned_index.FitingTree.Index.Tidy.{
  Tidy, Tidy-IsOrdered, Within, seen, seen_one, seen-append, seen-eq-none,
}
use viper_learned_index.FitingTree.Index.View.{joined}

module _ (F : Float) (m : IsMonotone F) (ops : NodeOps F) (laws : NodeLaws F m ops) where
  open ops use {Node}

  -- The answers of a run of leaves.
  unfoldable pub all_hits : ℕ → ℕ → List (ℕ × Node) → List (ℕ × ℕ)
  all_hits lower upper [] = []
  all_hits lower upper ((f, n) ∷ es) = laws.hits lower upper n ++ all_hits lower upper es

  -- They are the records that the leaves hold, within the bounds.
  pub answer-all_hits :
      (lower upper j : ℕ) (es : List (ℕ × Node))
      → Tidy F m ops laws es
      → answer j (all_hits lower upper es)
        ≡ (if in_bounds lower upper j then joined (seen F m ops laws es j) else none)
  unfolding all_hits answer
  answer-all_hits lower upper j [] t = rw (seen-eq-none F m ops laws j [] tt) (ground arith)
  answer-all_hits lower upper j ((f, n) ∷ es) t =
      rw
        (
          answer-append j (laws.hits lower upper n) (all_hits lower upper es),
          laws.hits_law lower upper n j t.0.valid,
          answer-all_hits lower upper j es t.3,
          seen-append F m ops laws j ((f, n) ∷ []) es (Tidy-IsOrdered F m ops laws ((f, n) ∷ es) t),
          seen_one F m ops laws j f n,
        )
        (elim (Option-cases (laws.view n j)) [
          | inl away ↦ elim (Option-cases (seen F m ops laws es j)) [
            | inl none_seen ↦ ground (arith, away, none_seen)
            | inr (o, some_seen) ↦ ground (arith, away, some_seen)
          ]
          | inr (v, at) ↦
              let (low, above) = t.1 j v at in
              ground (arith, at, seen-eq-none F m ops laws j es above)
        ])

  -- Each of them once.
  pub times-all_hits :
      (lower upper j : ℕ) (es : List (ℕ × Node))
      → Tidy F m ops laws es
      → times j (all_hits lower upper es)
        ≡ copies (if in_bounds lower upper j then joined (seen F m ops laws es j) else none)
  unfolding all_hits times copies
  times-all_hits lower upper j [] t = rw (seen-eq-none F m ops laws j [] tt) (ground arith)
  times-all_hits lower upper j ((f, n) ∷ es) t =
      rw
        (
          times-append j (laws.hits lower upper n) (all_hits lower upper es),
          laws.times_law lower upper n j t.0.valid,
          times-all_hits lower upper j es t.3,
          seen-append F m ops laws j ((f, n) ∷ []) es (Tidy-IsOrdered F m ops laws ((f, n) ∷ es) t),
          seen_one F m ops laws j f n,
        )
        (elim (Option-cases (laws.view n j)) [
          | inl away ↦ elim (Option-cases (seen F m ops laws es j)) [
            | inl none_seen ↦ ground (arith, away, none_seen)
            | inr (o, some_seen) ↦ ground (arith, away, some_seen)
          ]
          | inr (v, at) ↦
              let (low, above) = t.1 j v at in
              ground (arith, at, seen-eq-none F m ops laws j es above)
        ])

  -- Leaves with nothing within the bounds add nothing.
  pub all_hits-eq-nil :
      (lower upper : ℕ) (es : List (ℕ × Node))
      → Tidy F m ops laws es
      → Within F m ops laws (λ j. in_bounds lower upper j ≡ false) es
      → all_hits lower upper es ≡ []
  unfolding all_hits
  all_hits-eq-nil lower upper [] t w = refl
  all_hits-eq-nil lower upper ((f, n) ∷ es) t w =
      rw (laws.hits-eq-nil lower upper n t.0.valid w.1, all_hits-eq-nil lower upper es t.3 w.2) refl

  pub all_hits-append :
      (lower upper : ℕ) (a b : List (ℕ × Node))
      → all_hits lower upper (a ++ b) ≡ all_hits lower upper a ++ all_hits lower upper b
  unfolding all_hits
  all_hits-append lower upper [] b = refl
  all_hits-append lower upper ((f, n) ∷ a) b = rw (all_hits-append lower upper a b) (
      sym
        (append_assoc (laws.hits lower upper n) (all_hits lower upper a) (all_hits lower upper b)))

  -- Behind a key above the bound, nothing is within the bounds.
  Above-Within :
      (lower upper j : ℕ) (es : List (ℕ × Node))
      → Tidy F m ops laws es
      → upper < j
      → Above j es
      → Within F m ops laws (λ i. in_bounds lower upper i ≡ false) es
  Above-Within lower upper j [] t h a = tt
  Above-Within lower upper j ((f, n) ∷ es) t h a = (
    ground arith,
    λ i v at. let low = (t.1 i v at).0 in ground arith,
    Above-Within lower upper j es t.3 h a.1,
  )

  -- Leaves that start above `j` hold keys above `j`.
  pub Within-later :
      (j last : ℕ) (es : List (ℕ × Node))
      → Tidy F m ops laws es
      → Above j es
      → Within F m ops laws (λ i. i ≤ last) es
      → Within F m ops laws (λ i. (j ≤ i) × (i ≤ last)) es
  Within-later j last [] t a w = tt
  Within-later j last ((f, n) ∷ es) t a w = (
    (omega arith, w.0),
    λ i v at. let low = (t.1 i v at).0 in (omega arith, w.1 i v at),
    Within-later j last es t.3 a.1 w.2,
  )

  pub seen_kept :
      (P : ℕ → Type 0) (j v : ℕ) (es : List (ℕ × Node))
      → Tidy F m ops laws es
      → Within F m ops laws P es
      → seen F m ops laws es j ≡ some (some v)
      → P j
  seen_kept P j v [] t w e = absurd (ground (arith, seen-eq-none F m ops laws j [] tt))
  seen_kept P j v ((f, n) ∷ es) t w e =
      let split =
        seen-append F m ops laws j ((f, n) ∷ []) es (Tidy-IsOrdered F m ops laws ((f, n) ∷ es) t) in
      let one = seen_one F m ops laws j f n in
      elim (Option-cases (seen F m ops laws es j)) [
        | inl away ↦ w.1 j v (ground (arith, split, one, away))
        | inr (o, at) ↦ seen_kept P j v es t.3 w.2 (ground (arith, split, at))
      ]

  pub behind-middle :
      (f : ℕ) (n : Node) (a b : List (ℕ × Node)) → Below f a → behind ops f (a ++ (f, n) ∷ b) ≡ b
  unfolding behind
  behind-middle f n [] b h = ground arith
  behind-middle f n ((g, k) ∷ a) b h = ground (arith, behind-middle f n a b h.1)

  module _ (right : Buffer) (right_valid : BufferPoint.IsValid right) (lower upper last : ℕ)
      (right_above : (j v : ℕ) → lookup j right.keys right.payloads ≡ some v → last < j) where
    pub right_nil :
        (j : ℕ) → j ≤ last → upper < j → between lower upper right.keys right.payloads ≡ []
    right_nil j h above = between-eq-nil lower upper right.keys right.payloads (λ i inside.
        let full : length right.keys ≡ length right.payloads =
          right_valid.keys_full ∙ sym right_valid.payloads_full in
        let far = right_above (right.keys ! i) (get_or right.payloads i 0) (
          lookup_hit i (right.keys ! i) right.keys right.payloads right_valid.sorted inside full
            refl) in
        ground arith)

    -- What the leaves `es` and the right buffer have to add.
    abbrev pub rest : List (ℕ × Node) → List (ℕ × ℕ)
    rest es = all_hits lower upper es ++ between lower upper right.keys right.payloads

    -- A leaf that ends the scan leaves nothing to add.
    pub quiet :
        (n : Node) (es : List (ℕ × Node)) (end : Bool)
        → Tidy F m ops laws es
        → ((j v : ℕ) → laws.view n j ≡ some v → Above j es × (j ≤ last))
        → (end ≡ true) ⊎ ((j : ℕ) × (v : ℕ) × (laws.view n j ≡ some v) × (upper < j))
        → end ≡ false
        → rest es ≡ []
    quiet n es end t below (inl e) h = absurd cc
    quiet n es end t below (inr (j, v, at, above)) h =
        let (before, kept) = below j v at in
        rw
          (
            all_hits-eq-nil lower upper es t (Above-Within lower upper j es t above before),
            right_nil j kept above,
          )
          refl

    -- The loop over the leaves: from the front of each, up to the first key above the bound.
    walk_lem :
        (e : ℕ × Node) (es : List (ℕ × Node)) (answers : List (ℕ × ℕ))
        → Tidy F m ops laws (e ∷ es)
        → Within F m ops laws (λ j. (lower ≤ j) × (j ≤ last)) (e ∷ es)
        → walk ops right lower upper (e ∷ es) answers ≡ some (answers ++ rest (e ∷ es))
    unfolding walk all_hits
    walk_lem (f, n) [] answers t w =
        let (r, run, (found, stops)) =
          laws.range_law n true lower upper answers t.0.valid (λ x. absurd cc)
            (λ x j v at. (w.1 j v at).0) in
        let hits = laws.hits lower upper n in
        elim (Bool-cases r.1) [
          | inl on ↦
              rw
                (
                  run,
                  on,
                  found,
                  BufferRange.buffer_range_query_lem right lower upper (answers ++ hits)
                      right_valid,
                  append_assoc answers hits (between lower upper right.keys right.payloads),
                  append-nil hits,
                )
                refl
          | inr off ↦
              let nothing = quiet n [] r.1 tt (λ j v at. (tt, (w.1 j v at).1)) stops off in
              rw (run, off, found, append_assoc hits [] _, nothing, append-nil hits) refl
        ]
    walk_lem (f, n) ((g, k) ∷ es) answers t w =
        let (r, run, (found, stops)) =
          laws.range_law n true lower upper answers t.0.valid (λ x. absurd cc)
            (λ x j v at. (w.1 j v at).0) in
        let hits = laws.hits lower upper n in
        elim (Bool-cases r.1) [
          | inl on ↦
              rw
                (
                  run,
                  on,
                  found,
                  walk_lem (g, k) es (answers ++ hits) t.3 w.2,
                  append_assoc answers hits (rest ((g, k) ∷ es)),
                  append_assoc hits (all_hits lower upper ((g, k) ∷ es)) _,
                )
                refl
          | inr off ↦
              let nothing =
                quiet n ((g, k) ∷ es) r.1 t.3 (λ j v at. ((t.1 j v at).1, (w.1 j v at).1)) stops
                  off in
              rw
                (
                  run,
                  off,
                  found,
                  append_assoc hits (all_hits lower upper ((g, k) ∷ es)) _,
                  nothing,
                  append-nil hits,
                )
                refl
        ]

    pub walk_on_lem :
        (es : List (ℕ × Node)) (answers : List (ℕ × ℕ))
        → Tidy F m ops laws es
        → Within F m ops laws (λ j. (lower ≤ j) × (j ≤ last)) es
        → walk_on ops right lower upper es answers ≡ some (answers ++ rest es)
    unfolding walk_on all_hits
    walk_on_lem [] answers t w =
        BufferRange.buffer_range_query_lem right lower upper answers right_valid
    walk_on_lem (e ∷ es) answers t w = walk_lem e es answers t w
