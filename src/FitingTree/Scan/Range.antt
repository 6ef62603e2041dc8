-- ===== src/FitingTree/Scan/Range.antt =====
-- The loops of `range_query` on sorted arrays: they answer with exactly the records in the range.
use viper_learned_index.Common.{
  ℕ, zero, suc, ◌+◌, ◌-◌, ◌≤◌, ◌<◌, ◌≡◌, refl, sym, ap, ◌∙◌, true, false, not, ◌&&◌, Bool, Option,
  none, some, List, [], ◌∷◌, ◌++◌, append-nil, append_assoc, arith, length, ◌!◌, ltb, lt→ltb,
  le→ltb, ◌==◌, if◌then◌else◌, drop, get_or, get_elem?-eq-get_or, Returns, or_else, ◌⊎◌, inl, inr,
  lt_cases, drop-eq-nil,
}
use viper_learned_index.FitingTree.Records.{IsSorted, rank, lookup, rank-le, lt_rank, rank_le}
use viper_learned_index.FitingTree.Scan.{skip_below, collect_upto}

-- `lower ≤ j ≤ upper`
abbrev pub in_bounds : ℕ → ℕ → ℕ → Bool
in_bounds lower upper j = not (ltb j lower) && not (ltb upper j)

-- The records with a key within the bounds.
unfoldable pub between : ℕ → ℕ → List ℕ → List ℕ → List (ℕ × ℕ)
between lower upper [] payloads = []
between lower upper (x ∷ xs) [] = []
between lower upper (x ∷ xs) (v ∷ vs) =
    if in_bounds lower upper x
    then (x, v) ∷ between lower upper xs vs
    else between lower upper xs vs

-- What the flag of a range query says: true if each key of the array is at most `upper` or below
-- `lower`, false if a key from `lower` on is above `upper`.
abbrev pub Stops : ℕ → ℕ → List ℕ → Bool → Type 0
Stops lower upper keys flag =
    ((flag ≡ true) × ((i : ℕ) → i < length keys → (keys ! i ≤ upper) ⊎ (keys ! i < lower)))
    ⊎ ((flag ≡ false) × ((i : ℕ) × (i < length keys) × (lower ≤ keys ! i) × (upper < keys ! i)))

-- The payload of the first answer with key `j`.
unfoldable pub answer : ℕ → List (ℕ × ℕ) → Option ℕ
answer j [] = none
answer j ((k, v) ∷ found) = if k == j then some v else answer j found

pub answer-append :
    (j : ℕ) (a b : List (ℕ × ℕ)) → answer j (a ++ b) ≡ or_else (answer j a) (answer j b)
unfolding answer
answer-append j [] b = refl
answer-append j ((k, v) ∷ a) b = ground (arith, answer-append j a b)

pub answer-between :
    (lower upper j : ℕ) (keys payloads : List ℕ)
    → answer j (between lower upper keys payloads)
      ≡ (if in_bounds lower upper j then lookup j keys payloads else none)
unfolding answer between lookup
answer-between lower upper j [] ps = ground arith
answer-between lower upper j (x ∷ xs) [] = ground arith
answer-between lower upper j (x ∷ xs) (v ∷ vs) = ground (arith, answer-between lower upper j xs vs)

-- No record within the bounds, no answer.
pub between-eq-nil :
    (lower upper : ℕ) (keys payloads : List ℕ)
    → ((i : ℕ) → i < length keys → in_bounds lower upper (keys ! i) ≡ false)
    → between lower upper keys payloads ≡ []
unfolding between
between-eq-nil lower upper [] ps h = refl
between-eq-nil lower upper (x ∷ xs) [] h = refl
between-eq-nil lower upper (x ∷ xs) (v ∷ vs) h =
    rw (h 0 (omega arith)) (between-eq-nil lower upper xs vs (λ i l. h (suc i) (omega arith)))

-- The records from index `i` on.
between_step :
    (lower upper i : ℕ) (keys payloads : List ℕ)
    → i < length keys
    → length keys ≡ length payloads
    → between lower upper (drop i keys) (drop i payloads) ≡ (
        if in_bounds lower upper (keys ! i)
        then (keys ! i, get_or payloads i 0)
          ∷ between lower upper (drop (i + 1) keys) (drop (i + 1) payloads)
        else between lower upper (drop (i + 1) keys) (drop (i + 1) payloads))
unfolding between
between_step lower upper i [] ps h e = absurd (omega arith)
between_step lower upper i (x ∷ xs) [] h e = absurd (omega arith)
between_step lower upper zero (x ∷ xs) (v ∷ vs) h e = refl
between_step lower upper (suc i) (x ∷ xs) (v ∷ vs) h full =
    let e : suc i + 1 ≡ suc (i + 1) = omega arith in
    rw e (between_step lower upper i xs vs (omega arith) (omega arith))

-- Records with keys below the bound, at the front, do not count.
between-drop :
    (lower upper it : ℕ) (keys payloads : List ℕ)
    → it ≤ length keys
    → length keys ≡ length payloads
    → ((i : ℕ) → i < it → keys ! i < lower)
    → between lower upper (drop it keys) (drop it payloads) ≡ between lower upper keys payloads
unfolding between
between-drop lower upper zero keys ps h e low = refl
between-drop lower upper (suc it) [] ps h e low = refl
between-drop lower upper (suc it) (x ∷ xs) [] h e low = absurd (omega arith)
between-drop lower upper (suc it) (x ∷ xs) (v ∷ vs) h e low =
    rw (lt→ltb x lower (low 0 (omega arith))) (
      between-drop lower upper it xs vs (omega arith) (omega arith)
        (λ i l. low (suc i) (omega arith)))

between_end :
    (lower upper i : ℕ) (keys payloads : List ℕ)
    → length keys ≤ i
    → between lower upper (drop i keys) (drop i payloads) ≡ []
unfolding between
between_end lower upper i keys payloads h = rw (drop-eq-nil i keys h) refl

module _ (keys payloads : List ℕ) (sorted : IsSorted keys) (full : length keys ≡ length payloads)
    (lower upper : ℕ) where
  -- `skip_below` reaches the first key that is not below the bound.
  pub skip_below-eq :
      (fuel it : ℕ)
      → it ≤ rank lower keys
      → length keys < fuel + it
      → skip_below fuel keys (length keys) lower it ≡ some (rank lower keys)
  unfolding skip_below
  skip_below-eq zero it h l = absurd (omega (arith, rank-le lower keys))
  skip_below-eq (suc fuel) it h l = elim (lt_cases it (length keys)) [
    | inl inside ↦ rw (get_elem?-eq-get_or keys it 0 inside) (
        ground
          (arith, skip_below-eq fuel (it + 1), lt_rank lower it keys, rank_le lower it keys sorted))
    | inr end ↦ ground (arith, rank-le lower keys)
  ]

  -- What the second loop leaves: the answers, and an end of the array or a key above the bound.
  pub record Collected (it : ℕ) (answers : List (ℕ × ℕ)) (r : List (ℕ × ℕ) × ℕ) : Type 0 where
    pub found : r.0 ≡ answers ++ between lower upper (drop it keys) (drop it payloads)
    pub stops :
        ((r.1 ≡ length keys) × ((i : ℕ) → it ≤ i → i < length keys → keys ! i ≤ upper))
        ⊎ ((it ≤ r.1) × (r.1 < length keys) × (upper < keys ! r.1))

  nothing_above :
      (i : ℕ)
      → i < length keys
      → upper < keys ! i
      → (n : ℕ) → length keys ≡ i + n
      → between lower upper (drop i keys) (drop i payloads) ≡ []
  nothing_above i h above zero e = between_end lower upper i keys payloads (omega arith)
  nothing_above i h above (suc n) e = elim (lt_cases (i + 1) (length keys)) [
    | inl more ↦
        let next = nothing_above (i + 1) more (omega (arith, sorted i (i + 1))) n (omega arith) in
        ground (arith, between_step lower upper i keys payloads h full, next)
    | inr last ↦
        let next = between_end lower upper (i + 1) keys payloads last in
        ground (arith, between_step lower upper i keys payloads h full, next)
  ]

  pub collect_upto-Collected :
      (fuel it : ℕ) (answers : List (ℕ × ℕ))
      → it ≤ length keys
      → length keys < fuel + it
      → (it < length keys → lower ≤ keys ! it)
      → Returns
          (collect_upto fuel keys payloads (length keys) upper it answers)
          (Collected it answers)
  unfolding collect_upto
  collect_upto-Collected zero it answers h l from = absurd (omega arith)
  collect_upto-Collected (suc fuel) it answers h l from = elim (lt_cases it (length keys)) [
    | inr end ↦ rw (le→ltb it (length keys) end) (
      (answers, it),
      refl,
      record {
        found = rw (between_end lower upper it keys payloads end) (sym (append-nil answers));
        stops = inl (omega arith, λ i at l. absurd (omega arith));
      },
    )
    | inl inside ↦ elim (lt_cases upper (keys ! it)) [
      | inl above ↦
          rw
            (
              lt→ltb it (length keys) inside,
              get_elem?-eq-get_or keys it 0 inside,
              get_elem?-eq-get_or payloads it 0 (omega arith),
              lt→ltb upper (keys ! it) above,
            )
            (
              (answers, it),
              refl,
              record {
                found =
                    rw (nothing_above it inside above (length keys - it) (omega arith))
                      (sym (append-nil answers));
                stops = inr (omega arith, inside, above);
              },
            )
      | inr upto ↦
          let (r, run, c) =
            collect_upto-Collected fuel (it + 1) (answers ++ (keys ! it, get_or payloads it 0) ∷ [])
              (omega arith) (omega arith) (λ h. omega (arith, sorted it (it + 1), from inside)) in
          rw
            (
              lt→ltb it (length keys) inside,
              get_elem?-eq-get_or keys it 0 inside,
              get_elem?-eq-get_or payloads it 0 (omega arith),
              le→ltb upper (keys ! it) upto,
            )
            (
              r,
              run,
              record {
                found =
                    c.found
                    ∙ append_assoc answers ((keys ! it, get_or payloads it 0) ∷ []) _
                    ∙ ap (λ x. answers ++ x)
                        (sym (
                          between_step lower upper it keys payloads inside full
                          ∙ rw
                              (
                                le→ltb (keys ! it) lower (from inside),
                                le→ltb upper (keys ! it) upto,
                              )
                              refl));
                stops = elim c.stops [
                  | inl (end, rest) ↦ inl (
                    end,
                    λ i at l. elim (lt_cases it i) [
                      | inl later ↦ rest i (omega arith) l
                      | inr here ↦ (let e : i ≡ it = omega arith in rw e upto)
                    ],
                  )
                  | inr (at, less, over) ↦ inr (omega arith, less, over)
                ];
              },
            )
    ]
  ]

  pub Collected-Stops :
      (it : ℕ) (answers : List (ℕ × ℕ)) (r : List (ℕ × ℕ) × ℕ)
      → Collected it answers r
      → ((i : ℕ) → i < it → keys ! i < lower)
      → (it < length keys → lower ≤ keys ! it)
      → Stops lower upper keys (not (ltb r.1 (length keys)))
  Collected-Stops it answers r c before from = elim c.stops [
    | inl (end, rest) ↦ inl (
      rw (le→ltb r.1 (length keys) (omega arith)) refl,
      λ i l. elim (lt_cases i it) [
        | inl skipped ↦ inr (before i skipped)
        | inr taken ↦ inl (rest i taken l)
      ],
    )
    | inr (at, less, over) ↦
        let from_lower : lower ≤ keys ! r.1 = elim (lt_cases it r.1) [
          | inl later ↦ omega (arith, sorted it r.1 later less, from (omega arith))
          | inr here ↦ (let e : r.1 ≡ it = omega arith in rw e (from (omega arith)))
        ] in
        inr (rw (lt→ltb r.1 (length keys) less) refl, (r.1, less, from_lower, over))
  ]

  -- From the first key that is not below `lower` on, the second loop finds all in the range.
  pub from_rank :
      between lower upper (drop (rank lower keys) keys) (drop (rank lower keys) payloads)
      ≡ between lower upper keys payloads
  from_rank =
      between-drop lower upper (rank lower keys) keys payloads (rank-le lower keys) full
        (λ i. lt_rank lower i keys)
