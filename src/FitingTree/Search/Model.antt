-- ===== src/FitingTree/Search/Model.antt =====
-- A linear model whose error on the stored keys is bounded reaches the place of every key.
use viper_learned_index.Common.{
  ℕ, ◌+◌, ◌-◌, ◌≤◌, ◌<◌, ◌≡◌, insert_at, get_or-insert_at, subst, some, List, arith, length, ◌!◌,
  Returns, inl, inr, lt_cases,
}
use viper_learned_index.Common.Int.{ℤ}
use viper_learned_index.FitingTree.Float.{Float, IsMonotone}
use viper_learned_index.FitingTree.Records.{IsSorted, rank, rank-le, lt_rank, rank_le}
use viper_learned_index.FitingTree.Search.{predict_int, clamp, predict_pos, find_precise_position}
use viper_learned_index.FitingTree.Search.Position.{Reaches, Locates, find_precise_position-Locates}
use viper_learned_index.FitingTree.Search.Prediction.{
  clamp_lt, clamp_mono, predict_pos-eq, clamp_grow, predict_int_mono,
}

-- The model predicts each stored key, and misses its index by at most `epsilon`.
abbrev pub FitsWithin : (F : Float) → F.Double → F.Double → ℕ → ℕ → List ℕ → Type 0
FitsWithin F slope intercept number epsilon keys =
    (i : ℕ)
    → i < number
    → (z : ℤ) × (predict_int F slope intercept (keys ! i) ≡ some z)
      × (clamp number z ≤ i + epsilon)
      × (i ≤ clamp number z + epsilon)

module _ (F : Float) (m : IsMonotone F) where
  module _ (slope intercept : F.Double) (up : m.NonNegative slope) (keys : List ℕ) (epsilon : ℕ)
      (filled : 0 < length keys) (sorted : IsSorted keys)
      (fits : FitsWithin F slope intercept (length keys) epsilon keys) (key : ℕ) (z : ℤ)
      (defined : predict_int F slope intercept key ≡ some z) where
    -- Below the next stored key the prediction is not far right.
    near_rank : clamp (length keys) z ≤ rank key keys + epsilon
    near_rank = elim (lt_cases (rank key keys) (length keys)) [
      | inl h ↦
          let (y, e, l, g) = fits (rank key keys) h in
          let below = rank_le key (rank key keys) keys sorted (omega arith) h in
          omega (
            arith,
            clamp_mono (length keys) z y filled (
                predict_int_mono F slope intercept m up key (keys ! rank key keys) z y below defined
                  e),
          )
      | inr h ↦ omega (arith, clamp_lt (length keys) z filled)
    ]

    -- A stored key at or below `key` bounds the prediction from the left.
    pub far_index : (i : ℕ) → i < length keys → keys ! i ≤ key → i ≤ clamp (length keys) z + epsilon
    far_index i h le =
        let (y, e, l, g) = fits i h in
        omega (
          arith,
          clamp_mono (length keys) y z filled
              (predict_int_mono F slope intercept m up (keys ! i) key y z le e defined),
        )

    far_rank : rank key keys ≤ clamp (length keys) z + epsilon + 1
    far_rank = elim (lt_cases 0 (rank key keys)) [
      | inl h ↦
          let i = rank key keys - 1 in
          let inside : i < length keys = omega (arith, rank-le key keys) in
          let below : keys ! i < key = lt_rank key i keys (omega arith) in
          omega (arith, far_index i inside (omega arith))
      | inr h ↦ omega arith
    ]

    pub model-Reaches : Reaches keys key epsilon (clamp (length keys) z)
    model-Reaches = record {
      inside = clamp_lt (length keys) z filled;
      near = near_rank;
      far = far_rank;
      stored = λ i h e. far_index i h (omega arith);
    }

  -- The same where the number of keys is a field of the node.
  abbrev ReachesFrom : F.Double → F.Double → List ℕ → ℕ → ℕ → ℤ → ℕ → Type 0
  ReachesFrom slope intercept keys epsilon key z number =
      FitsWithin F slope intercept number epsilon keys → Reaches keys key epsilon (clamp number z)

  abbrev Searches : F.Double → F.Double → List ℕ → ℕ → ℕ → ℕ → Type 0
  Searches slope intercept keys epsilon key number =
      Returns
        (find_precise_position keys number epsilon key (predict_pos F slope intercept number key))
        (Locates keys key)

  module _ (slope intercept : F.Double) (keys : List ℕ) (number epsilon key : ℕ) (z : ℤ)
      (up : m.NonNegative slope) (full : length keys ≡ number) (filled : 0 < number)
      (sorted : IsSorted keys) (defined : predict_int F slope intercept key ≡ some z)
      (fits : FitsWithin F slope intercept number epsilon keys) where
    pub number-Reaches : Reaches keys key epsilon (clamp number z)
    number-Reaches =
        subst (ReachesFrom slope intercept keys epsilon key z) full
          (λ f. model-Reaches slope intercept up keys epsilon (omega arith) sorted f key z defined)
          fits

    -- The search of a node, from its own prediction.
    pub model-Locates :
        Returns
          (find_precise_position keys number epsilon key (predict_pos F slope intercept number key))
          (Locates keys key)
    model-Locates =
        rw (predict_pos-eq F slope intercept number key z defined, ← full)
          (find_precise_position-Locates keys key epsilon (clamp (length keys) z) sorted
            (rw full number-Reaches))

  -- An insertion at the rank of a new key moves the keys behind it by one, so the error grows by at
  -- most one.
  pub insert_at-FitsWithin :
      (slope intercept : F.Double) (keys : List ℕ) (number epsilon key : ℕ) (z : ℤ)
      → length keys ≡ number
      → 0 < number
      → predict_int F slope intercept key ≡ some z
      → clamp number z ≤ rank key keys + epsilon
      → rank key keys ≤ clamp number z + epsilon + 1
      → FitsWithin F slope intercept number epsilon keys
      → FitsWithin F slope intercept (number + 1) (epsilon + 1) (insert_at (rank key keys) key keys)
  insert_at-FitsWithin slope intercept keys n epsilon key z full filled defined near far fits i h =
      let r = rank key keys in
      rw (get_or-insert_at r i key 0 keys (rank-le key keys)) (elim (lt_cases i r) [
        | inl before ↦
            let (y, e, a, b) = fits i (omega (arith, rank-le key keys)) in
            (
              y,
              ground arith,
              omega (arith, clamp_grow n y filled),
              omega (arith, clamp_grow n y filled),
            )
        | inr from ↦ elim (lt_cases r i) [
          | inr same ↦ (
            z,
            ground arith,
            omega (arith, clamp_grow n z filled),
            omega (arith, clamp_grow n z filled),
          )
          | inl behind ↦
              let (y, e, a, b) = fits (i - 1) (omega arith) in
              (
                y,
                ground arith,
                omega (arith, clamp_grow n y filled),
                omega (arith, clamp_grow n y filled),
              )
        ]
      ])
