-- ===== src/FitingTree/Segment.antt =====
-- `Segment` of index/FITing-tree/inplace_index.h and buffer_index.h, and the segmentation that cuts
-- an array into runs which a linear model fits. `make_segmentation` and the conversion of its result
-- are the PGM-index library (index/FITing-tree/piecewise_linear_model.h), a parameter here.
pub mod Rebase
use viper_learned_index.Common.{
  ℕ, ◌+◌, ◌-◌, ◌*◌, ◌≤◌, ◌<◌, ◌≡◌, List, [], ◌∷◌, length, ◌!◌, take, drop,
}
use viper_learned_index.FitingTree.Float.{Float, IsMonotone}
use viper_learned_index.FitingTree.Float.Rounding.{IsRounded, Close}
use viper_learned_index.FitingTree.Parameters.{epsilon_default}
use viper_learned_index.FitingTree.Records.{IsSorted}
use viper_learned_index.FitingTree.Search.Model.{FitsWithin}

pub record Segment (F : Float) : Type 0 where
  pub first_key : ℕ
  pub slope : F.Double
  pub intercept : F.Double
  pub number : ℕ

-- The intercept that a node keeps: `intercept - start_pos - first_key * slope`.
abbrev pub own_intercept : (F : Float) → Segment F → ℕ → F.Double
own_intercept F s start =
    F.fsub (F.fsub s.intercept (F.of_size start)) (F.fmul (F.of_size s.first_key) s.slope)

module _ (F : Float) (m : IsMonotone F) where
  -- The segment covers `number` keys from `start` on, and its model misses none of them by more than
  -- `EPSILON`.
  pub record Covers (keys : List ℕ) (start : ℕ) (s : Segment F) : Type 0 where
    pub filled : 0 < s.number
    pub inside : start + s.number ≤ length keys
    pub first : s.first_key ≡ keys ! start
    pub rising : m.NonNegative s.slope
    pub fits :
        FitsWithin F s.slope
          (own_intercept F s start)
          s.number
          epsilon_default
          (take s.number (drop start keys))

  -- The segments follow one another up to the end of the array.
  abbrev pub Tiles : List ℕ → ℕ → List (Segment F) → Type 0
  Tiles keys start [] = start ≡ length keys
  Tiles keys start (s ∷ ss) = Covers keys start s × Tiles keys (start + s.number) ss

module _ (F : Float) (v : IsRounded F) where
  -- The model of a segment, `slope * (key - first_key) + intercept`, in exact arithmetic misses the
  -- position of none of its keys by more than `EPSILON`.
  abbrev pub IsAccurate : List ℕ → ℕ → Segment F → Type 0
  IsAccurate keys start s =
      (i : ℕ)
      → i < s.number
      → let d = keys ! (start + i) - s.first_key in
        Close (d * v.plus s.slope + v.plus s.intercept) (d * v.minus s.slope + v.minus s.intercept)
          ((start + i) * v.unit) 0 (epsilon_default * v.unit)

  -- The segments follow one another up to the end of the array.
  abbrev pub Cuts : (NonNegative : F.Double → Type 0) → List ℕ → ℕ → List (Segment F) → Type 0
  Cuts NonNegative keys start [] = start ≡ length keys
  Cuts NonNegative keys start (s ∷ ss) =
      (0 < s.number)
      × (start + s.number ≤ length keys)
      × (s.first_key ≡ keys ! start)
      × NonNegative s.slope
      × IsAccurate keys start s
      × Cuts NonNegative keys (start + s.number) ss

  -- The keys are below `exact`, and the terms of the model stay far below `range`.
  pub record IsModerate (keys : List ℕ) (s : Segment F) : Type 0 where
    pub exact : (i : ℕ) → i < length keys → keys ! i < v.exact
    pub rising : (i : ℕ) → i < length keys → 8 * (keys ! i * v.plus s.slope) ≤ v.range
    pub falling : (i : ℕ) → i < length keys → 8 * (keys ! i * v.minus s.slope) ≤ v.range
    pub above : 8 * v.plus s.intercept ≤ v.range
    pub below : 8 * v.minus s.intercept ≤ v.range

  abbrev pub AllModerate : List ℕ → List (Segment F) → Type 0
  AllModerate keys [] = Unit
  AllModerate keys (s ∷ ss) = IsModerate keys s × AllModerate keys ss

  -- So do the positions, which are in the range of `int`.
  abbrev pub IsShort : ℕ → Type 0
  IsShort n = (n < v.exact) × (n + epsilon_default + 1 < 2147483647) × (8 * (n * v.unit) ≤ v.range)

module _ (F : Float) (m : IsMonotone F) where
  -- `make_segmentation(n, EPSILON, …)` on the first `n` keys, and the values that its promise is
  -- about.
  pub record Segmentation : Type 0 where
    pub run : ℕ → List ℕ → List (Segment F)
    pub values : IsRounded F
    pub cuts :
        (keys : List ℕ)
        → 0 < length keys
        → IsSorted keys
        → Cuts F values m.NonNegative keys 0 (run (length keys) keys)

  -- On this array the arithmetic of a node's constructor stays within the range where it is precise.
  abbrev pub IsPrecise : Segmentation → List ℕ → Type 0
  IsPrecise seg keys =
      AllModerate F seg.values keys (seg.run (length keys) keys)
      × IsShort F seg.values (length keys)

  -- On each sorted array of keys with `P`.
  abbrev pub ArePrecise : Segmentation → (ℕ → Type 0) → Type 0
  ArePrecise seg P =
      (keys : List ℕ)
      → 0 < length keys
      → IsSorted keys
      → ((i : ℕ) → i < length keys → P (keys ! i))
      → IsPrecise seg keys
