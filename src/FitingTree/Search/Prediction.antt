-- ===== src/FitingTree/Search/Prediction.antt =====
-- The predicted position: inside the array, monotone in the key, and stable when the array grows.
use viper_learned_index.Common.{ℕ, ◌+◌, ◌≤◌, ◌<◌, ◌≡◌, some, arith, Option-cases, inl, inr}
use viper_learned_index.Common.Int.{ℤ, pos, negsuc, ◌≤ℤ◌}
use viper_learned_index.FitingTree.Float.{Float, IsMonotone}
use viper_learned_index.FitingTree.Search.{predict_int, clamp, predict_pos}

pub clamp_lt : (n : ℕ) (z : ℤ) → 0 < n → clamp n z < n
unfolding clamp
clamp_lt n (pos p) h = ground arith
clamp_lt n (negsuc p) h = h

pub clamp_mono : (n : ℕ) (x y : ℤ) → 0 < n → x ≤ℤ y → clamp n x ≤ clamp n y
unfolding clamp
clamp_mono n (pos p) (pos q) h l = ground arith
clamp_mono n (pos p) (negsuc q) h l = absurd (omega arith)
clamp_mono n (negsuc p) y h l = omega arith

-- One more cell moves a clamped position by at most one.
pub clamp_grow :
    (n : ℕ) (z : ℤ) → 0 < n → (clamp n z ≤ clamp (n + 1) z) × (clamp (n + 1) z ≤ clamp n z + 1)
unfolding clamp
clamp_grow n (pos p) h = ground arith
clamp_grow n (negsuc p) h = omega arith

module _ (F : Float) (slope intercept : F.Double) where
  pub predict_pos-eq :
      (n key : ℕ) (z : ℤ)
      → predict_int F slope intercept key ≡ some z
      → predict_pos F slope intercept n key ≡ some (clamp n z)
  unfolding predict_pos
  predict_pos-eq n key z e = rw e

  -- A defined prediction is the clamp of a defined conversion.
  pub predict_pos_inv :
      (n key p : ℕ)
      → predict_pos F slope intercept n key ≡ some p
      → (z : ℤ) × (predict_int F slope intercept key ≡ some z) × (p ≡ clamp n z)
  unfolding predict_pos
  predict_pos_inv n key p e = elim (Option-cases (predict_int F slope intercept key)) [
    | inl fault ↦ absurd (cc (rw fault at e))
    | inr (z, run) ↦ (z, run, cc (rw run at e))
  ]

  pub predict_int_mono :
      (m : IsMonotone F)
      → m.NonNegative slope
      → (a b : ℕ) (x y : ℤ) → a ≤ b
      → predict_int F slope intercept a ≡ some x
      → predict_int F slope intercept b ≡ some y
      → x ≤ℤ y
  unfolding predict_int
  predict_int_mono m up a b x y h ea eb =
      m.to_int_mono _ _ x y
        (m.fadd_mono F.half _ _
          (m.fadd_mono intercept _ _ (m.fmul_mono slope _ _ up (m.of_size_mono a b h))))
        ea eb
