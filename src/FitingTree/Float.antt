-- ===== src/FitingTree/Float.antt =====
-- `double`, as far as the nodes use it. The language has no model of it here, so the type, its
-- operations and the monotonicity that IEEE rounding guarantees are a parameter.
pub mod Rounding
use viper_learned_index.Common.{ℕ, ◌≤◌, ◌≡◌, Option, some}
use viper_learned_index.Common.Int.{ℤ, ◌≤ℤ◌}

pub record Float : Type 1 where
  pub Double : Type 0
  pub of_size : ℕ → Double
  pub half : Double
  pub fadd : Double → Double → Double
  pub fsub : Double → Double → Double
  pub fmul : Double → Double → Double
  -- `static_cast<int>`: undefined out of the range of `int`
  pub to_int : Double → Option ℤ

-- Rounding keeps order.
pub record IsMonotone (F : Float) : Type 1 where
  pub Le : F.Double → F.Double → Type 0
  pub NonNegative : F.Double → Type 0
  pub of_size_mono : (a b : ℕ) → a ≤ b → Le (F.of_size a) (F.of_size b)
  pub fmul_mono : (s a b : F.Double) → NonNegative s → Le a b → Le (F.fmul a s) (F.fmul b s)
  pub fadd_mono : (c a b : F.Double) → Le a b → Le (F.fadd a c) (F.fadd b c)
  pub to_int_mono :
      (a b : F.Double) (x y : ℤ) → Le a b → F.to_int a ≡ some x → F.to_int b ≡ some y → x ≤ℤ y
