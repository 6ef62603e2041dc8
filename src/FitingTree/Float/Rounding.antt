-- ===== src/FitingTree/Float/Rounding.antt =====
-- The values of `double`. A finite value is a multiple of the least positive one, so it is written as
-- a difference of two natural numbers, `plus - minus`, and `unit` of them make 1. Where an exact
-- result is at most `range` in size, rounding moves it by at most `error`.
use viper_learned_index.Common.{ℕ, ◌+◌, ◌*◌, ◌≤◌, ◌<◌, ◌≡◌, ◌⊎◌, some, arith}
use viper_learned_index.Common.Int.{ℤ, pos, negsuc}
use viper_learned_index.FitingTree.Float.{Float}

-- `p - n` and `p' - n'` differ by at most `r`.
abbrev pub Close : ℕ → ℕ → ℕ → ℕ → ℕ → Type 0
Close p n p' n' r = (p + n' ≤ p' + n + r) × (p' + n ≤ p + n' + r)

-- `z` is the value `p - n` in units of `u` without its fraction.
abbrev pub Drops : ℕ → ℕ → ℕ → ℤ → Type 0
Drops p n u (pos z) = ((z ≡ 0) ⊎ (z * u + n ≤ p)) × (p < (z + 1) * u + n)
Drops p n u (negsuc z) = p + (z + 1) * u ≤ n

pub record IsRounded (F : Float) : Type 0 where
  pub plus : F.Double → ℕ
  pub minus : F.Double → ℕ
  pub unit : ℕ
  pub range : ℕ
  pub error : ℕ
  -- Numbers below `exact` are values.
  pub exact : ℕ
  pub fine : 12 * error < unit
  pub of_size_law : (n : ℕ) → n < exact → plus (F.of_size n) ≡ n * unit + minus (F.of_size n)
  pub half_plus : plus F.half + plus F.half ≡ unit
  pub half_minus : minus F.half ≡ 0
  pub fadd_law :
      (a b : F.Double)
      → Close (plus a + plus b) (minus a + minus b) 0 0 range
      → Close (plus (F.fadd a b)) (minus (F.fadd a b)) (plus a + plus b) (minus a + minus b) error
  pub fsub_law :
      (a b : F.Double)
      → Close (plus a + minus b) (minus a + plus b) 0 0 range
      → Close (plus (F.fsub a b)) (minus (F.fsub a b)) (plus a + minus b) (minus a + plus b) error
  pub fmul_law :
      (n : ℕ) (s : F.Double)
      → n < exact
      → Close (n * plus s) (n * minus s) 0 0 range
      → let d = F.fmul (F.of_size n) s in Close (plus d) (minus d) (n * plus s) (n * minus s) error
  -- `static_cast<int>`, where the value is in the range of `int`.
  pub to_int_law :
      (a : F.Double)
      → Close (plus a) (minus a) 0 0 (2147483647 * unit)
      → (z : ℤ) × (F.to_int a ≡ some z) × Drops (plus a) (minus a) unit z

module _ (F : Float) (v : IsRounded F) where
  -- The value is within `r` of `p - n`.
  abbrev pub Near : F.Double → ℕ → ℕ → ℕ → Type 0
  Near d p n r = Close (v.plus d) (v.minus d) p n r

  -- Two numbers of a size that leaves room for a sum.
  abbrev pub Fit : ℕ → ℕ → ℕ → ℕ → ℕ → Type 0
  Fit p n p' n' r = (p + p' + r ≤ v.range) × (n + n' + r ≤ v.range)

  pub fadd-Near :
      (a b : F.Double) (p n p' n' r r' : ℕ)
      → Near a p n r
      → Near b p' n' r'
      → Fit p n p' n' (r + r')
      → Near (F.fadd a b) (p + p') (n + n') (r + r' + v.error)
  fadd-Near a b p n p' n' r r' x y f =
      let q = v.fadd_law a b (omega (arith, x, y, f), omega (arith, x, y, f)) in
      (omega (arith, x, y, q), omega (arith, x, y, q))

  pub fsub-Near :
      (a b : F.Double) (p n p' n' r r' : ℕ)
      → Near a p n r
      → Near b p' n' r'
      → Fit p n n' p' (r + r')
      → Near (F.fsub a b) (p + n') (n + p') (r + r' + v.error)
  fsub-Near a b p n p' n' r r' x y f =
      let q = v.fsub_law a b (omega (arith, x, y, f), omega (arith, x, y, f)) in
      (omega (arith, x, y, q), omega (arith, x, y, q))

  pub fmul-Near :
      (k : ℕ) (s : F.Double)
      → k < v.exact
      → k * v.plus s ≤ v.range
      → k * v.minus s ≤ v.range
      → Near (F.fmul (F.of_size k) s) (k * v.plus s) (k * v.minus s) v.error
  fmul-Near k s h a b = v.fmul_law k s h (omega (arith, a, b), omega (arith, a, b))

  pub of_size-Near : (k : ℕ) → k < v.exact → Near (F.of_size k) (k * v.unit) 0 0
  of_size-Near k h = let e = v.of_size_law k h in (omega (arith, e), omega (arith, e))
