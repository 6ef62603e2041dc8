-- ===== src/Common/Maps.antt =====
-- Memory and tables as functions, with a pointwise update.
use Prim.Native.Nat.{ℕ, zero, suc, ◌<◌}
use mathlib.Core.Path.{◌≡◌}
use mathlib.Core.Logic.{◌≢◌, inl, inr}
use mathlib.Core.Bool.{Bool, true, false}
use native.Mathlib.Omega.{arith}
use viper_learned_index.Common.Tests.{◌==◌, eq_cases, if◌then◌else◌}

abbrev pub upd {ℓ} : {A : Type ℓ} → (ℕ → A) → ℕ → A → ℕ → A
upd f i v j = if j == i then v else f j

pub upd_self {ℓ} : {A : Type ℓ} (f : ℕ → A) (i : ℕ) (v : A) → upd f i v i ≡ v
upd_self f i v = ground arith

pub upd_other {ℓ} : {A : Type ℓ} (f : ℕ → A) (i j : ℕ) (v : A) → j ≢ i → upd f i v j ≡ f j
upd_other f i j v h = ground arith

-- A test of each number below a bound, by evaluation.
unfoldable pub each : (ℕ → Bool) → ℕ → Bool
each test zero = true
each test (suc bound) = let rest = each test bound in if test bound then rest else false

-- What each number passed, one of them passed.
pub each_one : (test : ℕ → Bool) (bound v : ℕ) → v < bound → each test bound ≡ true → test v ≡ true
unfolding each
each_one test zero v lt h = absurd (omega arith)
each_one test (suc bound) v lt h =
    let earlier = each_one test bound v in
    elim (eq_cases v bound) [ inl e ↦ ground arith | inr ne ↦ ground arith ]
