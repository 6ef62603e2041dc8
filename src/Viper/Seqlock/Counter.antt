-- ===== src/Viper/Seqlock/Counter.antt =====
-- The counter of unlocks in the version lock, over all values of the byte: bits 0 to 5 go up by
-- one with each lock and each unlock.
use viper_learned_index.Common.{
  ℕ, ◌+◌, ◌%◌, ◌<◌, ◌≡◌, refl, Bool, true, false, ◌&&◌, arith, ltb, ◌==◌, each, each_one, is_none,
  Option, some, if◌then◌else◌,
}
use viper_learned_index.Viper.Lock.{is_locked, lock, unlock, set_client, clear_client}

abbrev same : ℕ → ℕ → Bool
same v w = ltb w 256 && w % 64 == v % 64

row : ℕ → Bool
unfolding is_locked lock unlock set_client clear_client
row v =
    let kept = same v (set_client v) && same v (clear_client v) in
    let odd = v % 2 == 1 in
    if is_locked v
    then kept && odd && is_none (lock v) && ltb (unlock v) 256 && unlock v % 64 == (v % 64 + 1) % 64
    else kept && v % 2 == 0

table : each row 256 ≡ true
unfolding each row is_locked lock unlock set_client clear_client
table = refl

pub is_locked_odd : (v : ℕ) → v < 256 → is_locked v ≡ true → v % 2 ≡ 1
unfolding row
is_locked_odd v h l = let r = each_one row 256 v h table in ground arith

pub is_locked_even : (v : ℕ) → v < 256 → is_locked v ≡ false → v % 2 ≡ 0
unfolding row
is_locked_even v h l = let r = each_one row 256 v h table in ground arith

pub unlock_counts :
    (v : ℕ) → v < 256 → is_locked v ≡ true → (unlock v < 256) × (unlock v % 64 ≡ (v % 64 + 1) % 64)
unfolding row
unlock_counts v h l = let r = each_one row 256 v h table in (ground arith, ground arith)

pub set_client_keeps : (v : ℕ) → v < 256 → (set_client v < 256) × (set_client v % 64 ≡ v % 64)
unfolding row
set_client_keeps v h = let r = each_one row 256 v h table in (ground arith, ground arith)

pub clear_client_keeps : (v : ℕ) → v < 256 → (clear_client v < 256) × (clear_client v % 64 ≡ v % 64)
unfolding row
clear_client_keeps v h = let r = each_one row 256 v h table in (ground arith, ground arith)

pub even-is_locked : (v : ℕ) → v < 256 → v % 2 ≡ 0 → is_locked v ≡ false
unfolding row
even-is_locked v h even = let r = each_one row 256 v h table in ground arith

is_none-some : (o : Option ℕ) (w : ℕ) → o ≡ some w → is_none o ≡ false
is_none-some o w e = rw e refl

-- A lock that is taken was free.
pub lock-is_locked : (v w : ℕ) → v < 256 → lock v ≡ some w → is_locked v ≡ false
unfolding row
lock-is_locked v w h e =
    let r = each_one row 256 v h table in let n = is_none-some (lock v) w e in ground arith
