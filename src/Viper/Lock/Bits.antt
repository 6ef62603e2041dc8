-- ===== src/Viper/Lock/Bits.antt =====
-- The version lock, over all values of the byte.
use viper_learned_index.Common.{
  ℕ, ◌+◌, ◌<◌, ◌≡◌, refl, Bool, true, false, not, ◌&&◌, Option, none, some, arith, ltb, ◌==◌, each,
  each_one, if◌then◌else◌,
}
use viper_learned_index.Viper.Lock.{
  is_locked, is_bit_set, used_bit, client_bit, lock, unlock, set_client, clear_client,
}

-- A byte that is not locked.
abbrev pub IsUnlocked : ℕ → Type 0
IsUnlocked v = (v < 256) × (is_locked v ≡ false)

-- A byte that is locked.
abbrev pub IsTaken : ℕ → Type 0
IsTaken v = (v < 256) × (is_locked v ≡ true)

abbrev fine : ℕ → Bool
fine v = ltb v 256 && not (is_locked v)

abbrev code : Option ℕ → ℕ
code none = 256
code (some v) = v

lock_row : ℕ → Bool
unfolding is_locked lock
lock_row v =
    if is_locked v
    then code (lock v) == 256
    else code (lock v) == v + 1 && is_locked (v + 1) && ltb (v + 1) 256

keep_row : ℕ → Bool
unfolding is_locked unlock set_client clear_client
keep_row v = if is_locked v then fine (unlock v) else fine (set_client v) && fine (clear_client v)

lock_table : each lock_row 256 ≡ true
unfolding each lock_row is_locked lock
lock_table = refl

keep_table : each keep_row 256 ≡ true
unfolding each keep_row is_locked unlock set_client clear_client
keep_table = refl

lock_code : (o : Option ℕ) (v : ℕ) → (code o == v) ≡ true → v < 256 → o ≡ some v
lock_code none v e h = absurd (ground arith)
lock_code (some w) v e h = ground arith

pub lock-IsUnlocked : (v : ℕ) → IsUnlocked v → (lock v ≡ some (v + 1)) × IsTaken (v + 1)
unfolding lock_row
lock-IsUnlocked v h =
    let r = each_one lock_row 256 v h.0 lock_table in
    let c : (code (lock v) == v + 1) ≡ true = ground arith in
    let b : v + 1 < 256 = ground arith in (lock_code (lock v) (v + 1) c b, (b, ground arith))

pub unlock-IsTaken : (v : ℕ) → IsTaken v → IsUnlocked (unlock v)
unfolding keep_row
unlock-IsTaken v h = let r = each_one keep_row 256 v h.0 keep_table in (ground arith, ground arith)

pub set_client-IsUnlocked : (v : ℕ) → IsUnlocked v → IsUnlocked (set_client v)
unfolding keep_row
set_client-IsUnlocked v h =
    let r = each_one keep_row 256 v h.0 keep_table in (ground arith, ground arith)

pub clear_client-IsUnlocked : (v : ℕ) → IsUnlocked v → IsUnlocked (clear_client v)
unfolding keep_row
clear_client-IsUnlocked v h =
    let r = each_one keep_row 256 v h.0 keep_table in (ground arith, ground arith)

again_row : ℕ → Bool
unfolding is_locked unlock is_bit_set
again_row v =
    let w = unlock (v + 1) in
    if is_locked v
    then true
    else is_bit_set w used_bit
      && (if is_bit_set v client_bit
          then is_bit_set w client_bit
          else not (is_bit_set w client_bit))

again_table : each again_row 256 ≡ true
unfolding each again_row is_locked unlock is_bit_set
again_table = refl

-- A page that was locked and unlocked counts as used, and has the client bit that it had.
pub unlock-bits :
    (v : ℕ)
    → IsUnlocked v
    → (is_bit_set (unlock (v + 1)) used_bit ≡ true)
      × (is_bit_set (unlock (v + 1)) client_bit ≡ is_bit_set v client_bit)
unfolding again_row
unlock-bits v h = let r = each_one again_row 256 v h.0 again_table in (ground arith, ground arith)
