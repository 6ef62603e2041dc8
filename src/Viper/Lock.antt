-- ===== src/Viper/Lock.antt =====
-- The version lock of a page, one byte: bit 0 is the lock, bits 1 to 5 count the unlocks, bit 6
-- says that the page is used, and bit 7 that a client owns the block.
pub mod Bits
use Prim.Native.Nat.{bit_and, bit_or}
use viper_learned_index.Common.{ℕ, ◌+◌, ◌%◌, Bool, not, Option, none, some, ◌==◌, if◌then◌else◌}

abbrev pub client_bit : ℕ
client_bit = 0x80

abbrev pub no_client_bit : ℕ
no_client_bit = 0x7f

abbrev pub used_bit : ℕ
used_bit = 0x40

abbrev pub unlocked_bit : ℕ
unlocked_bit = 0xfe

unfoldable pub is_locked : ℕ → Bool
is_locked lock = not (bit_and lock 1 == 0)

unfoldable pub is_bit_set : ℕ → ℕ → Bool
is_bit_set value bit = not (bit_and value bit == 0)

-- One round of the exchange, where no other thread runs: it succeeds on an unlocked page, and
-- fails on a locked one however often it is repeated.
unfoldable pub lock : ℕ → Option ℕ
lock version_lock =
    let lock_value = bit_and version_lock unlocked_bit in
    if version_lock == lock_value then some ((lock_value + 1) % 256) else none

unfoldable pub unlock : ℕ → ℕ
unlock current_version =
    let new_version = bit_or ((current_version + 1) % used_bit) used_bit in
    bit_or new_version (bit_and current_version client_bit)

unfoldable pub set_client : ℕ → ℕ
set_client version_lock = bit_or version_lock client_bit

unfoldable pub clear_client : ℕ → ℕ
clear_client version_lock = bit_and version_lock no_client_bit
