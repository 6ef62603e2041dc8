-- ===== src/Viper/Offset.antt =====
-- `KeyValueOffset` of index/common_index.hpp: the place of a record, packed into 64 bits.
pub mod Fields
use viper_learned_index.Common.{ℕ, ◌+◌, ◌*◌, ◌/◌, ◌%◌, ◌^◌, Bool, ◌==◌}
use viper_learned_index.FitingTree.Parameters.{none_offset}

-- Bit fields of 45, 3 and 16 bits, from the lowest bit on; a value that is too wide is cut off.
unfoldable pub pack : ℕ → ℕ → ℕ → ℕ
pack block_number page_number slot =
    block_number % 2 ^ 45 + page_number % 2 ^ 3 * 2 ^ 45 + slot % 2 ^ 16 * 2 ^ 48

unfoldable pub block_number : ℕ → ℕ
block_number offset = offset % 2 ^ 45

unfoldable pub page_number : ℕ → ℕ
page_number offset = offset / 2 ^ 45 % 2 ^ 3

unfoldable pub data_offset : ℕ → ℕ
data_offset offset = offset / 2 ^ 48 % 2 ^ 16

unfoldable pub get_offsets : ℕ → ℕ × ℕ × ℕ
unfolding block_number page_number data_offset
get_offsets offset = (block_number offset, page_number offset, data_offset offset)

unfoldable pub is_tombstone : ℕ → Bool
is_tombstone offset = offset == none_offset
