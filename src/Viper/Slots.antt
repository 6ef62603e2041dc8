-- ===== src/Viper/Slots.antt =====
-- `get_num_slots_per_page` of include/viper/viper.hpp: how many records of a size fit into a page
-- with the version lock, a byte, and a bit for each record.
pub mod Fit
use viper_learned_index.Common.{
  ℕ, zero, suc, ◌+◌, ◌-◌, ◌*◌, ◌/◌, ◌%◌, ◌^◌, Bool, ◌&&◌, ◌||◌, Option, none, some, ltb, leb, ◌==◌,
  if◌then◌else◌,
}

abbrev pub page_size : ℕ
page_size = 4096

-- Six pages, one for each DIMM.
abbrev pub block_size : ℕ
block_size = 6 * 4096

-- The version lock and one byte.
abbrev pub page_overhead : ℕ
page_overhead = 2

-- The bytes that `n` records take up with their bits and the overhead; `std::ceil(n / 8)` is exact
-- on these numbers.
unfoldable pub layout_size : ℕ → ℕ → ℕ
layout_size entry_size n = n * entry_size + page_overhead + (n + 7) / 8

-- The loop over the page sizes, on 16 bits and on fuel.
unfoldable pub grow_page : ℕ → ℕ → ℕ → Option ℕ
grow_page zero entry_size current_page_size = none
grow_page (suc fuel) entry_size current_page_size =
    let rest = grow_page fuel entry_size ((current_page_size + page_size) % 2 ^ 16) in
    if ltb current_page_size (entry_size + page_overhead) && leb current_page_size block_size
    then rest
    else some current_page_size

-- Blocks of 4 or 5 pages become one of 6.
unfoldable pub round_page : ℕ → ℕ
round_page current_page_size =
    let num_pages_per_block = current_page_size / page_size in
    if num_pages_per_block == 4 || num_pages_per_block == 5 then block_size else current_page_size

-- The loop that counts down until the layout fits; it ends at no record at the latest.
unfoldable pub shrink : ℕ → ℕ → ℕ → ℕ
unfolding layout_size
shrink entry_size current_page_size zero = 0
shrink entry_size current_page_size (suc n) =
    let rest = shrink entry_size current_page_size n in
    if ltb current_page_size (layout_size entry_size (suc n)) then rest else suc n

-- `entry_size` is a positive 32-bit size; eight page sizes are enough.
unfoldable pub get_num_slots_per_page : ℕ → Option ℕ
unfolding grow_page round_page shrink
get_num_slots_per_page entry_size = elim (grow_page 8 entry_size page_size) [
  | none ↦ none
  | some grown ↦
      let current_page_size = round_page grown in
      let large = current_page_size / entry_size in
      some (shrink entry_size current_page_size (if ltb 255 large then large - 1 else large))
]
