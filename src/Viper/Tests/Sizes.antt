-- ===== src/Viper/Tests/Sizes.antt =====
-- The number of slots for some record sizes.
use viper_learned_index.Common.{ℕ, ◌+◌, ◌≤◌, ◌<◌, ◌≡◌, refl, some, arith, Returns}
use viper_learned_index.Viper.Slots.{
  layout_size, grow_page, round_page, shrink, get_num_slots_per_page,
}
use viper_learned_index.Viper.Slots.Fit.{IsPage, get_num_slots_per_page_lem}

-- An 8-byte key with a 200-byte value.
slots_of_kv : get_num_slots_per_page 208 ≡ some 19
unfolding get_num_slots_per_page grow_page round_page shrink layout_size
slots_of_kv = refl

-- A record that leaves room for the overhead but not for its bit gets no slot.
slots_of_none : get_num_slots_per_page 4094 ≡ some 0
unfolding get_num_slots_per_page grow_page round_page shrink layout_size
slots_of_none = refl

get_num_slots_per_page_example :
    Returns
      (get_num_slots_per_page 208)
      λ n. (c : ℕ) × IsPage 208 c × (layout_size 208 n ≤ c) × (c < layout_size 208 (n + 1))
get_num_slots_per_page_example = get_num_slots_per_page_lem 208 (omega arith)
