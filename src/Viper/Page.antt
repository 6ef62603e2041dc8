-- ===== src/Viper/Page.antt =====
-- `ViperPage` and `ViperPageBlock` of include/viper/viper.hpp. The bits of `free_slots` and the
-- records of `data` (here `records`) are functions of the slot, the pages of a block a function of the page number;
-- the sizes are arguments.
use viper_learned_index.Common.{
  ℕ, zero, suc, ◌+◌, Bool, true, false, Option, none, some, if◌then◌else◌, upd,
}
use viper_learned_index.Viper.Lock
use viper_learned_index.Viper.Lock.{used_bit, client_bit, is_bit_set}

pub record Page (K : Type 0) (V : Type 0) : Type 0 where
  pub version_lock : ℕ
  pub free_slots : ℕ → Bool
  pub records : ℕ → K × V

-- `free_slots->_Find_first()` among the slots that are left; the number of slots if none is free.
unfoldable pub find_first : (ℕ → Bool) → ℕ → ℕ → ℕ
find_first free_slots zero slot = slot
find_first free_slots (suc rest) slot =
    let later = find_first free_slots rest (slot + 1) in if free_slots slot then slot else later

-- `free_slots.count()`
unfoldable pub count : (ℕ → Bool) → ℕ → ℕ
count free_slots zero = 0
count free_slots (suc n) = count free_slots n + (if free_slots n then 1 else 0)

module _ {K V : Type 0} where
  unfoldable pub init : Page K V → Page K V
  init page = record page { version_lock = used_bit; free_slots = λ _. true }

  -- `none`: the page is locked.
  unfoldable pub lock : Page K V → Option (Page K V)
  lock page = elim (Lock.lock page.version_lock) [
    | none ↦ none
    | some version ↦ some (record page { version_lock = version })
  ]

  unfoldable pub unlock : Page K V → Page K V
  unlock page = record page { version_lock = Lock.unlock page.version_lock }

  -- `v_page_->data[slot] = {key, value}`, and then `free_slots->reset(slot)`.
  unfoldable pub write_record : Page K V → ℕ → K → V → Page K V
  write_record page slot key value = record page {
    free_slots = upd page.free_slots slot false;
    records = upd page.records slot (key, value);
  }

  -- `v_page.data[slot] = …`, with the slot in use.
  unfoldable pub set_record : Page K V → ℕ → K × V → Page K V
  set_record page slot entry = record page { records = upd page.records slot entry }

  unfoldable pub invalidate_record : Page K V → ℕ → Page K V
  invalidate_record page slot = record page { free_slots = upd page.free_slots slot true }

  unfoldable pub is_owned : (ℕ → Page K V) → Bool
  is_owned v_pages = is_bit_set (v_pages 0).version_lock client_bit

  -- The loop over the first pages of the block.
  unfoldable pub is_unused : (ℕ → Page K V) → ℕ → Bool
  is_unused v_pages zero = true
  is_unused v_pages (suc n) =
      let rest = is_unused v_pages n in
      if is_bit_set (v_pages n).version_lock used_bit then false else rest
