-- ===== src/Viper/State.antt =====
-- The state of `Viper<K, V>` and of a `Client` of it, include/viper/viper.hpp. An atomic variable
-- is its value: one call runs at a time.
use viper_learned_index.Common.{
  ℕ, ◌+◌, ◌-◌, ◌%◌, Bool, ◌&&◌, Option, none, some, List, ltb, word, upd,
}
use viper_learned_index.Viper.Page
use viper_learned_index.Viper.Page.{Page}
use viper_learned_index.Viper.Offset.{block_number, page_number, data_offset}
use viper_learned_index.Viper.Interface.{Env}

pub record Viper (I : Type 0) (K : Type 0) (V : Type 0) : Type 0 where
  pub map_ : I
  -- The mapped blocks; those from `num_v_blocks` on are not mapped yet.
  pub v_blocks : ℕ → ℕ → Page K V
  pub num_v_blocks : ℕ
  pub current_size : ℕ
  pub reclaimable_ops : ℕ
  pub current_block_page : ℕ
  pub free_blocks : List ℕ
  pub is_resizing : Bool
  pub is_reclaiming : Bool
  pub deadlock_offsets : List ℕ
  pub num_active_clients : ℕ
  pub num_used_blocks : ℕ
  pub num_allocated_blocks : ℕ
  pub total_mapped_size : ℕ
  pub rand_state : ℕ

pub data PageStrategy : Type 0 where
  block_based : PageStrategy
  dimm_based : PageStrategy

-- `has_block` says that `v_block_` is not null; then `v_block_` and `v_page_` are the block and
-- the page that the numbers say. `size_delta_` is the 32-bit int, extended
-- to the 64 bits that it is added to; a delta past the range of `int` would be undefined.
pub record Client : Type 0 where
  pub strategy : PageStrategy
  pub v_block_number : ℕ
  pub v_page_number : ℕ
  pub has_block : Bool
  pub end_v_block_number : ℕ
  pub num_v_pages_processed : ℕ
  pub op_count : ℕ
  pub num_reclaimable_ops : ℕ
  pub size_delta : ℕ

-- `++` and `--` on 64 bits.
abbrev pub increment : ℕ → ℕ
increment n = (n + 1) % word

abbrev pub decrement : ℕ → ℕ
decrement n = (n + word - 1) % word

module _ {I K V : Type 0} where
  abbrev pub set_page : Viper I K V → ℕ → ℕ → Page K V → Viper I K V
  set_page s b p page = record s { v_blocks = upd s.v_blocks b (upd (s.v_blocks b) p page) }

  -- `none`: the lock is taken, and the wait for it does not end.
  unfoldable pub lock_page : Viper I K V → ℕ → ℕ → Option (Viper I K V)
  lock_page s b p = elim (Page.lock (s.v_blocks b p)) [
    | none ↦ none
    | some page ↦ some (set_page s b p page)
  ]

  unfoldable pub unlock_page : Viper I K V → ℕ → ℕ → Viper I K V
  unlock_page s b p = set_page s b p (Page.unlock (s.v_blocks b p))

  unfoldable pub invalidate_record : Viper I K V → ℕ → ℕ → ℕ → Viper I K V
  invalidate_record s b p slot = set_page s b p (Page.invalidate_record (s.v_blocks b p) slot)

  unfoldable pub write_record : Viper I K V → ℕ → ℕ → ℕ → K → V → Viper I K V
  write_record s b p slot key value =
      set_page s b p (Page.write_record (s.v_blocks b p) slot key value)

  -- The record at an offset that is inside the mapped blocks.
  unfoldable pub record_at : Viper I K V → ℕ → K × V
  record_at s offset =
      (s.v_blocks (block_number offset) (page_number offset)).records (data_offset offset)

  -- The accesses of `v_blocks_[block]->v_pages[page].data[slot]` are in bounds.
  unfoldable pub in_bounds : Env I K V → Viper I K V → ℕ → Bool
  in_bounds E s offset =
      ltb (block_number offset) s.num_v_blocks
      && ltb (page_number offset) E.num_pages_per_block
      && ltb (data_offset offset) E.num_slots_per_page
