-- ===== src/Viper/Reclaim.antt =====
-- `compact` and `reclaim` of include/viper/viper.hpp: the records of a block that is mostly free
-- move to the client's pages, and the block goes to the list of free blocks.
pub mod Again
use viper_learned_index.Common.{
  ℕ, zero, suc, ◌+◌, false, ◌||◌, Option, none, some, [], ◌∷◌, ◌++◌, ltb, if◌then◌else◌, ◌>>=◌,
}
use viper_learned_index.Viper.Page.{Page, count, is_owned, is_unused}
use viper_learned_index.Viper.Offset.{block_number}
use viper_learned_index.Viper.Interface.{Env}
use viper_learned_index.Viper.State.{
  Viper, Client, PageStrategy, set_page, lock_page, unlock_page, invalidate_record,
}
use viper_learned_index.Viper.Access.{get_client, remove_client}
use viper_learned_index.Viper.Client.{put_on}

module _ {I K V : Type 0} (E : Env I K V) where
  -- The loop over the slots of a page from `slot` on.
  unfoldable pub compact_slots :
      Viper I K V → Client → ℕ → ℕ → ℕ → ℕ → Option (Viper I K V × Client)
  compact_slots s c b p zero slot = some (s, c)
  compact_slots s c b p (suc rest) slot =
      let page = s.v_blocks b p in
      let entry = page.records slot in
      if page.free_slots slot then compact_slots s c b p rest (slot + 1) else (do
        r ← put_on E 2 s c entry.0 entry.1 false
        compact_slots (invalidate_record r.0 b p slot) r.1 b p rest (slot + 1))

  -- The loop over the pages of the block from `p` on.
  unfoldable pub compact : Viper I K V → Client → ℕ → ℕ → ℕ → Option (Viper I K V × Client)
  unfolding compact_slots
  compact s c b zero p = some (s, c)
  compact s c b (suc rest) p = do
    s' ← lock_page s b p
    r ← compact_slots s' c b p E.num_slots_per_page 0
    compact (unlock_page r.0 b p) r.1 b rest (p + 1)

  -- The free slots of the first `n` pages.
  unfoldable pub block_free_slots : (ℕ → Page K V) → ℕ → ℕ
  block_free_slots v_pages zero = 0
  block_free_slots v_pages (suc n) =
      block_free_slots v_pages n + count (v_pages n).free_slots E.num_slots_per_page

  -- `head_page.version_lock = 0`, and `free_blocks_.enqueue`.
  unfoldable pub free_block : Viper I K V → ℕ → Viper I K V
  free_block s b = record (set_page s b 0 (record (s.v_blocks b 0) { version_lock = 0 })) {
    free_blocks = s.free_blocks ++ (b ∷ []);
  }

  unfoldable pub reclaim_block : Viper I K V → Client → ℕ → Option (Viper I K V × Client)
  unfolding compact block_free_slots free_block
  reclaim_block s c b =
      let v_pages = s.v_blocks b in
      if is_owned v_pages || is_unused v_pages E.num_pages_per_block
      then some (s, c)
      else if ltb E.free_threshold (block_free_slots v_pages E.num_pages_per_block)
      then (do r ← compact s c b E.num_pages_per_block 0; some (free_block r.0 b, r.1))
      else some (s, c)

  unfoldable pub reclaim_blocks : Viper I K V → Client → ℕ → ℕ → Option (Viper I K V × Client)
  unfolding reclaim_block
  reclaim_blocks s c zero b = some (s, c)
  reclaim_blocks s c (suc rest) b =
      if ltb b s.num_v_blocks
      then (do r ← reclaim_block s c b; reclaim_blocks r.0 r.1 rest (b + 1))
      else none

  -- The client of the call is destroyed at its end.
  unfoldable pub reclaim : Viper I K V → PageStrategy → ℕ → Option (Viper I K V)
  unfolding reclaim_blocks
  reclaim s strategy num_reclaimable_ops = do
    let max_block = block_number s.current_block_page
    q ← get_client E s strategy num_reclaimable_ops
    r ← reclaim_blocks q.0 q.1 max_block 0
    some (remove_client E r.0 r.1)
