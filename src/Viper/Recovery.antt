-- ===== src/Viper/Recovery.antt =====
-- `recover_database` and `bulkload_index` of include/viper/viper.hpp: the index is built from the
-- pages. The recovery threads run one after the other.
pub mod Rebuilt
pub mod Threads
pub mod Reads
use Prim.Native.Nat.{min}
use viper_learned_index.Common.{
  ℕ, zero, suc, ◌+◌, ◌-◌, ◌*◌, ◌/◌, ◌%◌, Bool, not, Option, none, some, List, [], ◌∷◌, ltb, ◌==◌,
  word, if◌then◌else◌, ◌>>=◌,
}
use viper_learned_index.Viper.Lock.{used_bit, is_bit_set}
use viper_learned_index.Viper.Page.{Page}
use viper_learned_index.Viper.Offset.{pack}
use viper_learned_index.Viper.Interface.{Env}
use viper_learned_index.Viper.State.{Viper}

module _ {I K V : Type 0} (E : Env I K V) where
  -- The loop over the slots from `slot` on; the index, and the number of entries so far.
  unfoldable pub recover_slots : Page K V → ℕ → ℕ → ℕ → ℕ → I × ℕ → Option (I × ℕ)
  recover_slots page block_num page_num zero slot_num r = some r
  recover_slots page block_num page_num (suc rest) slot_num r =
      if page.free_slots slot_num
      then recover_slots page block_num page_num rest (slot_num + 1) r
      else (do
        q ←
            E.index.insert r.0 (E.get_key (page.records slot_num).0)
              (pack block_num page_num slot_num)
        recover_slots page block_num page_num rest (slot_num + 1) (q.0, r.1 + 1))

  unfoldable pub recover_page : Page K V → ℕ → ℕ → I × ℕ → Option (I × ℕ)
  unfolding recover_slots
  recover_page page block_num page_num r =
      if not (is_bit_set page.version_lock used_bit)
      then some r
      else recover_slots page block_num page_num E.num_slots_per_page 0 r

  -- The pages from `page_num` on.
  unfoldable pub recover_pages : (ℕ → Page K V) → ℕ → ℕ → ℕ → I × ℕ → Option (I × ℕ)
  unfolding recover_page
  recover_pages v_pages block_num zero page_num r = some r
  recover_pages v_pages block_num (suc rest) page_num r = do
    q ← recover_page (v_pages page_num) block_num page_num r
    recover_pages v_pages block_num rest (page_num + 1) q

  -- The blocks from `block_num` on; a block that is not mapped is undefined behaviour.
  unfoldable pub recover_blocks : Viper I K V → ℕ → ℕ → I × ℕ → Option (I × ℕ)
  unfolding recover_pages
  recover_blocks s zero block_num r = some r
  recover_blocks s (suc rest) block_num r =
      if ltb block_num s.num_v_blocks
      then (do
        q ← recover_pages (s.v_blocks block_num) block_num E.num_pages_per_block 0 r
        recover_blocks s rest (block_num + 1) q)
      else none

  -- A thread's share: from its first block to the last one, or to the end of the used blocks.
  unfoldable pub recover : Viper I K V → ℕ → ℕ → I × ℕ → Option (I × ℕ)
  unfolding recover_blocks
  recover s start_block end_block r = recover_blocks s (end_block - start_block) start_block r

  unfoldable pub recover_threads : Viper I K V → ℕ → ℕ → ℕ → ℕ → I × ℕ → Option (I × ℕ)
  unfolding recover
  recover_threads s num_used_blocks per_thread zero thread_num r = some r
  recover_threads s num_used_blocks per_thread (suc rest) thread_num r = do
    let start_block = thread_num * per_thread
    q ← recover s start_block (min (start_block + per_thread) num_used_blocks) r
    recover_threads s num_used_blocks per_thread rest (thread_num + 1) q

  -- With no used block, the division by the number of threads is undefined.
  unfoldable pub recover_database : Viper I K V → ℕ → Option (Viper I K V)
  unfolding recover_threads
  recover_database s num_recovery_threads =
      let num_rec_threads = min s.num_used_blocks num_recovery_threads in
      if num_rec_threads == 0 then none else (do
        r ←
            recover_threads s s.num_used_blocks (s.num_used_blocks / num_rec_threads + 1)
              num_rec_threads 0 (s.map_, 0)
        some (record s { map_ = r.0; current_size = (s.current_size + r.1) % word }))
