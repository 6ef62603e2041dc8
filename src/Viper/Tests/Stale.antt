-- ===== src/Viper/Tests/Stale.antt =====
-- `reclaim` of include/viper/viper.hpp over an index whose `Insert` keeps the old offset secret, as
-- those of most wrappers do: `put` leaves the old record in its slot, and `compact` puts it again.
use viper_learned_index.Common.{ℕ, ◌≡◌, refl, true, some, List, [], ◌∷◌, upd, ◌>>=◌}
use viper_learned_index.FitingTree.Parameters.{none_offset}
use viper_learned_index.Viper.Interface.{IndexOps, Env}
use viper_learned_index.Viper.State.{Viper, block_based}
use viper_learned_index.Viper.Lock
use viper_learned_index.Viper.Page
use viper_learned_index.Viper.Page.{Page}
use viper_learned_index.Viper.Offset
use viper_learned_index.Viper.State
use viper_learned_index.Viper.Access
use viper_learned_index.Viper.Reclaim
use viper_learned_index.Viper.Client
use viper_learned_index.Viper.Reclaim.{reclaim}
use viper_learned_index.Viper.System.{Call, connect, put, remove, step, run}
use viper_learned_index.Viper.Tests.{env}
use viper_learned_index.Viper.Tests.Store.{system, new_store}

unfoldable secret : IndexOps (ℕ → ℕ)
secret = record { insert = λ m n o. some (upd m n o, none_offset); get = λ m n. some (m n) }

abbrev secret_env : Env (ℕ → ℕ) ℕ ℕ
secret_env = record env { index = secret }

-- Key 5 gets the value 100 in the first block, and 200 in the second one.
abbrev calls : List (Call ℕ ℕ)
calls =
    connect block_based 0
    ∷ put 0 5 100
    ∷ put 0 6 1
    ∷ put 0 7 1
    ∷ put 0 8 1
    ∷ put 0 5 200
    ∷ remove 0 6
    ∷ remove 0 7
    ∷ []

newest : (do r ← run secret_env system calls; Client.get secret_env r.0.store 5) ≡ some (some 200)
unfolding secret run step Access.get_client Access.new_client Access.get_new_access_information
    Access.info_sync Access.sync_reclaims Access.trigger_resize Access.get_block_based_access
    Access.take_block Access.get_new_block Access.wait_for_block Access.resize
    Access.add_v_page_blocks Access.allocate_v_page_blocks Access.enter_block Access.release_block
    Access.init_page Access.own_block Access.update_access_information Access.next_page
    Access.remove_client State.lock_page State.unlock_page State.invalidate_record
    State.write_record State.record_at State.in_bounds Page.init Page.lock Page.unlock
    Page.write_record Page.invalidate_record Page.find_first Page.count Page.is_owned Page.is_unused
    Lock.is_locked Lock.is_bit_set Lock.lock Lock.unlock Lock.set_client Lock.clear_client
    Offset.pack Offset.block_number Offset.page_number Offset.data_offset Offset.is_tombstone
    Client.put Client.put_on Client.put_at Client.free_occupied_slot Client.on_page Client.acquire
    Client.acquire_round Client.finish_free Client.delete_key Client.erase Client.remove Client.get
    Client.get_value_from_offset Reclaim.reclaim Reclaim.reclaim_blocks Reclaim.reclaim_block
    Reclaim.block_free_slots Reclaim.compact Reclaim.compact_slots Reclaim.free_block
newest = refl

-- Behind `reclaim` the key has the value that it had before.
stale :
    (do
      r ← run secret_env system calls
      s ← reclaim secret_env r.0.store block_based 0
      Client.get secret_env s 5)
    ≡ some (some 100)
unfolding secret run step Access.get_client Access.new_client Access.get_new_access_information
    Access.info_sync Access.sync_reclaims Access.trigger_resize Access.get_block_based_access
    Access.take_block Access.get_new_block Access.wait_for_block Access.resize
    Access.add_v_page_blocks Access.allocate_v_page_blocks Access.enter_block Access.release_block
    Access.init_page Access.own_block Access.update_access_information Access.next_page
    Access.remove_client State.lock_page State.unlock_page State.invalidate_record
    State.write_record State.record_at State.in_bounds Page.init Page.lock Page.unlock
    Page.write_record Page.invalidate_record Page.find_first Page.count Page.is_owned Page.is_unused
    Lock.is_locked Lock.is_bit_set Lock.lock Lock.unlock Lock.set_client Lock.clear_client
    Offset.pack Offset.block_number Offset.page_number Offset.data_offset Offset.is_tombstone
    Client.put Client.put_on Client.put_at Client.free_occupied_slot Client.on_page Client.acquire
    Client.acquire_round Client.finish_free Client.delete_key Client.erase Client.remove Client.get
    Client.get_value_from_offset Reclaim.reclaim Reclaim.reclaim_blocks Reclaim.reclaim_block
    Reclaim.block_free_slots Reclaim.compact Reclaim.compact_slots Reclaim.free_block
stale = refl

abbrev empty_page : Page ℕ ℕ
empty_page = record { version_lock = 0x40; free_slots = λ t. true; records = λ t. (t, t) }

-- Two blocks that hold nothing, before the current one.
abbrev empty_store : Viper (ℕ → ℕ) ℕ ℕ
empty_store = record new_store {
  v_blocks = λ b p. empty_page;
  num_v_blocks = 3;
  current_block_page = 2;
}

-- Two calls of `reclaim` put block 1 into the list of free blocks twice.
twice :
    (do
      s ← reclaim secret_env empty_store block_based 0
      t ← reclaim secret_env s block_based 0
      some t.free_blocks)
    ≡ some (1 ∷ 1 ∷ 2 ∷ [])
unfolding Access.get_client Access.new_client Access.get_new_access_information Access.info_sync
    Access.sync_reclaims Access.trigger_resize Access.get_block_based_access Access.take_block
    Access.get_new_block Access.wait_for_block Access.resize Access.add_v_page_blocks
    Access.allocate_v_page_blocks Access.enter_block Access.release_block Access.init_page
    Access.own_block Access.update_access_information Access.next_page Access.remove_client
    State.lock_page State.unlock_page State.invalidate_record State.write_record State.record_at
    State.in_bounds Page.init Page.lock Page.unlock Page.write_record Page.invalidate_record
    Page.find_first Page.count Page.is_owned Page.is_unused Lock.is_locked Lock.is_bit_set Lock.lock
    Lock.unlock Lock.set_client Lock.clear_client Offset.pack Offset.block_number Offset.page_number
    Offset.data_offset Offset.is_tombstone Client.put Client.put_on Client.put_at
    Client.free_occupied_slot Client.on_page Client.acquire Client.acquire_round Client.finish_free
    Client.delete_key Client.erase Client.remove Client.get Client.get_value_from_offset
    Reclaim.reclaim Reclaim.reclaim_blocks Reclaim.reclaim_block Reclaim.block_free_slots
    Reclaim.compact Reclaim.compact_slots Reclaim.free_block
twice = refl
