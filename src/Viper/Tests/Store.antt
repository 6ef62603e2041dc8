-- ===== src/Viper/Tests/Store.antt =====
-- A new store without clients, and what is true of it.
use viper_learned_index.Common.{ℕ, ◌+◌, refl, false, [], arith, sym, le→leb, some_inj}
use viper_learned_index.FitingTree.Parameters.{none_offset}
use viper_learned_index.Viper.Lock.{is_locked}
use viper_learned_index.Viper.Page.{Page}
use viper_learned_index.Viper.Offset.{block_number, page_number}
use viper_learned_index.Viper.State.{Viper, block_based}
use viper_learned_index.Viper.Access.{new_client}
use viper_learned_index.Viper.Valid
use viper_learned_index.Viper.Valid.{IsSound, IsValid, Entries, AllUnlocked}
use viper_learned_index.Viper.System.{System}
use viper_learned_index.Viper.System.Steps.{IsReady}
use viper_learned_index.Viper.Tests.{table, table_laws, env}

pub env-Sizes : Valid.Sizes env
env-Sizes = record {
  some_page = omega arith;
  few_pages = omega arith;
  few_slots = omega arith;
  some_slot = omega arith;
  chunk = omega arith;
  threshold = λ block n h le. le→leb n (block + 1) (omega arith);
}

abbrev pub blank : Page ℕ ℕ
blank = record { version_lock = 0; free_slots = λ t. false; records = λ t. (0, 0) }

abbrev pub new_store : Viper (ℕ → ℕ) ℕ ℕ
new_store = record {
  map_ = λ n. none_offset;
  v_blocks = λ b p. blank;
  num_v_blocks = 2;
  current_size = 0;
  reclaimable_ops = 0;
  current_block_page = 0;
  free_blocks = [];
  is_resizing = false;
  is_reclaiming = false;
  deadlock_offsets = [];
  num_active_clients = 0;
  num_used_blocks = 0;
  num_allocated_blocks = 2;
  total_mapped_size = 20;
  rand_state = 0;
}

no-Entries : Entries env new_store
unfolding table
no-Entries n o a = absurd (a.1 (sym (some_inj none_offset o a.0)))

new_unlocked : AllUnlocked new_store
unfolding is_locked
new_unlocked b p = (omega arith, refl)

pub new_store-IsValid : IsValid env table_laws new_store
unfolding table_laws block_number page_number
new_store-IsValid = record {
  sound = record {
    index_valid = tt;
    entries = no-Entries;
    no_free_blocks = refl;
    some_block = omega arith;
    current_le = omega arith;
    current_page = omega arith;
  };
  unlocked = new_unlocked;
}

abbrev pub system : System (ℕ → ℕ) ℕ ℕ
system = record { store = new_store; clients = λ i. new_client block_based 0; num_clients = 0 }

pub system-IsReady : IsReady env table_laws system
system-IsReady = record {
  valid = new_store-IsValid;
  owns = λ i lt. absurd (omega arith);
  distinct = λ i j li lj ne. absurd (omega arith);
}
