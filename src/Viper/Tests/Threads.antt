-- ===== src/Viper/Tests/Threads.antt =====
-- Two threads on one page, two clients that wait for each other, and blocks that are
-- reclaimed, for include/viper/viper.hpp.
use viper_learned_index.Common.{
  ℕ, ◌+◌, ◌≡◌, ◌≢◌, ◌⊎◌, refl, true, false, none, some, [], ◌∷◌, ◌++◌, ◌≤◌, ◌<◌, inr, arith,
  Returns,
}
use viper_learned_index.Viper.Lock.{is_locked, is_bit_set, set_client, clear_client, unlock}
use viper_learned_index.Viper.Page
use viper_learned_index.Viper.Page.{Page, is_owned}
use viper_learned_index.Viper.Offset.{pack}
use viper_learned_index.Viper.State.{Viper, Client, block_based}
use viper_learned_index.Viper.Access.{new_client}
use viper_learned_index.Viper.Lock
use viper_learned_index.Viper.Seqlock
use viper_learned_index.Viper.Seqlock.{Steps, read_value}
use viper_learned_index.Viper.Seqlock.Reads.{read_value_lem}
use viper_learned_index.Viper.Reclaim.{reclaim_blocks}
use viper_learned_index.Viper.Reclaim.Again.{IsVacant, unowned, reclaim_blocks_lem}
use viper_learned_index.Viper.Tests.{env}
use viper_learned_index.Viper.Tests.Store.{new_store}

abbrev used_page : Page ℕ ℕ
used_page = record { version_lock = 0x40; free_slots = λ t. true; records = λ t. (t, t + 7) }

abbrev owned_page : Page ℕ ℕ
owned_page = record used_page { version_lock = set_client 0x40 }

abbrev released_page : Page ℕ ℕ
released_page = record owned_page { version_lock = clear_client (set_client 0x40) }

seen : read_value used_page owned_page released_page 1 ≡ some 8
unfolding read_value is_locked set_client clear_client
seen = refl

-- A client takes the block before the value is read, and leaves it behind that.
read_value_example :
    ((read_value used_page owned_page released_page 1 ≡ none)
      × ((is_locked 0x40 ≡ true) ⊎ (0x40 ≢ released_page.version_lock)))
    ⊎ ((read_value used_page owned_page released_page 1 ≡ some 8)
        × ((released_page.records 1).1 ≡ (used_page.records 1).1))
read_value_example =
    read_value_lem used_page owned_page released_page 0 0 1 (omega arith)
      (Seqlock.step Seqlock.done Seqlock.own_step) (Seqlock.step Seqlock.done Seqlock.release_step)
      (omega arith)

-- A lock between the two loads is seen.
missed :
    read_value used_page used_page (Page.unlock (record used_page { version_lock = 0x41 })) 1 ≡ none
unfolding read_value is_locked Page.unlock unlock
missed = refl

abbrev first_client : Client
first_client = record (new_client block_based 0) { has_block = true }

abbrev second_client : Client
second_client = record (new_client block_based 0) { has_block = true; v_block_number = 1 }

abbrev first_offset : ℕ
first_offset = pack 1 0 1

abbrev second_offset : ℕ
second_offset = pack 0 0 0

-- Both pages are locked, and their slots are taken.
abbrev stuck_store : Viper (ℕ → ℕ) ℕ ℕ
stuck_store = record new_store {
  v_blocks = λ b p. record used_page { version_lock = 0x41; free_slots = λ slot. false };
}

abbrev vacant_store : Viper (ℕ → ℕ) ℕ ℕ
vacant_store = record new_store { v_blocks = λ b p. used_page }

store-IsVacant : (d : ℕ) → IsVacant vacant_store d
unfolding is_locked is_bit_set
store-IsVacant d = record {
  unlocked = λ p. (omega arith, refl);
  free = λ p slot. refl;
  used = refl;
  not_owned = refl;
}

-- Block 1 stands in the list before the call.
abbrev listed_store : Viper (ℕ → ℕ) ℕ ℕ
listed_store = record vacant_store { free_blocks = 1 ∷ [] }

listed-IsVacant : (d : ℕ) → IsVacant listed_store d
listed-IsVacant d =
    let v = store-IsVacant d in
    record { unlocked = v.unlocked; free = v.free; used = v.used; not_owned = v.not_owned }

reclaim_blocks_example : Returns (reclaim_blocks env listed_store first_client 2 0) λ r.
    (r.1 ≡ first_client)
    × (r.0.free_blocks ≡ (1 ∷ []) ++ unowned env listed_store.v_blocks 2 0)
    × ((d : ℕ) → 0 ≤ d → d < 2 → IsVacant listed_store d → IsVacant r.0 d)
    × ((d : ℕ)
        → (d < 0) ⊎ (is_owned (listed_store.v_blocks d) ≡ true)
        → r.0.v_blocks d ≡ listed_store.v_blocks d)
reclaim_blocks_example =
    reclaim_blocks_lem env listed_store first_client 2 0 (λ d lo hi. inr (listed-IsVacant d))
      (omega arith) (omega arith) (omega arith)
