-- ===== src/Viper/Client/Deadlock/Leaves.antt =====
-- Two clients of `Client::free_occupied_slot` that wait for each other leave the loop.
use viper_learned_index.Common.{ℕ, zero, suc, ◌≡◌, true, false, ◌⊎◌}
use viper_learned_index.Viper.State.{Viper, Client}
use viper_learned_index.Viper.Client.{contains}
use viper_learned_index.Viper.Client.Deadlock.{IsFree}
use viper_learned_index.Viper.Client.Deadlock.Turns.{fresh, waiting, left, Pair}

module _ {I K V : Type 0} where
  -- What is left to happen: after the first round of one client; after one of each; after the first
  -- has left; after both have.
  abbrev Stage : ℕ → Pair I K V → Type 0
  Stage zero p =
      (p.mover.phase ≡ waiting)
      × (p.other.phase ≡ fresh)
      × (contains p.mover.offset p.store.deadlock_offsets ≡ true)
  Stage (suc zero) p =
      (p.mover.phase ≡ waiting)
      × (p.other.phase ≡ waiting)
      × (contains p.mover.offset p.store.deadlock_offsets ≡ true)
      × (contains p.other.offset p.store.deadlock_offsets ≡ false)
      × IsFree p.store p.other.offset
  Stage (suc (suc zero)) p =
      (p.mover.phase ≡ left)
      × (p.other.phase ≡ waiting)
      × (contains p.other.offset p.store.deadlock_offsets ≡ false)
      × IsFree p.store p.mover.offset
      × IsFree p.store p.other.offset
  Stage (suc (suc (suc n))) p =
      (p.mover.phase ≡ left)
      × (p.other.phase ≡ left)
      × IsFree p.store p.mover.offset
      × IsFree p.store p.other.offset

  -- The two offsets stay what they are.
  abbrev Waits : ℕ → ℕ → Pair I K V → Type 0
  Waits o1 o2 p =
      ((p.mover.offset ≡ o1) × (p.other.offset ≡ o2))
      ⊎ ((p.mover.offset ≡ o2) × (p.other.offset ≡ o1))

  abbrev pub start : Viper I K V → Client → Client → ℕ → ℕ → Pair I K V
  start s c1 c2 o1 o2 = record {
    store = s;
    mover = record { client = c1; offset = o1; phase = fresh };
    other = record { client = c2; offset = o2; phase = fresh };
  }
