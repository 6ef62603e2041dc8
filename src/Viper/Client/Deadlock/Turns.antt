-- ===== src/Viper/Client/Deadlock/Turns.antt =====
-- Two clients in the loop of `Client::free_occupied_slot` that takes the lock of the old record's
-- page, in any order of their rounds.
use viper_learned_index.Common.{ℕ, suc, ◌≡◌, Bool, true, false, none, List, [], ◌∷◌}
use viper_learned_index.Viper.Lock
use viper_learned_index.Viper.Offset.{block_number, page_number}
use viper_learned_index.Viper.State.{Viper, Client}
use viper_learned_index.Viper.Client.{Round, has_lock, waits, served, acquire_round}

-- Where a client is: before its first round, between two rounds, or behind the loop, with the lock
-- or without it.
pub data Phase : Type 0 where
  fresh : Phase
  waiting : Phase
  locked : Phase
  left : Phase

abbrev pub after : Round → Phase
after has_lock = locked
after waits = waiting
after served = left

pub record Waiter : Type 0 where
  pub client : Client
  pub offset : ℕ
  pub phase : Phase

-- `mover` is the client whose turn it is.
pub record Pair (I K V : Type 0) : Type 0 where
  pub store : Viper I K V
  pub mover : Waiter
  pub other : Waiter

-- How often the turn changes.
abbrev pub changes : List Bool → ℕ
changes [] = 0
changes (false ∷ turns) = changes turns
changes (true ∷ turns) = suc (changes turns)

module _ {I K V : Type 0} where
  abbrev pub round_of : Pair I K V → Bool → Pair I K V
  round_of p inserted =
      let r = acquire_round p.store p.mover.client p.mover.offset inserted in
      record { store = r.0; mover = record p.mover { phase = after r.1 }; other = p.other }

  -- A round of the client whose turn it is. The first one puts the offset into the list; behind the
  -- loop nothing happens.
  abbrev pub move_in : Phase → Pair I K V → Pair I K V
  move_in fresh p = round_of p false
  move_in waiting p = round_of p true
  move_in locked p = p
  move_in left p = p

  abbrev pub move : Pair I K V → Pair I K V
  move p = move_in p.mover.phase p

  abbrev pub swap : Pair I K V → Pair I K V
  swap p = record { store = p.store; mover = p.other; other = p.mover }

  -- A round for each element of the list: of the other client at `true`, of the same one at `false`.
  abbrev pub play : List Bool → Pair I K V → Pair I K V
  play [] p = p
  play (false ∷ turns) p = play turns (move p)
  play (true ∷ turns) p = play turns (move (swap p))

  -- The lock of the page of the offset is taken.
  abbrev pub IsHeld : Viper I K V → ℕ → Type 0
  IsHeld s o = Lock.lock (s.v_blocks (block_number o) (page_number o)).version_lock ≡ none
