-- ===== src/Viper/Client/Deadlock/Rounds.antt =====
-- One round of that loop in `Client::free_occupied_slot`, where the locks of both pages are taken.
use viper_learned_index.Common.{
  ℕ, suc, ◌≡◌, refl, ap, Bool, true, false, Option, some, ◌∙◌, sym, if◌then◌else◌,
}
use viper_learned_index.Viper.Page
use viper_learned_index.Viper.Offset.{block_number, page_number, data_offset}
use viper_learned_index.Viper.State.{Viper, Client, lock_page}
use viper_learned_index.Viper.Client.{
  Round, has_lock, waits, served, contains, on_page, deadlock_pass, acquire_round, acquire,
}
use viper_learned_index.Viper.Client.Deadlock.{
  IsFree, deadlock_pass-Cleared, first_pass, pass_frees, later_pass, later_keeps, later_clears,
}
use viper_learned_index.Viper.Client.Deadlock.Turns.{
  fresh, waiting, left, after, Pair, round_of, move_in, move, swap, IsHeld,
}

abbrev pub ended : Bool → Round
ended found = if found then waits else served

module _ {I K V : Type 0} where
  -- The old record of each is on the page of the other, and not on its own page. No lock changes.
  pub record Fixed (s : Viper I K V) (p : Pair I K V) : Type 0 where
    pub mover_off : on_page p.mover.client p.mover.offset ≡ false
    pub mover_on : on_page p.mover.client p.other.offset ≡ true
    pub other_off : on_page p.other.client p.other.offset ≡ false
    pub other_on : on_page p.other.client p.mover.offset ≡ true
    pub mover_held : IsHeld s p.mover.offset
    pub other_held : IsHeld s p.other.offset
    pub locks : (b q : ℕ) → (p.store.v_blocks b q).version_lock ≡ (s.v_blocks b q).version_lock

  pub swap-Fixed : (s : Viper I K V) (p : Pair I K V) → Fixed s p → Fixed s (swap p)
  swap-Fixed s p f = record {
    mover_off = f.other_off;
    mover_on = f.other_on;
    other_off = f.mover_off;
    other_on = f.mover_on;
    mover_held = f.other_held;
    other_held = f.mover_held;
    locks = f.locks;
  }

  -- Where the lock is taken, a round is a pass of the deadlock check.
  round-eq :
      (s : Viper I K V) (c : Client) (o : ℕ) (inserted : Bool)
      → IsHeld s o
      → acquire_round s c o inserted ≡ (let r = deadlock_pass s c o inserted in (r.0, ended r.1))
  unfolding acquire_round lock_page Page.lock
  round-eq s c o inserted h = rw (acquire_round, lock_page, Page.lock, h) refl

  -- The pair behind a round.
  abbrev passed : Pair I K V → Bool → Pair I K V
  passed p inserted =
      let d = deadlock_pass p.store p.mover.client p.mover.offset inserted in
      record { store = d.0; mover = record p.mover { phase = after (ended d.1) }; other = p.other }

  pub Fixed-IsHeld : (s : Viper I K V) (p : Pair I K V) → Fixed s p → IsHeld p.store p.mover.offset
  Fixed-IsHeld s p f =
      let same = f.locks (block_number p.mover.offset) (page_number p.mover.offset) in
      rw (same, f.mover_held) refl

  round_of-eq :
      (s : Viper I K V) (p : Pair I K V) (inserted : Bool)
      → Fixed s p
      → passed p inserted ≡ round_of p inserted
  round_of-eq s p inserted f =
      let e = round-eq p.store p.mover.client p.mover.offset inserted (Fixed-IsHeld s p f) in
      ap
        (λ r. record { store = r.0; mover = record p.mover { phase = after r.1 }; other = p.other })
        (sym e)

  fresh-eq :
      (s : Viper I K V) (p : Pair I K V)
      → Fixed s p
      → p.mover.phase ≡ fresh
      → passed p false ≡ move p
  fresh-eq s p f h = round_of-eq s p false f ∙ ap (λ x. move_in x p) (sym h)

  waiting-eq :
      (s : Viper I K V) (p : Pair I K V)
      → Fixed s p
      → p.mover.phase ≡ waiting
      → passed p true ≡ move p
  waiting-eq s p f h = round_of-eq s p true f ∙ ap (λ x. move_in x p) (sym h)

  pub left-eq : (p : Pair I K V) → p.mover.phase ≡ left → p ≡ move p
  left-eq p h = ap (λ x. move_in x p) (sym h)

  passed-Fixed :
      (s : Viper I K V) (p : Pair I K V) (inserted : Bool) → Fixed s p → Fixed s (passed p inserted)
  passed-Fixed s p inserted f = record {
    mover_off = f.mover_off;
    mover_on = f.mover_on;
    other_off = f.other_off;
    other_on = f.other_on;
    mover_held = f.mover_held;
    other_held = f.other_held;
    locks = λ b q.
        let kept = deadlock_pass-Cleared p.store p.mover.client p.mover.offset inserted in
        kept.locks b q ∙ f.locks b q;
  }

  -- The first round of a client.
  pub first_round :
      (s : Viper I K V) (p : Pair I K V)
      → Fixed s p
      → p.mover.phase ≡ fresh
      → let q = move p in
        Fixed s q
        × (q.mover.phase ≡ waiting)
        × (contains q.mover.offset q.store.deadlock_offsets ≡ true)
        × (q.other.phase ≡ p.other.phase)
        × (contains p.other.offset p.store.deadlock_offsets ≡ true
            → (contains q.other.offset q.store.deadlock_offsets ≡ false)
              × IsFree q.store q.other.offset)
  first_round s p f h =
      let waits_now = first_pass p.store p.mover.client p.mover.offset f.mover_off in
      rw (← fresh-eq s p f h) (
        passed-Fixed s p false f,
        ap (λ b. after (ended b)) waits_now.0,
        waits_now.1,
        refl,
        pass_frees p.store p.mover.client p.mover.offset p.other.offset false f.mover_on,
      )

  -- A later round: the client goes on as long as its offset is in the list, and frees the other's.
  pub later_round :
      (s : Viper I K V) (p : Pair I K V)
      → Fixed s p
      → p.mover.phase ≡ waiting
      → let q = move p in
        Fixed s q
        × (q.mover.phase ≡ after (ended (contains p.mover.offset p.store.deadlock_offsets)))
        × (contains q.mover.offset q.store.deadlock_offsets
            ≡ contains p.mover.offset p.store.deadlock_offsets)
        × (q.other.phase ≡ p.other.phase)
        × (contains q.other.offset q.store.deadlock_offsets ≡ false)
        × (contains p.other.offset p.store.deadlock_offsets ≡ true → IsFree q.store q.other.offset)
        × (IsFree p.store p.other.offset → IsFree q.store q.other.offset)
        × (IsFree p.store p.mover.offset → IsFree q.store q.mover.offset)
  later_round s p f h =
      let kept = deadlock_pass-Cleared p.store p.mover.client p.mover.offset true in
      rw (← waiting-eq s p f h) (
        passed-Fixed s p true f,
        ap (λ b. after (ended b)) (later_pass p.store p.mover.client p.mover.offset),
        later_keeps p.store p.mover.client p.mover.offset p.mover.offset f.mover_off,
        refl,
        later_clears p.store p.mover.client p.mover.offset p.other.offset f.mover_on,
        λ w. (pass_frees p.store p.mover.client p.mover.offset p.other.offset true f.mover_on w).1,
        kept.free (block_number p.other.offset) (page_number p.other.offset)
            (data_offset p.other.offset),
        kept.free (block_number p.mover.offset) (page_number p.mover.offset)
            (data_offset p.mover.offset),
      )

  -- What the loop does behind a round.
  abbrev follow : ℕ → Client → ℕ → Bool → Viper I K V × Round → Option (Viper I K V × Bool × Bool)
  follow fuel c o inserted r = elim r.1 [
    | has_lock ↦ some (r.0, true, inserted)
    | waits ↦ acquire fuel r.0 c o true
    | served ↦ some (r.0, false, true)
  ]

  -- The loop goes round again as long as the own offset is found, and ends without the lock else.
  pub acquire-waits :
      (fuel : ℕ) (s : Viper I K V) (c : Client) (o : ℕ) (inserted : Bool)
      → IsHeld s o
      → (deadlock_pass s c o inserted).1 ≡ true
      → acquire (suc fuel) s c o inserted ≡ acquire fuel (deadlock_pass s c o inserted).0 c o true
  unfolding acquire
  acquire-waits fuel s c o inserted h e =
      ap (follow fuel c o inserted)
        (round-eq s c o inserted h ∙ ap (λ b. ((deadlock_pass s c o inserted).0, ended b)) e)

  pub acquire-served :
      (fuel : ℕ) (s : Viper I K V) (c : Client) (o : ℕ) (inserted : Bool)
      → IsHeld s o
      → (deadlock_pass s c o inserted).1 ≡ false
      → acquire (suc fuel) s c o inserted ≡ some ((deadlock_pass s c o inserted).0, false, true)
  unfolding acquire
  acquire-served fuel s c o inserted h e =
      ap (follow fuel c o inserted)
        (round-eq s c o inserted h ∙ ap (λ b. ((deadlock_pass s c o inserted).0, ended b)) e)
