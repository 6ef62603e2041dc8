-- ===== src/Viper/Seqlock/Reads.antt =====
-- What a read between two loads of the version lock returns. The counter of the lock has five
-- bits: after 32 unlocks it is where it was.
use viper_learned_index.Common.{
  ℕ, suc, ◌+◌, ◌*◌, ◌%◌, ◌<◌, ◌≡◌, refl, true, false, some, arith, some_inj, sym, ◌∙◌, ap,
  Bool-cases, eq_cases, ne→==, none, ◌⊎◌, ◌≢◌, inl, inr,
}
use viper_learned_index.Viper.Lock.{is_locked, set_client, clear_client}
use viper_learned_index.Viper.Lock.Bits.{lock-IsUnlocked}
use viper_learned_index.Viper.Page
use viper_learned_index.Viper.Page.{Page}
use viper_learned_index.Viper.Seqlock
use viper_learned_index.Viper.Seqlock.{Step, Steps, read_value}
use viper_learned_index.Viper.Seqlock.Counter.{
  is_locked_odd, is_locked_even, even-is_locked, lock-is_locked, unlock_counts, set_client_keeps,
  clear_client_keeps,
}

-- The lock byte changes in the client bit alone: a locked page stays locked.
locked_kept :
    (v w : ℕ)
    → v < 256
    → is_locked v ≡ true
    → (w < 256) × (w % 64 ≡ v % 64)
    → (w < 256) × (is_locked w ≡ true)
locked_kept v w b l e =
    let odd = is_locked_odd v b l in
    let c = e.1 in
    elim (Bool-cases (is_locked w)) [
      | inl t ↦ (e.0, t)
      | inr f ↦ absurd (let even = is_locked_even w e.0 f in omega arith)
    ]

module _ {K V : Type 0} where
  -- The counter behind an unlocked page and `n` unlocks; the lock adds one to it. Without an
  -- unlock, a page that is not locked has the records that it had.
  record Progress (p : Page K V) (n : ℕ) (q : Page K V) : Type 0 where
    byte : q.version_lock < 256
    counter : q.version_lock % 64 ≡ (p.version_lock % 64 + 2 * n + q.version_lock % 2) % 64
    untouched :
        n ≡ 0 → is_locked q.version_lock ≡ false → (slot : ℕ) → q.records slot ≡ p.records slot

  -- The lock byte changes in the client bit alone.
  same_counter :
      (p : Page K V) (n : ℕ) (q : Page K V) (w : ℕ)
      → Progress p n q
      → (w < 256) × (w % 64 ≡ q.version_lock % 64)
      → Progress p n (record q { version_lock = w })
  same_counter p n q w h e = record {
    byte = e.0;
    counter = let c = h.counter in let d = e.1 in omega arith;
    untouched = λ z l slot.
        let even = is_locked_even w e.0 l in
        h.untouched z (even-is_locked q.version_lock h.byte (omega (arith, e.1, even))) slot;
  }

  Progress-Step :
      (p : Page K V) (n : ℕ) (q r : Page K V) → Progress p n q → Step q r → Progress p n r
  unfolding Page.write_record Page.set_record Page.invalidate_record
  Progress-Step p n q r h (Seqlock.lock_step w e) =
      let free = lock-is_locked q.version_lock w h.byte e in
      let taken = lock-IsUnlocked q.version_lock (h.byte, free) in
      let next : q.version_lock + 1 ≡ w = some_inj (q.version_lock + 1) w (sym taken.0 ∙ e) in
      let even = is_locked_even q.version_lock h.byte free in
      let c = h.counter in
      let b = taken.1.0 in
      let locked = taken.1.1 in
      record {
        byte = omega arith;
        counter = omega arith;
        untouched = λ z l slot. absurd (ground arith);
      }
  Progress-Step p n q r h (Seqlock.write_step slot key value l) = record {
    byte = h.byte;
    counter = h.counter;
    untouched = λ z u t. absurd (ground arith);
  }
  Progress-Step p n q r h (Seqlock.set_step slot entry l) = record {
    byte = h.byte;
    counter = h.counter;
    untouched = λ z u t. absurd (ground arith);
  }
  Progress-Step p n q r h (Seqlock.invalidate_step slot) = record {
    byte = h.byte;
    counter = h.counter;
    untouched = h.untouched;
  }
  Progress-Step p n q r h Seqlock.own_step =
      same_counter p n q (set_client q.version_lock) h (set_client_keeps q.version_lock h.byte)
  Progress-Step p n q r h Seqlock.release_step =
      same_counter p n q (clear_client q.version_lock) h (clear_client_keeps q.version_lock h.byte)

  progress :
      (p : Page K V) (n m : ℕ) (q : Page K V)
      → m ≡ 0
      → p.version_lock < 256
      → is_locked p.version_lock ≡ false
      → Steps n m p q
      → Progress p n q
  unfolding Page.unlock
  progress p n m q z b u Seqlock.done =
      let even = is_locked_even p.version_lock b u in
      record { byte = b; counter = omega arith; untouched = λ z l slot. refl }
  progress p n m q z b u (Seqlock.step {q = mid} h t) =
      Progress-Step p n mid q (progress p n m mid z b u h) t
  progress p n m q z b u (Seqlock.unlock_step {n = k} {q = mid} h l) =
      let r = progress p k m mid z b u h in
      let odd = is_locked_odd mid.version_lock r.byte l in
      let e = unlock_counts mid.version_lock r.byte l in
      let e0 = e.0 in
      let e1 = e.1 in
      let c = r.counter in
      record { byte = e.0; counter = omega arith; untouched = λ y v slot. absurd (omega arith) }
  progress p n m q z b u (Seqlock.init_step h) = absurd (omega arith)
  progress p n m q z b u (Seqlock.reclaim_step h) = absurd (omega arith)

  steps_append :
      (p q r : Page K V) (n k m : ℕ)
      → m ≡ 0
      → Steps n 0 p q
      → Steps k m q r
      → (total : ℕ) × (total ≡ n + k) × Steps total 0 p r
  steps_append p q r n k m z h Seqlock.done = (n, omega arith, h)
  steps_append p q r n k m z h (Seqlock.step {q = mid} g t) =
      let o = steps_append p q mid n k m z h g in (o.0, o.1, Seqlock.step o.2 t)
  steps_append p q r n k m z h (Seqlock.unlock_step {n = k'} {q = mid} g l) =
      let o = steps_append p q mid n k' m z h g in
      let e = o.1 in (suc o.0, omega arith, Seqlock.unlock_step o.2 l)
  steps_append p q r n k m z h (Seqlock.init_step g) = absurd (omega arith)
  steps_append p q r n k m z h (Seqlock.reclaim_step g) = absurd (omega arith)

  locked-Step :
      (q r : Page K V)
      → q.version_lock < 256
      → is_locked q.version_lock ≡ true
      → Step q r
      → (r.version_lock < 256) × (is_locked r.version_lock ≡ true)
  unfolding Page.write_record Page.set_record Page.invalidate_record
  locked-Step q r b l (Seqlock.lock_step w e) =
      let free = lock-is_locked q.version_lock w b e in absurd (ground arith)
  locked-Step q r b l (Seqlock.write_step slot key value u) = (b, l)
  locked-Step q r b l (Seqlock.set_step slot entry u) = (b, l)
  locked-Step q r b l (Seqlock.invalidate_step slot) = (b, l)
  locked-Step q r b l Seqlock.own_step =
      locked_kept q.version_lock (set_client q.version_lock) b l (set_client_keeps q.version_lock b)
  locked-Step q r b l Seqlock.release_step =
      locked_kept q.version_lock (clear_client q.version_lock) b l
        (clear_client_keeps q.version_lock b)

  -- Without an unlock, a locked page stays locked.
  still_locked :
      (q : Page K V) (n m : ℕ) (r : Page K V)
      → n ≡ 0
      → m ≡ 0
      → q.version_lock < 256
      → is_locked q.version_lock ≡ true
      → Steps n m q r
      → (r.version_lock < 256) × (is_locked r.version_lock ≡ true)
  still_locked q n m r z y b l Seqlock.done = (b, l)
  still_locked q n m r z y b l (Seqlock.step {q = mid} h t) =
      let s = still_locked q n m mid z y b l h in locked-Step mid r s.0 s.1 t
  still_locked q n m r z y b l (Seqlock.unlock_step h u) = absurd (omega arith)
  still_locked q n m r z y b l (Seqlock.init_step h) = absurd (omega arith)
  still_locked q n m r z y b l (Seqlock.reclaim_step h) = absurd (omega arith)

  -- The counter at the end is the one of the start: no unlock lies between.
  no_unlock :
      (p : Page K V) (n : ℕ) (q : Page K V)
      → p.version_lock < 256
      → is_locked p.version_lock ≡ false
      → Progress p n q
      → p.version_lock ≡ q.version_lock
      → n < 32
      → n ≡ 0
  no_unlock p n q b u h e lt =
      let even = is_locked_even p.version_lock b u in let c = h.counter in omega arith

  read_value_inv :
      (first copied last : Page K V) (slot : ℕ) (value : V)
      → read_value first copied last slot ≡ some value
      → (is_locked first.version_lock ≡ false)
        × (first.version_lock ≡ last.version_lock)
        × ((copied.records slot).1 ≡ value)
  unfolding read_value
  read_value_inv first copied last slot value e = ground arith

  read_value-eq-some :
      (first copied last : Page K V) (n k slot : ℕ) (value : V)
      → first.version_lock < 256
      → Steps n 0 first copied
      → Steps k 0 copied last
      → n + k < 32
      → read_value first copied last slot ≡ some value
      → ((first.records slot).1 ≡ value) × ((last.records slot).1 ≡ value)
  read_value-eq-some first copied last n k slot value b h g few e =
      let r = read_value_inv first copied last slot value e in
      let o = steps_append first copied last n k 0 refl h g in
      let all = progress first o.0 0 last refl b r.0 o.2 in
      let total = o.1 in
      let none_at_all = no_unlock first o.0 last b r.0 all r.1 (omega arith) in
      let n0 : n ≡ 0 = omega arith in
      let k0 : k ≡ 0 = omega arith in
      let half = progress first n 0 copied refl b r.0 h in
      let last_free = ap is_locked (sym r.1) ∙ r.0 in
      let copied_free : is_locked copied.version_lock ≡ false =
        elim (Bool-cases (is_locked copied.version_lock)) [
          | inl l ↦
              absurd (let s = still_locked copied k 0 last k0 refl half.byte l g in ground arith)
          | inr f ↦ f
        ] in
      let at_copy = half.untouched n0 copied_free slot in
      let at_end = all.untouched none_at_all last_free slot in
      (ap (λ t. t.1) (sym at_copy) ∙ r.2, ap (λ t. t.1) (at_end ∙ sym at_copy) ∙ r.2)

  read_value-run :
      (first copied last : Page K V) (slot : ℕ)
      → is_locked first.version_lock ≡ false
      → first.version_lock ≡ last.version_lock
      → read_value first copied last slot ≡ some (copied.records slot).1
  unfolding read_value
  read_value-run first copied last slot u e = ground arith

  -- On a page whose lock is a byte, a read beside the steps of other threads, with fewer than 32
  -- unlocks and no reset of the page among them, is to be tried again, and then the page is locked at the first load of the
  -- lock, or the second load differs; or it returns the value that the slot had at the first load,
  -- which it still has at the second one.
  pub read_value_lem :
      (first copied last : Page K V) (n k slot : ℕ)
      → first.version_lock < 256
      → Steps n 0 first copied
      → Steps k 0 copied last
      → n + k < 32
      → ((read_value first copied last slot ≡ none)
          × ((is_locked first.version_lock ≡ true) ⊎ (first.version_lock ≢ last.version_lock)))
        ⊎ ((read_value first copied last slot ≡ some (first.records slot).1)
            × ((last.records slot).1 ≡ (first.records slot).1))
  unfolding read_value
  read_value_lem first copied last n k slot b h g few =
      elim (Bool-cases (is_locked first.version_lock)) [
        | inl l ↦ inl (rw l refl, inl l)
        | inr u ↦ elim (eq_cases first.version_lock last.version_lock) [
          | inr ne ↦ inl (rw (u, ne→== first.version_lock last.version_lock ne) refl, inr ne)
          | inl e ↦
              let r = read_value-run first copied last slot u e in
              let v = read_value-eq-some first copied last n k slot _ b h g few r in
              inr (r ∙ ap some (sym v.0), v.1 ∙ sym v.0)
        ]
      ]
