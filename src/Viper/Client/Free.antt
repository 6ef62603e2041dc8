-- ===== src/Viper/Client/Free.antt =====
-- `free_occupied_slot` where the lock of the old record's page is free, or is the client's own.
use viper_learned_index.Common.{
  ℕ, suc, ◌+◌, ◌<◌, ◌≡◌, refl, ◌≢◌, ◌⊎◌, inl, inr, Bool, true, false, ◌&&◌, some, arith, ap, sym,
  subst, ◌==◌, Bool-cases, Returns, word,
}
use viper_learned_index.Viper.Lock.Bits.{IsUnlocked, lock-IsUnlocked, unlock-IsTaken}
use viper_learned_index.Viper.Page
use viper_learned_index.Viper.Page.{Page}
use viper_learned_index.Viper.Offset.{block_number, page_number, data_offset}
use viper_learned_index.Viper.Interface.{Env}
use viper_learned_index.Viper.State.{
  Viper, Client, decrement, unlock_page, invalidate_record, record_at, in_bounds,
}
use viper_learned_index.Viper.Valid.{IsLive}
use viper_learned_index.Viper.Valid.Live.{
  IsLive-kept, IsLive-relock, IsLive-unlock_page, IsLive-invalidate_record, IsLive-Holds,
}
use viper_learned_index.Viper.Valid.Locks.{AllReleased, locked, lock_page-IsUnlocked}
use viper_learned_index.Viper.Client.{
  on_page, acquire, acquire_round, has_lock, delete_key, finish_free, free_occupied_slot,
}

module _ {I K V : Type 0} (E : Env I K V) where
  -- What the call leaves as it was.
  pub record Freed (s s' : Viper I K V) (o : ℕ) (m : I) : Type 0 where
    pub map_is : s'.map_ ≡ m
    pub num_same : s'.num_v_blocks ≡ s.num_v_blocks
    pub current_same : s'.current_block_page ≡ s.current_block_page
    pub size_same : s'.current_size ≡ s.current_size
    pub no_new_free : s'.free_blocks ≡ s.free_blocks
    pub records_same : (q : ℕ) → record_at s' q ≡ record_at s q
    pub lives : (n q : ℕ) → IsLive E s n q → q ≢ o → IsLive E s' n q
    pub locks : AllReleased s s'

  -- Two offsets with the same fields are one.
  pub apart :
      (o q : ℕ)
      → o < word
      → q < word
      → q ≢ o
      → block_number q ≡ block_number o
      → page_number q ≡ page_number o
      → data_offset q ≢ data_offset o
  unfolding block_number page_number data_offset
  apart o q ho hq ne b p d = absurd (omega arith)

  abbrev invalid : Viper I K V → ℕ → Viper I K V
  invalid s o = invalidate_record s (block_number o) (page_number o) (data_offset o)

  invalid-Freed : (s : Viper I K V) (o : ℕ) → o < word → Freed s (invalid s o) o s.map_
  unfolding invalidate_record Page.invalidate_record record_at
  invalid-Freed s o h = record {
    map_is = refl;
    num_same = refl;
    current_same = refl;
    size_same = refl;
    no_new_free = refl;
    records_same = λ q. ground arith;
    lives = λ n q l ne.
        IsLive-invalidate_record E s (block_number o) (page_number o) (data_offset o) n q l
          (apart o q h l.packed ne);
    locks = λ b p. inl (ground arith);
  }

  abbrev with_map : Viper I K V → I → Viper I K V
  with_map s m = record s { map_ = m }

  -- The index is replaced behind the call.
  with_map-Freed :
      (s s' : Viper I K V) (o : ℕ) (m : I) → Freed s s' o s.map_ → Freed s (with_map s' m) o m
  unfolding record_at
  with_map-Freed s s' o m h = record {
    map_is = refl;
    num_same = h.num_same;
    current_same = h.current_same;
    size_same = h.size_same;
    no_new_free = h.no_new_free;
    records_same = h.records_same;
    lives = λ n q l ne.
        let z = h.lives n q l ne in
        IsLive-kept E s' (with_map s' m) n q z (omega arith) (omega arith)
          (IsLive-Holds E s' n q z);
    locks = h.locks;
  }

  -- The record is freed while its page is locked.
  abbrev under_lock : Viper I K V → ℕ → Viper I K V
  under_lock s o =
      unlock_page (invalid (locked s (block_number o) (page_number o)) o) (block_number o)
        (page_number o)

  under_lock-Freed :
      (s : Viper I K V) (o : ℕ)
      → o < word
      → IsUnlocked (s.v_blocks (block_number o) (page_number o)).version_lock
      → Freed s (under_lock s o) o s.map_
  unfolding invalidate_record Page.invalidate_record unlock_page Page.unlock record_at
  under_lock-Freed s o h u =
      let v = (s.v_blocks (block_number o) (page_number o)).version_lock in
      let t = unlock-IsTaken (v + 1) (lock-IsUnlocked v u).1 in
      let i = invalid-Freed (locked s (block_number o) (page_number o)) o h in
      record {
        map_is = refl;
        num_same = refl;
        current_same = refl;
        size_same = refl;
        no_new_free = refl;
        records_same = λ q. ground arith;
        lives = λ n q l ne.
            IsLive-unlock_page E (invalid (locked s (block_number o) (page_number o)) o) _ _ n q
              (i.lives n q (IsLive-relock E s _ _ _ n q l) ne);
        locks = λ b p. elim (Bool-cases (b == block_number o && p == page_number o)) [
          | inl e ↦ inr ((ground arith, ground arith), (ground arith, ground arith))
          | inr e ↦ inl (ground arith)
        ];
      }

  -- What happens to the index entry of the key: `m` is the index behind the call.
  abbrev pub Deletes : Viper I K V → K → Bool → I → Type 0
  Deletes s key delete_offset m =
      (s' : Viper I K V)
      → s'.map_ ≡ s.map_
      → delete_key E s' key delete_offset ≡ some (with_map s' m)

  pub Deletes-kept : (s : Viper I K V) (key : K) → Deletes s key false s.map_
  unfolding delete_key
  Deletes-kept s key s' e = ap some (subst (λ m. s' ≡ with_map s' m) e refl)

  abbrev pub freed_client : Client → Client
  freed_client c = record c { size_delta = decrement c.size_delta }

  on_page-equal :
      (c : Client) (o : ℕ)
      → on_page c o ≡ true
      → (block_number o ≡ c.v_block_number) × (page_number o ≡ c.v_page_number)
  unfolding on_page
  on_page-equal c o h = (ground arith, ground arith)

  free_same_page :
      (fuel : ℕ) (s : Viper I K V) (c : Client) (o : ℕ) (key : K) (delete_offset : Bool) (m : I)
      → in_bounds E s o ≡ true
      → on_page c o ≡ true
      → Deletes s key delete_offset m
      → free_occupied_slot E fuel s c o key delete_offset
        ≡ some (with_map (invalid s o) m, freed_client c)
  unfolding free_occupied_slot invalidate_record
  free_same_page fuel s c o key delete_offset m b h d =
      let e = on_page-equal c o h in rw (b, h, sym e.0, sym e.1, d (invalid s o) refl) refl

  acquire_round-IsUnlocked :
      (s : Viper I K V) (c : Client) (o : ℕ) (inserted : Bool)
      → IsUnlocked (s.v_blocks (block_number o) (page_number o)).version_lock
      → acquire_round s c o inserted
        ≡ (invalid (locked s (block_number o) (page_number o)) o, has_lock)
  unfolding acquire_round
  acquire_round-IsUnlocked s c o inserted u =
      rw (acquire_round, lock_page-IsUnlocked s (block_number o) (page_number o) u) refl

  pub acquire-IsUnlocked :
      (fuel : ℕ) (s : Viper I K V) (c : Client) (o : ℕ) (inserted : Bool)
      → IsUnlocked (s.v_blocks (block_number o) (page_number o)).version_lock
      → acquire (suc fuel) s c o inserted
        ≡ some (invalid (locked s (block_number o) (page_number o)) o, true, inserted)
  unfolding acquire
  acquire-IsUnlocked fuel s c o inserted u =
      let round = acquire_round-IsUnlocked s c o inserted u in rw (acquire, round, round) refl

  invalid-map : (s : Viper I K V) (o : ℕ) → (invalid s o).map_ ≡ s.map_
  unfolding invalidate_record
  invalid-map s o = refl

  free_other_page :
      (fuel : ℕ) (s : Viper I K V) (c : Client) (o : ℕ) (key : K) (delete_offset : Bool) (m : I)
      → in_bounds E s o ≡ true
      → on_page c o ≡ false
      → IsUnlocked (s.v_blocks (block_number o) (page_number o)).version_lock
      → Deletes s key delete_offset m
      → free_occupied_slot E (suc fuel) s c o key delete_offset
        ≡ some (with_map (under_lock s o) m, freed_client c)
  unfolding free_occupied_slot finish_free unlock_page
  free_other_page fuel s c o key delete_offset m b h u d =
      let l = locked s (block_number o) (page_number o) in
      rw
        (
          free_occupied_slot,
          b,
          h,
          acquire-IsUnlocked fuel s c o false u,
          finish_free,
          d (invalid l o) (invalid-map l o),
        )
        refl

  -- The call ends, frees the slot, and leaves every other live record and every lock as it was.
  pub free_occupied_slot_lem :
      (fuel : ℕ) (s : Viper I K V) (c : Client) (o : ℕ) (key : K) (delete_offset : Bool) (m : I)
      → o < word
      → in_bounds E s o ≡ true
      → (on_page c o ≡ true) ⊎ IsUnlocked (s.v_blocks (block_number o) (page_number o)).version_lock
      → Deletes s key delete_offset m
      → Returns
          (free_occupied_slot E (suc fuel) s c o key delete_offset)
          λ r. Freed s r.0 o m × (r.1 ≡ freed_client c)
  free_occupied_slot_lem fuel s c o key delete_offset m w b u d = elim (Bool-cases (on_page c o)) [
    | inl e ↦ (
      _,
      free_same_page (suc fuel) s c o key delete_offset m b e d,
      (with_map-Freed s (invalid s o) o m (invalid-Freed s o w), refl),
    )
    | inr e ↦
        let u' : IsUnlocked (s.v_blocks (block_number o) (page_number o)).version_lock = elim u [
          | inl f ↦ absurd cc
          | inr f ↦ f
        ] in
        (
          _,
          free_other_page fuel s c o key delete_offset m b e u' d,
          (with_map-Freed s (under_lock s o) o m (under_lock-Freed s o w u'), refl),
        )
  ]
