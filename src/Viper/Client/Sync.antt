-- ===== src/Viper/Client/Sync.antt =====
-- `info_sync` and a freed slot keep the entries of the index.
use viper_learned_index.Common.{
  ℕ, zero, suc, ◌+◌, ◌-◌, ◌%◌, ◌^◌, ◌<◌, ◌≡◌, refl, inl, inr, Bool, true, ◌||◌, arith, sym, subst,
  ◌∙◌, Bool-cases, ltb, ◌==◌, word,
}
use viper_learned_index.Viper.Page.{find_first}
use viper_learned_index.Viper.Interface.{Env}
use viper_learned_index.Viper.State.{Viper, Client, record_at}
use viper_learned_index.Viper.Access.{trigger_reclaim, sync_reclaims, info_sync}
use viper_learned_index.Viper.Valid.{IsAt, Owns}
use viper_learned_index.Viper.Valid.Live.{IsLive-kept, IsLive-Holds}
use viper_learned_index.Viper.Valid.Kept.{Kept}
use viper_learned_index.Viper.Client.Free.{Freed}

module _ {I K V : Type 0} (E : Env I K V) where
  -- Only counters and flags differ.
  abbrev pub counted : Viper I K V → ℕ → ℕ → Bool → Viper I K V
  counted s size ops flag = record s {
    current_size = size;
    reclaimable_ops = ops;
    is_reclaiming = flag;
  }

  counted-Kept : (s : Viper I K V) (size ops : ℕ) (flag : Bool) → Kept E s (counted s size ops flag)
  unfolding record_at
  counted-Kept s size ops flag = record {
    map_same = refl;
    num_le = omega arith;
    current_same = refl;
    free_same = refl;
    records_same = λ q. refl;
    lives = λ n q a l.
        IsLive-kept E s (counted s size ops flag) n q l (omega arith) (omega arith)
          (IsLive-Holds E s n q l);
  }

  -- What `info_sync` may change of the store and of the client.
  pub record Synced (s : Viper I K V) (c : Client) (r : Viper I K V × Client) : Type 0 where
    pub kept : Kept E s r.0
    pub blocks_same : r.0.v_blocks ≡ s.v_blocks
    pub resizing_same : r.0.is_resizing ≡ s.is_resizing
    pub used_same : r.0.num_used_blocks ≡ s.num_used_blocks
    pub place : (r.1.v_block_number ≡ c.v_block_number)
    pub page : (r.1.v_page_number ≡ c.v_page_number)
    pub processed : (r.1.num_v_pages_processed ≡ c.num_v_pages_processed)
    pub based : (r.1.strategy ≡ c.strategy)
    pub placed : (r.1.has_block ≡ c.has_block)

  sync_reclaims-counted :
      (s : Viper I K V) (n : ℕ)
      → (ops : ℕ) × (flag : Bool) × (sync_reclaims E s n ≡ counted s s.current_size ops flag)
  unfolding sync_reclaims trigger_reclaim
  sync_reclaims-counted s n =
      let r = (s.reclaimable_ops + n) % word in
      elim (Bool-cases E.enable_reclamation) [
        | inr e ↦ (s.reclaimable_ops, s.is_reclaiming, rw e refl)
        | inl e ↦ elim (Bool-cases (ltb E.reclaim_threshold r)) [
          | inr f ↦ (r, s.is_reclaiming, rw (e, f) refl)
          | inl f ↦ elim (Bool-cases s.is_reclaiming) [
            | inl g ↦ (r, s.is_reclaiming, rw (e, f, g) refl)
            | inr g ↦ ((r + word - r) % word, true, rw (e, f, g) refl)
          ]
        ]
      ]

  -- Counters of the client differ.
  abbrev pub recounted : Client → ℕ → ℕ → ℕ → Client
  recounted c ops reclaimable delta = record c {
    op_count = ops;
    num_reclaimable_ops = reclaimable;
    size_delta = delta;
  }

  -- The records that the store and the client have counted, on 64 bits.
  abbrev pub total : Viper I K V × Client → ℕ
  total r = (r.0.current_size + r.1.size_delta) % word

  info_sync-counted :
      (s : Viper I K V) (c : Client) (force : Bool)
      → (size : ℕ) × (ops : ℕ) × (flag : Bool) × (count : ℕ) × (reclaimable : ℕ) × (delta : ℕ)
        × (info_sync E s c force ≡ (counted s size ops flag, recounted c count reclaimable delta))
        × ((size + delta) % word ≡ (s.current_size + c.size_delta) % word)
  unfolding info_sync
  info_sync-counted s c force =
      let size = (s.current_size + c.size_delta) % word in
      let q = sync_reclaims-counted (record s { current_size = size }) c.num_reclaimable_ops in
      elim (Bool-cases (force || (c.op_count + 1) % 2 ^ 16 == 10000)) [
        | inl e ↦ (size, q.0, q.1, 0, 0, 0, rw (e, q.2) refl, omega arith)
        | inr e ↦ (
          s.current_size,
          s.reclaimable_ops,
          s.is_reclaiming,
          (c.op_count + 1) % 2 ^ 16,
          c.num_reclaimable_ops,
          c.size_delta,
          rw e refl,
          refl,
        )
      ]

  pub info_sync-total :
      (s : Viper I K V) (c : Client) (force : Bool) → total (info_sync E s c force) ≡ total (s, c)
  info_sync-total s c force = let q = info_sync-counted s c force in let e = q.6 in rw e q.7

  pub info_sync-Synced :
      (s : Viper I K V) (c : Client) (force : Bool) → Synced s c (info_sync E s c force)
  info_sync-Synced s c force =
      let q = info_sync-counted s c force in
      subst (λ r. Synced s c r) (sym q.6)
        (record {
          kept = counted-Kept s q.0 q.1 q.2;
          blocks_same = refl;
          resizing_same = refl;
          used_same = refl;
          place = refl;
          page = refl;
          processed = refl;
          based = refl;
          placed = refl;
        })

  -- The client's pages stay its own.
  pub Synced-Owns :
      (s : Viper I K V) (c : Client) (r : Viper I K V × Client)
      → Synced s c r
      → Owns E r.0 c
      → Owns E r.0 r.1
  Synced-Owns s c r y w =
      let n = y.place in
      let p = y.page in
      let o = y.processed in
      record {
        based = y.based ∙ w.based;
        placed = y.placed ∙ w.placed;
        block_lt = let h = w.block_lt in rw n h;
        handed_out = let h = w.handed_out in rw n h;
        page_lt = let h = w.page_lt in rw p h;
        processed = let h = w.processed in rw o h;
        fresh = let h = w.fresh in rw (n, p, o) h;
      }

  -- Freeing a slot that no entry leads to.
  pub Freed-Kept :
      (s s' : Viper I K V) (o : ℕ)
      → Freed E s s' o s.map_
      → ((n : ℕ) → IsAt E s n o → ⊥)
      → Kept E s s'
  Freed-Kept s s' o f gone = record {
    map_same = f.map_is;
    num_le = let e = f.num_same in omega arith;
    current_same = f.current_same;
    free_same = f.no_new_free;
    records_same = f.records_same;
    lives = λ n q a l. f.lives n q l (λ e. gone n (subst (λ x. IsAt E s n x) e a));
  }

-- `_Find_first` gives a free slot or the number of slots, and finds one where all are free.
pub find_first-slot :
    (f : ℕ → Bool) (n i : ℕ) → find_first f n i < i + n → f (find_first f n i) ≡ true
unfolding find_first
find_first-slot f zero i h = absurd (omega arith)
find_first-slot f (suc n) i h = elim (Bool-cases (f i)) [
  | inl e ↦ rw (e, e) refl
  | inr e ↦ ground (arith, find_first-slot f n (i + 1))
]

pub find_first-free : (f : ℕ → Bool) (n i : ℕ) → 0 < n → f i ≡ true → find_first f n i ≡ i
unfolding find_first
find_first-free f zero i l h = absurd (omega arith)
find_first-free f (suc n) i l h = rw h refl
