-- ===== src/Viper/Client/Old.antt =====
-- The second half of `put`: the old record is freed, the page unlocked, the counters synchronised.
use viper_learned_index.Common.{
  ℕ, suc, ◌≡◌, refl, ◌≢◌, ◌⊎◌, inl, inr, Bool, true, false, some, arith, sym, subst, ◌∙◌,
  if◌then◌else◌, Returns, upd, eq_cases,
}
use viper_learned_index.Viper.Lock.Bits.{IsUnlocked}
use viper_learned_index.Viper.Offset.{block_number, page_number}
use viper_learned_index.Viper.Interface.{Env, IndexLaws}
use viper_learned_index.Viper.State.{Viper, Client, unlock_page, in_bounds}
use viper_learned_index.Viper.Access.{info_sync}
use viper_learned_index.Viper.Valid.{IsLive, IsAt, view, Owns, AllBut, IsSound, IsValid}
use viper_learned_index.Viper.Valid.Kept.{
  Kept, Kept-refl, Kept-view, Kept-Owns, Kept-trans, Kept-IsSound, unlock_page-Kept,
}
use viper_learned_index.Viper.Valid.Locks.{AllReleased, unlock_page-AllBut}
use viper_learned_index.Viper.Client.{on_page, free_occupied_slot}
use viper_learned_index.Viper.Client.Free.{freed_client, Deletes-kept, free_occupied_slot_lem}
use viper_learned_index.Viper.Client.Sync.{Synced-Owns, Freed-Kept, info_sync-Synced}

module _ {I K V : Type 0} (E : Env I K V) where
  pub IsLive-in_bounds : (s : Viper I K V) (n o : ℕ) → IsLive E s n o → in_bounds E s o ≡ true
  unfolding in_bounds
  IsLive-in_bounds s n o l =
      let a = l.block_lt in let b = l.page_lt in let c = l.slot_lt in ground arith

  -- A page other than the one that is locked is free.
  pub off_page-IsUnlocked :
      (s : Viper I K V) (c : Client) (o : ℕ)
      → AllBut s c.v_block_number c.v_page_number
      → (on_page c o ≡ true) ⊎ IsUnlocked (s.v_blocks (block_number o) (page_number o)).version_lock
  unfolding on_page
  off_page-IsUnlocked s c o h = elim (eq_cases (block_number o) c.v_block_number) [
    | inr ne ↦ inr (h.1 (block_number o) (page_number o) (inl ne))
    | inl e ↦ elim (eq_cases (page_number o) c.v_page_number) [
      | inr ne ↦ inr (h.1 (block_number o) (page_number o) (inr ne))
      | inl f ↦ inl (ground arith)
    ]
  ]

  -- Behind the step that frees the old record.
  pub record Replaced (s : Viper I K V) (c : Client) (frees : Bool) (r : Viper I K V × Client)
      : Type 0 where
    pub kept : Kept E s r.0
    pub locks : AllReleased s r.0
    pub size_same : r.0.current_size ≡ s.current_size
    pub client : r.1 ≡ (if frees then freed_client E c else c)

  pub free_old_lem :
      (fuel : ℕ) (s : Viper I K V) (c : Client) (old : ℕ) (key : K) (frees : Bool)
      → (frees ≡ true → IsLive E s (E.get_key key) old × ((n : ℕ) → IsAt E s n old → ⊥))
      → AllBut s c.v_block_number c.v_page_number
      → Returns
          (if frees then free_occupied_slot E (suc fuel) s c old key false else some (s, c))
          (Replaced s c frees)
  free_old_lem fuel s c old key true k h =
      let l = (k refl).0 in
      let r =
        free_occupied_slot_lem E fuel s c old key false s.map_ l.packed
          (IsLive-in_bounds s (E.get_key key) old l) (off_page-IsUnlocked s c old h)
          (Deletes-kept E s key) in
      (
        r.0,
        r.1,
        record {
          kept = Freed-Kept E s r.0.0 old r.2.0 (k refl).1;
          locks = r.2.0.locks;
          size_same = r.2.0.size_same;
          client = r.2.1;
        },
      )
  free_old_lem fuel s c old key false k h = (
    (s, c),
    refl,
    record { kept = Kept-refl E s; locks = λ b p. inl refl; size_same = refl; client = refl },
  )

module _ {I K V : Type 0} (E : Env I K V) (L : IndexLaws E.index) where
  -- What a call of `put` gives: the new state and client, and whether the key was new.
  pub record Wrote (s : Viper I K V) (c : Client) (key : K) (value : V)
      (r : Viper I K V × Client × Bool) : Type 0 where
    pub valid : IsValid E L r.0
    pub owns : Owns E r.0 r.1
    pub reads : view E r.0 ≡ upd (view E s) (E.get_key key) (some value)
    pub others : (d : Client) → Owns E s d → d.v_block_number ≢ c.v_block_number → Owns E r.0 d
    pub place : r.1.v_block_number ≡ c.v_block_number
    pub current_same : r.0.current_block_page ≡ s.current_block_page

  -- From the unlocking on.
  pub finish_lem :
      (s s2 q : Viper I K V) (c d : Client) (key : K) (value : V) (b : Bool)
      → Kept E s2 q
      → IsSound E L s2
      → AllBut q c.v_block_number c.v_page_number
      → Owns E s2 d
      → (d.v_block_number ≡ c.v_block_number)
      → view E s2 ≡ upd (view E s) (E.get_key key) (some value)
      → ((d : Client) → Owns E s d → d.v_block_number ≢ c.v_block_number → Owns E s2 d)
      → s2.current_block_page ≡ s.current_block_page
      → let r = info_sync E (unlock_page q c.v_block_number c.v_page_number) d false in
        Wrote s c key value (r.0, r.1, b)
  finish_lem s s2 q c d key value b k w a o pl v others cs =
      let u = unlock_page q c.v_block_number c.v_page_number in
      let y = info_sync-Synced E u d false in
      let r = info_sync E u d false in
      let k' =
        Kept-trans E s2 u r.0
          (Kept-trans E s2 q u k (unlock_page-Kept E q c.v_block_number c.v_page_number)) y.kept in
      record {
        valid = record {
          sound = Kept-IsSound E L s2 r.0 k' w;
          unlocked =
              subst (λ m. (b p : ℕ) → IsUnlocked (m b p).version_lock) (sym y.blocks_same)
                (unlock_page-AllBut q c.v_block_number c.v_page_number a);
        };
        owns = Synced-Owns E u d r y (Kept-Owns E s2 r.0 d k' o);
        reads = Kept-view E s2 r.0 k' ∙ v;
        others = λ e oe ne. Kept-Owns E s2 r.0 e k' (others e oe ne);
        place = y.place ∙ pl;
        current_same = k'.current_same ∙ cs;
      }
