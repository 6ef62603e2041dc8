-- ===== src/Viper/Valid/Live.antt =====
-- The steps that keep a live record live.
use viper_learned_index.Common.{ℕ, ◌≤◌, ◌≡◌, ◌≢◌, true, false, arith, subst}
use viper_learned_index.Viper.Page
use viper_learned_index.Viper.Page.{Page}
use viper_learned_index.Viper.Offset.{block_number, page_number, data_offset}
use viper_learned_index.Viper.Interface.{Env}
use viper_learned_index.Viper.State.{
  Viper, set_page, record_at, write_record, invalidate_record, unlock_page,
}
use viper_learned_index.Viper.Valid.{IsLive}

module _ {I K V : Type 0} (E : Env I K V) where
  -- What a page has at the slot of a live record.
  abbrev pub Holds : Page K V → ℕ → ℕ → Type 0
  Holds page slot n = (page.free_slots slot ≡ false) × (E.get_key (page.records slot).0 ≡ n)

  pub IsLive-Holds :
      (s : Viper I K V) (n o : ℕ)
      → IsLive E s n o
      → Holds (s.v_blocks (block_number o) (page_number o)) (data_offset o) n
  unfolding record_at
  IsLive-Holds s n o h = (h.is_used, h.keyed)

  pub Holds-at :
      (s : Viper I K V) (b p n o : ℕ)
      → IsLive E s n o
      → block_number o ≡ b
      → page_number o ≡ p
      → Holds (s.v_blocks b p) (data_offset o) n
  Holds-at s b p n o h x y =
      subst (λ i. Holds (s.v_blocks i p) (data_offset o) n) x
        (subst (λ i. Holds (s.v_blocks (block_number o) i) (data_offset o) n) y
          (IsLive-Holds s n o h))

  -- A live record stays live where its page holds it and the blocks do not become fewer.
  pub IsLive-kept :
      (s s' : Viper I K V) (n o : ℕ)
      → IsLive E s n o
      → s.num_v_blocks ≤ s'.num_v_blocks
      → block_number s.current_block_page ≤ block_number s'.current_block_page
      → Holds (s'.v_blocks (block_number o) (page_number o)) (data_offset o) n
      → IsLive E s' n o
  unfolding record_at
  IsLive-kept s s' n o h m c k = record {
    packed = h.packed;
    block_lt = let e = h.block_lt in omega arith;
    page_lt = h.page_lt;
    slot_lt = h.slot_lt;
    handed_out = let e = h.handed_out in omega arith;
    is_used = k.0;
    keyed = k.1;
  }

  -- A page is replaced, which holds the record where it had it.
  pub IsLive-set_page :
      (s : Viper I K V) (b p : ℕ) (page : Page K V) (n o : ℕ)
      → IsLive E s n o
      → (block_number o ≡ b → page_number o ≡ p → Holds page (data_offset o) n)
      → IsLive E (set_page s b p page) n o
  IsLive-set_page s b p page n o h k =
      let e = IsLive-Holds s n o h in
      IsLive-kept s (set_page s b p page) n o h (omega arith) (omega arith) (ground (arith, k))

  -- A page is replaced by one that differs in the lock.
  pub IsLive-relock :
      (s : Viper I K V) (b p v : ℕ) (n o : ℕ)
      → IsLive E s n o
      → IsLive E (set_page s b p (record (s.v_blocks b p) { version_lock = v })) n o
  IsLive-relock s b p v n o h =
      IsLive-set_page s b p (record (s.v_blocks b p) { version_lock = v }) n o h
        λ x y. Holds-at s b p n o h x y

  pub IsLive-unlock_page :
      (s : Viper I K V) (b p n o : ℕ) → IsLive E s n o → IsLive E (unlock_page s b p) n o
  unfolding unlock_page Page.unlock
  IsLive-unlock_page s b p n o h = IsLive-relock s b p _ n o h

  -- The slot that is freed is another one.
  pub IsLive-invalidate_record :
      (s : Viper I K V) (b p t n o : ℕ)
      → IsLive E s n o
      → (block_number o ≡ b → page_number o ≡ p → data_offset o ≢ t)
      → IsLive E (invalidate_record s b p t) n o
  unfolding invalidate_record Page.invalidate_record
  IsLive-invalidate_record s b p t n o h k =
      IsLive-set_page s b p _ n o h
        λ x y. let z = k x y in let e' = Holds-at s b p n o h x y in (ground arith, e'.1)

  -- The slot that is written is another one.
  pub IsLive-write_record :
      (s : Viper I K V) (b p t : ℕ) (key : K) (value : V) (n o : ℕ)
      → IsLive E s n o
      → (s.v_blocks b p).free_slots t ≡ true
      → IsLive E (write_record s b p t key value) n o
  unfolding write_record Page.write_record
  IsLive-write_record s b p t key value n o h free = IsLive-set_page s b p _ n o h λ x y.
      let e' = Holds-at s b p n o h x y in
      let z : data_offset o ≢ t = λ q. absurd (ground (arith, e'.0)) in (ground arith, ground arith)
