-- ===== src/Viper/Access/Steps.antt =====
-- The steps by which a client takes a page keep the entries of the index and free every lock.
use viper_learned_index.Common.{ℕ, refl, inl, inr, arith, Bool-cases}
use viper_learned_index.Viper.Lock.{used_bit, is_locked, set_client, clear_client}
use viper_learned_index.Viper.Lock.Bits.{IsUnlocked, set_client-IsUnlocked, clear_client-IsUnlocked}
use viper_learned_index.Viper.Page
use viper_learned_index.Viper.Interface.{Env}
use viper_learned_index.Viper.State.{Viper, Client, record_at}
use viper_learned_index.Viper.Access.{
  add_v_page_blocks, allocate_v_page_blocks, resize, release_block, init_page, own_block,
}
use viper_learned_index.Viper.Valid.{Untouched, AllUnlocked}
use viper_learned_index.Viper.Valid.Live.{IsLive-set_page, IsLive-kept, IsLive-Holds}
use viper_learned_index.Viper.Valid.Kept.{Kept, Kept-refl, relock-Kept}

fresh_lock : IsUnlocked used_bit
unfolding is_locked
fresh_lock = (omega arith, refl)

module _ {I K V : Type 0} (E : Env I K V) where
  -- A page that no entry leads to is set up anew.
  pub init_page-Kept : (s : Viper I K V) (b p : ℕ) → Untouched E s b p → Kept E s (init_page s b p)
  unfolding init_page Page.init record_at
  init_page-Kept s b p u = record {
    map_same = refl;
    num_le = omega arith;
    current_same = refl;
    free_same = refl;
    records_same = λ q. ground arith;
    lives = λ n q a l.
        IsLive-set_page E s b p (Page.init (s.v_blocks b p)) n q l
          λ x y. elim (u n q a) [ inl ne ↦ absurd (ne x) | inr ne ↦ absurd (ne y) ];
  }

  pub init_page-AllUnlocked :
      (s : Viper I K V) (b p : ℕ) → AllUnlocked s → AllUnlocked (init_page s b p)
  unfolding init_page Page.init
  init_page-AllUnlocked s b p h b' p' =
      let u = h b' p' in let f = fresh_lock in (ground arith, ground arith)

  pub own_block-Kept : (s : Viper I K V) (b : ℕ) → Kept E s (own_block s b)
  unfolding own_block
  own_block-Kept s b = relock-Kept E s b 0 (set_client (s.v_blocks b 0).version_lock)

  pub own_block-AllUnlocked :
      (s : Viper I K V) (b : ℕ) → AllUnlocked s → AllUnlocked (own_block s b)
  unfolding own_block
  own_block-AllUnlocked s b h b' p' =
      let u = h b' p' in
      let f = set_client-IsUnlocked (s.v_blocks b 0).version_lock (h b 0) in
      (ground arith, ground arith)

  pub release_block-Kept : (s : Viper I K V) (c : Client) → Kept E s (release_block s c)
  unfolding release_block
  release_block-Kept s c = elim (Bool-cases c.has_block) [
    | inl e ↦ rw e (
        relock-Kept E s c.v_block_number 0
          (clear_client (s.v_blocks c.v_block_number 0).version_lock))
    | inr e ↦ rw e (Kept-refl E s)
  ]

  pub release_block-AllUnlocked :
      (s : Viper I K V) (c : Client) → AllUnlocked s → AllUnlocked (release_block s c)
  unfolding release_block
  release_block-AllUnlocked s c h b' p' =
      let u = h b' p' in
      let f =
        clear_client-IsUnlocked (s.v_blocks c.v_block_number 0).version_lock
          (h c.v_block_number 0) in
      elim (Bool-cases c.has_block) [ inl e ↦ rw e (ground arith, ground arith) | inr e ↦ rw e u ]

  pub resize-Kept : (s : Viper I K V) → Kept E s (resize E s)
  unfolding resize add_v_page_blocks allocate_v_page_blocks record_at
  resize-Kept s = record {
    map_same = refl;
    num_le = omega arith;
    current_same = refl;
    free_same = refl;
    records_same = λ q. refl;
    lives = λ n q a l.
        IsLive-kept E s (resize E s) n q l (omega arith) (omega arith) (IsLive-Holds E s n q l);
  }

  pub active-Kept : (s : Viper I K V) (n : ℕ) → Kept E s (record s { num_active_clients = n })
  unfolding record_at
  active-Kept s n = record {
    map_same = refl;
    num_le = omega arith;
    current_same = refl;
    free_same = refl;
    records_same = λ q. refl;
    lives = λ m q a l.
        IsLive-kept E s (record s { num_active_clients = n }) m q l (omega arith) (omega arith)
          (IsLive-Holds E s m q l);
  }
