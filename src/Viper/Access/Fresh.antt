-- ===== src/Viper/Access/Fresh.antt =====
-- `get_new_access_information` and `update_access_information` give a client an empty page.
use viper_learned_index.Common.{
  ℕ, ◌+◌, ◌%◌, ◌^◌, ◌≤◌, ◌<◌, ◌≡◌, refl, ◌≢◌, inl, inr, true, some, arith, ap, sym, subst, ◌∙◌,
  lt→ltb, if◌then◌else◌, Bool-cases, [], Returns,
}
use viper_learned_index.Viper.Lock.Bits.{IsUnlocked}
use viper_learned_index.Viper.Offset.{pack, block_number, page_number}
use viper_learned_index.Viper.Interface.{Env, IndexLaws}
use viper_learned_index.Viper.State.{Viper, Client, record_at}
use viper_learned_index.Viper.Access.{
  trigger_resize, wait_for_block, get_new_block, take_block, enter_block, get_block_based_access,
  info_sync, get_new_access_information,
}
use viper_learned_index.Viper.Access.Block.{
  handed, handed-block, handed-Owns, handed-IsSound, next_block-Untouched, flagged-Kept,
  entered-Kept, entered-AllUnlocked, entered-Owns, wait_for_block_lem,
}
use viper_learned_index.Viper.Valid.{Sizes, Untouched, view, Owns, AllUnlocked, IsSound, IsValid}
use viper_learned_index.Viper.Valid.Kept.{
  Kept, Kept-refl, Kept-IsAt, Kept-view, Kept-Owns, Kept-trans, Kept-IsSound,
}
use viper_learned_index.Viper.Client.Sync.{info_sync-Synced}

module _ {I K V : Type 0} (E : Env I K V) (L : IndexLaws E.index) where
  -- A client has an empty page, the store reads as before, and the clients of the blocks of `P`
  -- keep theirs.
  pub record Fresh (s : Viper I K V) (P : ℕ → Type 0) (r : Viper I K V × Client) : Type 0 where
    pub valid : IsValid E L r.0
    pub owns : Owns E r.0 r.1
    pub reads : view E r.0 ≡ view E s
    pub untouched : Untouched E r.0 r.1.v_block_number r.1.v_page_number
    pub others :
        (d : Client)
        → Owns E s d
        → P d.v_block_number
        → Owns E r.0 d × (d.v_block_number ≢ r.1.v_block_number)
    pub current_le : block_number r.0.current_block_page ≤ block_number s.current_block_page + 1

  -- Behind `take_block`, the steps of `enter_block`.
  enter_lem :
      (P : ℕ → Type 0) (z : Sizes E) (s : Viper I K V) (c : Client) (page seed : ℕ)
      → block_number s.current_block_page + 1 < 2 ^ 45
      → page < E.num_pages_per_block
      → block_number s.current_block_page < s.num_v_blocks
      → IsSound E L s
      → AllUnlocked s
      → Fresh s P (
          enter_block
            (handed E s page seed)
            c
            (block_number s.current_block_page)
            (page_number s.current_block_page))
  unfolding record_at enter_block
  enter_lem P z s c page seed room lt nb w a =
      let z1 = z.few_pages in
      let b = block_number s.current_block_page in
      let p = page_number s.current_block_page in
      let h = handed E s page seed in
      let e = handed-block E s page seed room (omega arith) in
      let e0 = e.0 in
      let u : (q : ℕ) → Untouched E h b q = λ q. next_block-Untouched E s q w.entries in
      let k = entered-Kept E h c b p (u p) in
      record {
        valid = record {
          sound =
              Kept-IsSound E L h (enter_block h c b p).0 k
                (handed-IsSound E L z s page seed room lt nb w);
          unlocked = entered-AllUnlocked E h c b p a;
        };
        owns = entered-Owns E h c b p nb (omega arith) w.current_page u;
        reads = Kept-view E h (enter_block h c b p).0 k;
        untouched = λ n o a. u p n o (Kept-IsAt E h (enter_block h c b p).0 k n o a);
        others = λ d w ne. (
          Kept-Owns E h (enter_block h c b p).0 d k
              (handed-Owns E s page seed d room (omega arith) w),
          (let x = w.handed_out in λ q. omega arith),
        );
        current_le = rw k.current_same (omega arith);
      }

  -- Steps that change no entry before, and none of the client's place.
  pub Fresh-after :
      (P : ℕ → Type 0) (s s' : Viper I K V) (r : Viper I K V × Client)
      → Kept E s s'
      → Fresh s' P r
      → Fresh s P r
  Fresh-after P s s' r k f = record {
    valid = f.valid;
    owns = f.owns;
    reads = f.reads ∙ Kept-view E s s' k;
    untouched = f.untouched;
    others = λ d w ne. f.others d (Kept-Owns E s s' d k w) ne;
    current_le = let l = f.current_le in rw (sym k.current_same) l;
  }

  -- The state behind the hand-out, in terms of the block that was current.
  abbrev entered : Viper I K V → Client → ℕ → Viper I K V × Client
  entered s c raw =
      let r = E.rand s.rand_state in
      enter_block
        (record s {
          current_block_page = pack (block_number raw + 1) (r.0 % E.num_pages_per_block) 0;
          rand_state = r.1;
        })
        c (block_number raw) (page_number raw)

  block_based_run :
      (s s' : Viper I K V) (c : Client)
      → s.free_blocks ≡ []
      → wait_for_block E s (block_number s.current_block_page) ≡ some s'
      → block_number s.current_block_page < s'.num_v_blocks
      → get_block_based_access E s c ≡ some (entered s' c s.current_block_page)
  unfolding get_block_based_access take_block get_new_block
  block_based_run s s' c f e lt =
      rw
        (
          get_block_based_access,
          take_block,
          f,
          get_new_block,
          e,
          lt→ltb (block_number s.current_block_page) s'.num_v_blocks lt,
        )
        refl

  block_based_lem :
      (P : ℕ → Type 0) (z : Sizes E) (s : Viper I K V) (c : Client)
      → block_number s.current_block_page + 1 < 2 ^ 45
      → (s.num_v_blocks ≤ block_number s.current_block_page → s.is_resizing ≡ true)
      → IsSound E L s
      → AllUnlocked s
      → Returns (get_block_based_access E s c) (Fresh s P)
  block_based_lem P z s c room pending w a =
      let q = wait_for_block_lem E z s (block_number s.current_block_page) w.current_le pending in
      let s' = q.0 in
      let k = q.2.0 in
      let n = E.rand s'.rand_state in
      let z1 = z.some_page in
      let e = k.current_same in
      let more = q.2.2 in
      (
        entered s' c s'.current_block_page,
        block_based_run s s' c w.no_free_blocks q.1 q.2.2 ∙ ap (λ o. some (entered s' c o)) (sym e),
        Fresh-after P s s' (entered s' c s'.current_block_page) k (
            enter_lem P z s' c (n.0 % E.num_pages_per_block) n.1 (rw e room) (omega arith)
              (rw e more) (Kept-IsSound E L s s' k w)
              (subst (λ m. (b p : ℕ) → IsUnlocked (m b p).version_lock) (sym q.2.1) a)),
      )

  abbrev triggered : Viper I K V → Viper I K V
  triggered s =
      if E.past_resize_threshold (block_number s.current_block_page) s.num_v_blocks
      then trigger_resize s
      else s

  triggered-Kept : (s : Viper I K V) → Kept E s (triggered s)
  unfolding trigger_resize
  triggered-Kept s =
      elim (Bool-cases
        (E.past_resize_threshold (block_number s.current_block_page) s.num_v_blocks)) [
          | inl e ↦ rw e (flagged-Kept E s true s.num_used_blocks)
          | inr e ↦ rw e (Kept-refl E s)
        ]

  triggered-AllUnlocked : (s : Viper I K V) → AllUnlocked s → AllUnlocked (triggered s)
  unfolding trigger_resize
  triggered-AllUnlocked s a b p =
      elim (Bool-cases
        (E.past_resize_threshold (block_number s.current_block_page) s.num_v_blocks)) [
          | inl e ↦ rw e (a b p)
          | inr e ↦ rw e (a b p)
        ]

  -- A resize is on its way when the blocks are used up.
  triggered-pending :
      (z : Sizes E) (s : Viper I K V)
      → 0 < s.num_v_blocks
      → (triggered s).num_v_blocks ≤ block_number (triggered s).current_block_page
      → (triggered s).is_resizing ≡ true
  unfolding trigger_resize
  triggered-pending z s h le =
      let k = triggered-Kept s in
      let n = k.num_le in
      let past =
        z.threshold (block_number s.current_block_page) s.num_v_blocks h
          (let e = ap block_number k.current_same in omega arith) in
      rw past refl

  -- A client gets an empty page of a block of its own.
  pub get_new_access_information_lem :
      (P : ℕ → Type 0) (z : Sizes E) (s : Viper I K V) (c : Client)
      → block_number s.current_block_page + 1 < 2 ^ 45
      → IsSound E L s
      → AllUnlocked s
      → Returns (get_new_access_information E s c) (Fresh s P)
  unfolding get_new_access_information
  get_new_access_information_lem P z s c room w a =
      let r = info_sync E s c true in
      let y = info_sync-Synced E s c true in
      let s1 = triggered r.0 in
      let k = Kept-trans E s r.0 s1 y.kept (triggered-Kept r.0) in
      let e = k.current_same in
      let a' : AllUnlocked r.0 =
        subst (λ m. (b p : ℕ) → IsUnlocked (m b p).version_lock) (sym y.blocks_same) a in
      let f =
        block_based_lem P z s1 r.1 (rw e room)
          (triggered-pending z r.0 (Kept-IsSound E L s r.0 y.kept w).some_block)
          (Kept-IsSound E L s s1 k w) (triggered-AllUnlocked r.0 a') in
      (f.0, f.1, Fresh-after P s s1 f.0 k f.2)
