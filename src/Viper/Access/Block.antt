-- ===== src/Viper/Access/Block.antt =====
-- `get_new_access_information`: a client gets a block that nobody has written to.
use viper_learned_index.Common.{
  ℕ, ◌+◌, ◌/◌, ◌^◌, ◌≤◌, ◌<◌, ◌≡◌, refl, inl, inr, Bool, true, arith, sym, subst, lt→ltb, le→ltb,
  Returns, lt_cases,
}
use viper_learned_index.Viper.Offset.{pack, block_number, page_number}
use viper_learned_index.Viper.Offset.Fields.{block_number-pack, page_number-pack}
use viper_learned_index.Viper.Interface.{Env, IndexLaws}
use viper_learned_index.Viper.State.{Viper, Client, record_at}
use viper_learned_index.Viper.Access.{
  add_v_page_blocks, allocate_v_page_blocks, resize, wait_for_block, release_block, init_page,
  own_block, enter_block,
}
use viper_learned_index.Viper.Access.Steps.{
  init_page-Kept, init_page-AllUnlocked, own_block-Kept, own_block-AllUnlocked, release_block-Kept,
  release_block-AllUnlocked, resize-Kept,
}
use viper_learned_index.Viper.Valid.{Sizes, IsLive, IsAt, Untouched, Owns, AllUnlocked, IsSound}
use viper_learned_index.Viper.Valid.Live.{IsLive-kept, IsLive-Holds}
use viper_learned_index.Viper.Valid.Kept.{Kept, Kept-refl, Kept-IsAt, Kept-trans}

module _ {I K V : Type 0} (E : Env I K V) where
  -- The next block is handed out.
  abbrev pub handed : Viper I K V → ℕ → ℕ → Viper I K V
  handed s page seed = record s {
    current_block_page = pack (block_number s.current_block_page + 1) page 0;
    rand_state = seed;
  }

  -- No entry leads to a block that is yet to be handed out.
  pub next_block-Untouched :
      (s : Viper I K V) (p : ℕ)
      → ((n o : ℕ) → IsAt E s n o → IsLive E s n o)
      → Untouched E s (block_number s.current_block_page) p
  next_block-Untouched s p h n o a = let l = (h n o a).handed_out in inl (λ e. absurd (omega arith))

  pub handed-block :
      (s : Viper I K V) (page seed : ℕ)
      → block_number s.current_block_page + 1 < 2 ^ 45
      → page < 2 ^ 3
      → (block_number (handed s page seed).current_block_page
          ≡ block_number s.current_block_page + 1)
        × (page_number (handed s page seed).current_block_page ≡ page)
  handed-block s page seed h k = (
    block_number-pack (block_number s.current_block_page + 1) page 0 (h, k, omega arith),
    page_number-pack (block_number s.current_block_page + 1) page 0 (h, k, omega arith),
  )

  pub handed-IsLive :
      (s : Viper I K V) (page seed n o : ℕ)
      → block_number s.current_block_page + 1 < 2 ^ 45
      → page < 2 ^ 3
      → IsLive E s n o
      → IsLive E (handed s page seed) n o
  handed-IsLive s page seed n o h k l =
      let e = (handed-block s page seed h k).0 in
      IsLive-kept E s (handed s page seed) n o l (omega arith) (omega arith)
        (IsLive-Holds E s n o l)

  pub handed-Owns :
      (s : Viper I K V) (page seed : ℕ) (c : Client)
      → block_number s.current_block_page + 1 < 2 ^ 45
      → page < 2 ^ 3
      → Owns E s c
      → Owns E (handed s page seed) c
  handed-Owns s page seed c h k w = record {
    based = w.based;
    placed = w.placed;
    block_lt = w.block_lt;
    handed_out = let e = (handed-block s page seed h k).0 in let x = w.handed_out in omega arith;
    page_lt = w.page_lt;
    processed = w.processed;
    fresh = w.fresh;
  }

  -- Flags and counts differ.
  abbrev pub flagged : Viper I K V → Bool → ℕ → Viper I K V
  flagged s flag used = record s { is_resizing = flag; num_used_blocks = used }

  pub flagged-Kept : (s : Viper I K V) (flag : Bool) (used : ℕ) → Kept E s (flagged s flag used)
  unfolding record_at
  flagged-Kept s flag used = record {
    map_same = refl;
    num_le = omega arith;
    current_same = refl;
    free_same = refl;
    records_same = λ q. refl;
    lives = λ n q a l.
        IsLive-kept E s (flagged s flag used) n q l (omega arith) (omega arith)
          (IsLive-Holds E s n q l);
  }

  -- Behind the steps that set up the block `b` for a client.
  pub entered-Kept :
      (s : Viper I K V) (c : Client) (b p : ℕ)
      → Untouched E s b p
      → Kept E s (enter_block s c b p).0
  unfolding enter_block
  entered-Kept s c b p u =
      let s1 = release_block s c in
      let k1 = release_block-Kept E s c in
      let s2 = init_page s1 b p in
      let k2 = init_page-Kept E s1 b p (λ n o a. u n o (Kept-IsAt E s s1 k1 n o a)) in
      let s3 = own_block s2 b in
      let k3 = own_block-Kept E s2 b in
      Kept-trans E s s3 (flagged s3 s3.is_resizing (s3.num_used_blocks + 1))
        (Kept-trans E s s2 s3 (Kept-trans E s s1 s2 k1 k2) k3)
        (flagged-Kept s3 s3.is_resizing (s3.num_used_blocks + 1))

  pub entered-AllUnlocked :
      (s : Viper I K V) (c : Client) (b p : ℕ) → AllUnlocked s → AllUnlocked (enter_block s c b p).0
  unfolding enter_block
  entered-AllUnlocked s c b p h =
      own_block-AllUnlocked E (init_page (release_block s c) b p) b
        (init_page-AllUnlocked E (release_block s c) b p (release_block-AllUnlocked E s c h))

  pub entered-Owns :
      (s : Viper I K V) (c : Client) (b p : ℕ)
      → b < s.num_v_blocks
      → b < block_number s.current_block_page
      → p < E.num_pages_per_block
      → ((q : ℕ) → Untouched E s b q)
      → Owns E (enter_block s c b p).0 (enter_block s c b p).1
  unfolding enter_block
  entered-Owns s c b p nb cb lp u =
      let k = entered-Kept s c b p (u p) in
      let kn = k.num_le in
      let kc = k.current_same in
      record {
        based = refl;
        placed = refl;
        block_lt = omega arith;
        handed_out = subst (λ o. b < block_number o) (sym kc) cb;
        page_lt = lp;
        processed = omega arith;
        fresh = λ q lt ne d n o a. u q n o (Kept-IsAt E s (enter_block s c b p).0 k n o a);
      }

  resized :
      (s : Viper I K V) (b : ℕ)
      → b ≤ s.num_v_blocks
      → 0 < E.alloc_size / E.block_size
      → b < (resize E s).num_v_blocks
  unfolding resize add_v_page_blocks allocate_v_page_blocks
  resized s b h z = omega arith

  resized-blocks : (s : Viper I K V) → (resize E s).v_blocks ≡ s.v_blocks
  unfolding resize add_v_page_blocks allocate_v_page_blocks
  resized-blocks s = refl

  -- The wait ends, where a thread that resizes is on its way if the blocks are used up.
  pub wait_for_block_lem :
      (z : Sizes E) (s : Viper I K V) (b : ℕ)
      → b ≤ s.num_v_blocks
      → (s.num_v_blocks ≤ b → s.is_resizing ≡ true)
      → Returns
          (wait_for_block E s b)
          λ s'. Kept E s s' × (s'.v_blocks ≡ s.v_blocks) × (b < s'.num_v_blocks)
  unfolding wait_for_block
  wait_for_block_lem z s b h r =
      let z1 = z.chunk in
      elim (lt_cases b s.num_v_blocks) [
        | inl lt ↦ (s, rw (lt→ltb b s.num_v_blocks lt) refl, (Kept-refl E s, refl, lt))
        | inr le ↦
            let more : b < (resize E s).num_v_blocks = resized s b h z1 in
            (
              resize E s,
              rw (le→ltb b s.num_v_blocks le, r le, lt→ltb b (resize E s).num_v_blocks more) refl,
              (resize-Kept E s, resized-blocks s, more),
            )
      ]

module _ {I K V : Type 0} (E : Env I K V) (L : IndexLaws E.index) where
  pub handed-IsSound :
      (z : Sizes E) (s : Viper I K V) (page seed : ℕ)
      → block_number s.current_block_page + 1 < 2 ^ 45
      → page < E.num_pages_per_block
      → block_number s.current_block_page < s.num_v_blocks
      → IsSound E L s
      → IsSound E L (handed E s page seed)
  handed-IsSound z s page seed h p lt w =
      let z1 = z.few_pages in
      let k : page < 2 ^ 3 = omega arith in
      let e = handed-block E s page seed h k in
      let e0 = e.0 in
      let e1 = e.1 in
      record {
        index_valid = w.index_valid;
        entries = λ n o a. handed-IsLive E s page seed n o h k (w.entries n o a);
        no_free_blocks = w.no_free_blocks;
        some_block = w.some_block;
        current_le = omega arith;
        current_page = omega arith;
      }
