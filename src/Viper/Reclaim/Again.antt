-- ===== src/Viper/Reclaim/Again.antt =====
-- The blocks that `reclaim` appends to the list of free blocks, and what it leaves of them.
use viper_learned_index.Common.{
  ℕ, zero, suc, ◌+◌, ◌*◌, ◌<◌, ◌≡◌, refl, Bool, true, false, some, [], ◌∷◌, ◌++◌, arith, ltb, ◌∙◌,
  ap, inl, inr, eq_cases, ◌≤◌, ◌≢◌, ◌⊎◌, List, sym, subst, append-nil, append_assoc, lt→ltb,
  Returns, if◌then◌else◌,
}
use viper_learned_index.Viper.Lock
use viper_learned_index.Viper.Lock.{is_bit_set, used_bit, client_bit}
use viper_learned_index.Viper.Lock.Bits.{IsUnlocked, lock-IsUnlocked, unlock-IsTaken, unlock-bits}
use viper_learned_index.Viper.Page
use viper_learned_index.Viper.Page.{Page, count, is_owned, is_unused}
use viper_learned_index.Viper.Interface.{Env}
use viper_learned_index.Viper.State.{Viper, Client, lock_page, unlock_page, set_page}
use viper_learned_index.Viper.Reclaim.{
  compact_slots, compact, block_free_slots, free_block, reclaim_block, reclaim_blocks,
}

zero-IsUnlocked : (Lock.is_locked 0 ≡ false) × (is_bit_set 0 client_bit ≡ false)
unfolding Lock.is_locked is_bit_set
zero-IsUnlocked = (refl, refl)

count_all :
    (free_slots : ℕ → Bool) (n : ℕ) → ((t : ℕ) → free_slots t ≡ true) → count free_slots n ≡ n
unfolding count
count_all free_slots zero h = refl
count_all free_slots (suc n) h =
    let here = h n in let before = count_all free_slots n h in ground arith

module _ {I K V : Type 0} where
  -- Block `b` holds no record and no lock, no client owns it, and its second page is marked as
  -- used.
  pub record IsVacant (s : Viper I K V) (b : ℕ) : Type 0 where
    pub unlocked : (p : ℕ) → IsUnlocked (s.v_blocks b p).version_lock
    pub free : (p slot : ℕ) → (s.v_blocks b p).free_slots slot ≡ true
    pub used : is_bit_set (s.v_blocks b 1).version_lock used_bit ≡ true
    pub not_owned : is_bit_set (s.v_blocks b 0).version_lock client_bit ≡ false

  -- Behind a call that looks at block `b` alone.
  abbrev Kept : Viper I K V → Viper I K V → ℕ → Type 0
  Kept s s' b =
      ((d : ℕ) → d ≢ b → s'.v_blocks d ≡ s.v_blocks d) × (s'.num_v_blocks ≡ s.num_v_blocks)

  Kept-trans : (s s' s'' : Viper I K V) (b : ℕ) → Kept s s' b → Kept s' s'' b → Kept s s'' b
  Kept-trans s s' s'' b h g = (λ d ne. g.0 d ne ∙ h.0 d ne, g.1 ∙ h.1)

  Kept-IsVacant :
      (s s' : Viper I K V) (b : ℕ) → s'.v_blocks b ≡ s.v_blocks b → IsVacant s b → IsVacant s' b
  Kept-IsVacant s s' b e h = record {
    unlocked = λ p. rw e (h.unlocked p);
    free = λ p slot. rw e (h.free p slot);
    used = rw e h.used;
    not_owned = rw e h.not_owned;
  }

  -- A page of it is locked and unlocked again.
  pass_page :
      (s : Viper I K V) (b p : ℕ)
      → IsVacant s b
      → (s1 : Viper I K V) × (lock_page s b p ≡ some s1)
        × ((t : ℕ) → (s1.v_blocks b p).free_slots t ≡ true)
        × IsVacant (unlock_page s1 b p) b
        × ((unlock_page s1 b p).free_blocks ≡ s.free_blocks)
        × Kept s (unlock_page s1 b p) b
  unfolding lock_page unlock_page Page.lock Page.unlock
  pass_page s b p h =
      let v = (s.v_blocks b p).version_lock in
      let taken = lock-IsUnlocked v (h.unlocked p) in
      let given = unlock-IsTaken (v + 1) taken.1 in
      let bits = unlock-bits v (h.unlocked p) in
      let s1 = set_page s b p (record (s.v_blocks b p) { version_lock = v + 1 }) in
      let used = h.used in
      let owned = h.not_owned in
      (
        s1,
        rw (lock_page, Page.lock, taken.0) refl,
        λ t. let f = h.free p t in ground arith,
        record {
          unlocked = λ q. let u = h.unlocked q in (ground arith, ground arith);
          free = λ q t. let f = h.free q t in let g = h.free p t in ground arith;
          used = ground arith;
          not_owned = ground arith;
        },
        refl,
        (λ d ne. ground (arith, ne), refl),
      )

module _ {I K V : Type 0} (E : Env I K V) where
  compact_slots_vacant :
      (s : Viper I K V) (c : Client) (b p rest slot : ℕ)
      → ((t : ℕ) → (s.v_blocks b p).free_slots t ≡ true)
      → compact_slots E s c b p rest slot ≡ some (s, c)
  unfolding compact_slots
  compact_slots_vacant s c b p zero slot h = refl
  compact_slots_vacant s c b p (suc rest) slot h =
      rw (h slot) (compact_slots_vacant s c b p rest (slot + 1) h)

  compact-IsVacant :
      (s : Viper I K V) (c : Client) (b n p : ℕ)
      → IsVacant s b
      → (s' : Viper I K V) × (compact E s c b n p ≡ some (s', c))
        × IsVacant s' b
        × (s'.free_blocks ≡ s.free_blocks)
        × Kept s s' b
  unfolding compact
  compact-IsVacant s c b zero p h = (s, refl, h, refl, (λ d ne. refl, refl))
  compact-IsVacant s c b (suc n) p h =
      let page = pass_page s b p h in
      let slots = compact_slots_vacant page.0 c b p E.num_slots_per_page 0 page.2 in
      let later = compact-IsVacant (unlock_page page.0 b p) c b n (p + 1) page.3 in
      (
        later.0,
        rw (compact, page.1, slots) later.1,
        later.2,
        later.3 ∙ page.4,
        Kept-trans s (unlock_page page.0 b p) later.0 b page.5 later.4,
      )

  free_slots_vacant :
      (v_pages : ℕ → Page K V) (n : ℕ)
      → ((p slot : ℕ) → (v_pages p).free_slots slot ≡ true)
      → block_free_slots E v_pages n ≡ n * E.num_slots_per_page
  unfolding block_free_slots
  free_slots_vacant v_pages zero h = omega arith
  free_slots_vacant v_pages (suc n) h =
      let before = free_slots_vacant v_pages n h in
      let page = count_all (v_pages n).free_slots E.num_slots_per_page (h n) in
      omega (arith, before, page)

  -- A block with a used page among those that are looked at.
  is_unused-used :
      (v_pages : ℕ → Page K V) (n : ℕ)
      → is_bit_set (v_pages 1).version_lock used_bit ≡ true
      → 1 < n
      → is_unused v_pages n ≡ false
  unfolding is_unused
  is_unused-used v_pages zero h lt = absurd (omega arith)
  is_unused-used v_pages (suc n) h lt = elim (eq_cases n 1) [
    | inl e ↦ rw (e, h) refl
    | inr ne ↦ let rest = is_unused-used v_pages n h (omega arith) in ground arith
  ]

  free_block-IsVacant : (s : Viper I K V) (b : ℕ) → IsVacant s b → IsVacant (free_block E s b) b
  unfolding free_block
  free_block-IsVacant s b h =
      let used = h.used in
      let z = zero-IsUnlocked in
      record {
        unlocked = λ q. let u = h.unlocked q in (ground arith, ground arith);
        free = λ q t. let f = h.free q t in let g = h.free 0 t in ground arith;
        used = ground arith;
        not_owned = ground arith;
      }

  free_block-free_blocks :
      (s : Viper I K V) (b : ℕ) → (free_block E s b).free_blocks ≡ s.free_blocks ++ (b ∷ [])
  unfolding free_block
  free_block-free_blocks s b = refl

  free_block-Kept : (s : Viper I K V) (b : ℕ) → Kept s (free_block E s b) b
  unfolding free_block
  free_block-Kept s b = (λ d ne. ground (arith, ne), refl)

  reclaim_block-IsVacant :
      (s : Viper I K V) (c : Client) (b : ℕ)
      → IsVacant s b
      → 1 < E.num_pages_per_block
      → E.free_threshold < E.num_pages_per_block * E.num_slots_per_page
      → (s' : Viper I K V) × (reclaim_block E s c b ≡ some (s', c))
        × IsVacant s' b
        × (s'.free_blocks ≡ s.free_blocks ++ (b ∷ []))
        × Kept s s' b
  unfolding reclaim_block is_owned
  reclaim_block-IsVacant s c b h pages few =
      let owned : is_owned (s.v_blocks b) ≡ false = h.not_owned in
      let used = is_unused-used (s.v_blocks b) E.num_pages_per_block h.used pages in
      let slots = free_slots_vacant (s.v_blocks b) E.num_pages_per_block h.free in
      let many : ltb E.free_threshold (block_free_slots E (s.v_blocks b) E.num_pages_per_block)
          ≡ true =
        ground arith in
      let done = compact-IsVacant s c b E.num_pages_per_block 0 h in
      (
        free_block E done.0 b,
        rw (reclaim_block, owned, used, many, done.1) refl,
        free_block-IsVacant done.0 b done.2,
        free_block-free_blocks done.0 b ∙ ap (λ bs. bs ++ (b ∷ [])) done.3,
        Kept-trans s done.0 (free_block E done.0 b) b done.4 (free_block-Kept done.0 b),
      )

  owned_vacant : (s : Viper I K V) (b : ℕ) → is_owned (s.v_blocks b) ≡ true → IsVacant s b → ⊥
  unfolding is_owned
  owned_vacant s b owned h = let n = h.not_owned in cc

  -- Those of the `n` blocks from `b` on that no client owns.
  abbrev pub unowned : (ℕ → ℕ → Page K V) → ℕ → ℕ → List ℕ
  unowned v_blocks zero b = []
  unowned v_blocks (suc n) b =
      if is_owned (v_blocks b) then unowned v_blocks n (b + 1) else b ∷ unowned v_blocks n (b + 1)

  unowned-kept :
      (v_blocks v_blocks' : ℕ → ℕ → Page K V) (n b : ℕ)
      → ((d : ℕ) → b ≤ d → v_blocks' d ≡ v_blocks d)
      → unowned v_blocks' n b ≡ unowned v_blocks n b
  unowned-kept v_blocks v_blocks' zero b same = refl
  unowned-kept v_blocks v_blocks' (suc n) b same =
      rw
        (
          same b (omega arith),
          unowned-kept v_blocks v_blocks' n (b + 1) (λ d h. same d (omega arith)),
        )
        refl

  unowned_here :
      (s : Viper I K V) (b n : ℕ)
      → IsVacant s b
      → unowned s.v_blocks (suc n) b ≡ b ∷ unowned s.v_blocks n (b + 1)
  unfolding is_owned
  unowned_here s b n h = rw h.not_owned refl

  -- Of `n` blocks from `b` on, each is owned by a client, or holds no record and no lock while its
  -- second page is marked as used, and the threshold is below the number of slots of a block: the
  -- loop of `reclaim` appends those that are not owned to the list of free blocks, whether or not
  -- they stand there already, and leaves each as it is asked here, so that a later `reclaim` appends
  -- it again.
  pub reclaim_blocks_lem :
      (s : Viper I K V) (c : Client) (n b : ℕ)
      → ((d : ℕ) → b ≤ d → d < b + n → (is_owned (s.v_blocks d) ≡ true) ⊎ IsVacant s d)
      → b + n ≤ s.num_v_blocks
      → 1 < E.num_pages_per_block
      → E.free_threshold < E.num_pages_per_block * E.num_slots_per_page
      → Returns (reclaim_blocks E s c n b) λ r.
        (r.1 ≡ c)
        × (r.0.free_blocks ≡ s.free_blocks ++ unowned s.v_blocks n b)
        × ((d : ℕ) → b ≤ d → d < b + n → IsVacant s d → IsVacant r.0 d)
        × ((d : ℕ) → (d < b) ⊎ (is_owned (s.v_blocks d) ≡ true) → r.0.v_blocks d ≡ s.v_blocks d)
  unfolding reclaim_blocks reclaim_block
  reclaim_blocks_lem s c zero b h room pages few = (
    (s, c),
    refl,
    (refl, sym (append-nil s.free_blocks), λ d lo hi v. absurd (omega arith), λ d l. refl),
  )
  reclaim_blocks_lem s c (suc n) b h room pages few = elim (h b (omega arith) (omega arith)) [
    | inl owned ↦
        let (r, run, (same, free, vacant, kept)) =
          reclaim_blocks_lem s c n (b + 1) (λ d lo hi. h d (omega arith) (omega arith))
            (omega arith) pages few in
        (
          r,
          rw (reclaim_blocks, reclaim_block, lt→ltb b s.num_v_blocks (omega arith), owned) run,
          (
            same,
            rw owned free,
            λ d lo hi v. elim (eq_cases d b) [
              | inl e ↦ absurd (owned_vacant s b owned (subst (IsVacant s) e v))
              | inr ne ↦ vacant d (omega arith) (omega arith) v
            ],
            λ d l. elim l [ inl low ↦ kept d (inl (omega arith)) | inr own ↦ kept d (inr own) ],
          ),
        )
    | inr empty ↦
        let (s1, once, still, appended, (others, blocks)) =
          reclaim_block-IsVacant s c b empty pages few in
        let (r, run, (same, free, vacant, kept)) =
          reclaim_blocks_lem s1 c n (b + 1)
            (λ d lo hi. elim (h d (omega arith) (omega arith)) [
              | inl own ↦ inl (rw (others d (omega arith)) own)
              | inr v ↦ inr (Kept-IsVacant s s1 d (others d (omega arith)) v)
            ])
            (omega arith) pages few in
        (
          r,
          rw (reclaim_blocks, lt→ltb b s.num_v_blocks (omega arith), once) run,
          (
            same,
            free
                ∙ rw
                    (
                      appended,
                      unowned-kept s.v_blocks s1.v_blocks n (b + 1)
                          (λ d lo. others d (omega arith)),
                      unowned_here s b n empty,
                    )
                    (append_assoc s.free_blocks (b ∷ []) (unowned s.v_blocks n (b + 1))),
            λ d lo hi v. elim (eq_cases d b) [
              | inl e ↦
                  subst (IsVacant r.0) (sym e)
                    (Kept-IsVacant s1 r.0 b (kept b (inl (omega arith))) still)
              | inr ne ↦ vacant d (omega arith) (omega arith) (Kept-IsVacant s s1 d (others d ne) v)
            ],
            λ d l. elim (eq_cases d b) [
              | inl e ↦ elim l [
                | inl low ↦ absurd (omega arith)
                | inr own ↦
                    absurd
                      (owned_vacant s b (subst (λ x. is_owned (s.v_blocks x) ≡ true) e own) empty)
              ]
              | inr ne ↦ elim l [
                | inl low ↦ kept d (inl (omega arith)) ∙ others d ne
                | inr own ↦ kept d (inr (rw (others d ne) own)) ∙ others d ne
              ]
            ],
          ),
        )
  ]
