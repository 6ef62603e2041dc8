-- ===== src/Viper/Recovery/Reads.antt =====
-- Recovery: the store that is opened again reads as the store that was closed.
use Prim.Native.Nat.{min}
use mathlib.Core.Path.{fun_ext}
use viper_learned_index.Common.{
  ℕ, ◌+◌, ◌*◌, ◌/◌, ◌%◌, ◌≤◌, ◌<◌, ◌≡◌, refl, inl, inr, true, false, some, arith, ap, sym, subst,
  ◌∙◌, ne→==, Returns, eq_cases, word, some_inj,
}
use viper_learned_index.FitingTree.Parameters.{none_offset}
use viper_learned_index.Viper.Lock.{used_bit, is_bit_set}
use viper_learned_index.Viper.Offset.{pack, block_number, page_number, data_offset}
use viper_learned_index.Viper.Interface.{Env, IndexLaws}
use viper_learned_index.Viper.State.{Viper, record_at}
use viper_learned_index.Viper.Valid.{IsAt, view, read_entry, IsSound}
use viper_learned_index.Viper.Recovery.{recover_database}
use viper_learned_index.Viper.Recovery.Rebuilt.{IsPart, IsCovered, AreTidy}
use viper_learned_index.Viper.Recovery.Threads.{shares, recover_threads_lem}

module _ {I K V : Type 0} (E : Env I K V) where
  -- No stale record: each record in the used blocks is the one that the index leads to, and the
  -- index leads to used pages of used blocks.
  pub record IsTidy (s : Viper I K V) : Type 0 where
    pub indexed :
        (b p t : ℕ)
        → b < s.num_used_blocks
        → p < E.num_pages_per_block
        → t < E.num_slots_per_page
        → is_bit_set (s.v_blocks b p).version_lock used_bit ≡ true
        → (s.v_blocks b p).free_slots t ≡ false
        → E.index.get s.map_ (E.get_key ((s.v_blocks b p).records t).0) ≡ some (pack b p t)
    pub in_used :
        (n o : ℕ)
        → IsAt E s n o
        → (block_number o < s.num_used_blocks)
          × (is_bit_set (s.v_blocks (block_number o) (page_number o)).version_lock used_bit ≡ true)

  -- The store after a restart: the pages are there, the index and the counts in memory are new.
  abbrev pub reopened : Viper I K V → I → Viper I K V
  reopened s m = record s {
    map_ = m;
    current_size = 0;
    reclaimable_ops = 0;
    current_block_page = 0;
  }

module _ {I K V : Type 0} (E : Env I K V) (L : IndexLaws E.index) where
  module _ (s : Viper I K V) (w : IsSound E L s) (tidy : IsTidy E s) where
    lost : ℕ → ℕ
    lost n = (L.get_total s.map_ n w.index_valid).0

    at_lost : (n : ℕ) → E.index.get s.map_ n ≡ some (lost n)
    unfolding lost
    at_lost n = (L.get_total s.map_ n w.index_valid).1

    all_tidy : (m : I) → AreTidy E L lost (reopened E s m) s.num_used_blocks
    all_tidy m b p lb lp used t lt busy = some_inj _ _ (
        sym (at_lost (E.get_key ((s.v_blocks b p).records t).0))
        ∙ tidy.indexed b p t lb lp lt used busy)

    rebuilt_entry :
        (m m0 : I)
        → IsPart E L lost m
        → ((b p : ℕ)
            → b < s.num_used_blocks
            → p < E.num_pages_per_block
            → IsCovered E L lost m ((reopened E s m0).v_blocks b p))
        → (n : ℕ) → E.index.get m n ≡ E.index.get s.map_ n
    unfolding record_at
    rebuilt_entry m m0 h c n = elim (h.entry n) [
      | inr e ↦ e ∙ sym (at_lost n)
      | inl e ↦ elim (eq_cases (lost n) none_offset) [
        | inl t ↦ e ∙ ap some (sym t) ∙ sym (at_lost n)
        | inr t ↦
            let a : IsAt E s n (lost n) = (at_lost n, t) in
            let l = w.entries n (lost n) a in
            let u = tidy.in_used n (lost n) a in
            let k =
              c (block_number (lost n)) (page_number (lost n)) u.0 l.page_lt u.1
                (data_offset (lost n)) (omega arith) l.slot_lt l.is_used in
            subst (λ q. E.index.get m q ≡ some (lost q)) l.keyed k ∙ sym (at_lost n)
      ]
    ]

    -- On the pages of a sound and tidy store with a used block, with an empty index and a recovery
    -- thread, `recover_database` ends, and the store reads as before.
    pub recover_database_lem :
        (m0 : I) (num_recovery_threads : ℕ)
        → L.IsValid m0
        → ((n : ℕ) → E.index.get m0 n ≡ some none_offset)
        → 0 < s.num_used_blocks
        → 0 < num_recovery_threads
        → s.num_used_blocks ≤ s.num_v_blocks
        → Returns
            (recover_database E (reopened E s m0) num_recovery_threads)
            λ s'. view E s' ≡ view E s
    unfolding recover_database record_at
    recover_database_lem m0 k v0 empty used threads le =
        let r = reopened E s m0 in
        let t = min s.num_used_blocks k in
        let per = s.num_used_blocks / t + 1 in
        let h : IsPart E L lost m0 = record { valid = v0; entry = λ n. inl (empty n) } in
        let q = recover_threads_lem E L lost r per t 0 (m0, 0) h (all_tidy m0) le in
        let cover = shares t s.num_used_blocks (omega arith) in
        let e : 0 + t ≡ t = omega arith in
        let z : 0 * per ≡ 0 = omega arith in
        let same =
          rebuilt_entry q.0.0 m0 q.2.0.part
            (λ b p lb lp. q.2.1 b p (rw z (omega arith)) (rw e (omega arith)) lb lp) in
        (
          record r { map_ = q.0.0; current_size = (0 + q.0.1) % word },
          rw (ne→== t 0 (λ x. omega arith), q.1) refl,
          fun_ext λ n. ap (read_entry E s) (same n),
        )
