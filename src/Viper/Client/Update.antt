-- ===== src/Viper/Client/Update.antt =====
-- `update`: the value of a key is changed in place, under the lock of its page.
use mathlib.Core.Path.{fun_ext}
use mathlib.Core.Option
use viper_learned_index.Common.{
  is_none, ℕ, ◌+◌, ◌≡◌, refl, inl, inr, Bool, true, false, not, Option, some, arith, ap, sym, subst,
  ◌∙◌, ne→==, eq_cases, Returns, upd, upd_self, upd_other,
}
use viper_learned_index.FitingTree.Parameters.{none_offset}
use viper_learned_index.Viper.Lock.Bits.{IsUnlocked}
use viper_learned_index.Viper.Offset.{block_number, page_number, is_tombstone}
use viper_learned_index.Viper.Interface.{Env, IndexLaws}
use viper_learned_index.Viper.State.{Viper, Client, record_at}
use viper_learned_index.Viper.Valid.{IsLive, IsAt, read_entry, view, Owns, IsValid}
use viper_learned_index.Viper.Valid.Kept.{relock-Kept, read_entry-same}
use viper_learned_index.Viper.Valid.Locks.{AllReleased-unlocked, lock_page-IsUnlocked}
use viper_learned_index.Viper.Client.{update}
use viper_learned_index.Viper.Client.Free.{apart}
use viper_learned_index.Viper.Client.Old.{IsLive-in_bounds}
use viper_learned_index.Viper.Client.Get.{entry_cases, view-none, view-some}
use viper_learned_index.Viper.Client.Updated.{
  updated, updated-record_at, updated-other, updated-AllReleased, updated-IsLive, updated-map,
  updated-current, updated-num, updated-free,
}

module _ {I K V : Type 0} (E : Env I K V) (L : IndexLaws E.index) where
  pub record Updated (s : Viper I K V) (key : K) (f : V → V) (r : Viper I K V × Bool) : Type 0 where
    pub valid : IsValid E L r.0
    pub reads :
        view E r.0 ≡ upd (view E s) (E.get_key key) (Option.map f (view E s (E.get_key key)))
    pub tells : r.1 ≡ not (is_none (view E s (E.get_key key)))
    pub keeps : (d : Client) → Owns E s d → Owns E r.0 d
    pub current_same : r.0.current_block_page ≡ s.current_block_page

  upd-same : (g : ℕ → Option V) (n : ℕ) (w : Option V) → g n ≡ w → g ≡ upd g n w
  upd-same g n w e =
      fun_ext λ q. elim (eq_cases q n) [ inl x ↦ ground arith | inr x ↦ ground arith ]

  absent_run :
      (s : Viper I K V) (key : K) (f : V → V)
      → E.index.get s.map_ (E.get_key key) ≡ some none_offset
      → update E s key f ≡ some (s, false)
  unfolding update is_tombstone
  absent_run s key f e = rw (update, e) refl

  present_run :
      (s : Viper I K V) (key : K) (f : V → V) (o : ℕ)
      → IsAt E s (E.get_key key) o
      → IsLive E s (E.get_key key) o
      → IsUnlocked (s.v_blocks (block_number o) (page_number o)).version_lock
      → update E s key f ≡ some (updated E s o (f (record_at s o).1), true)
  unfolding update is_tombstone
  present_run s key f o a l u =
      rw
        (
          update,
          a.0,
          ne→== o none_offset a.1,
          IsLive-in_bounds E s (E.get_key key) o l,
          lock_page-IsUnlocked s (block_number o) (page_number o) u,
        )
        refl
      ∙ ap (λ x. some (updated E s o (f x.1), true))
          ((relock-Kept E s (block_number o) (page_number o)
              ((s.v_blocks (block_number o) (page_number o)).version_lock + 1)).records_same
            o)

  updated-view :
      (s : Viper I K V) (n o : ℕ) (value : V)
      → IsValid E L s
      → IsAt E s n o
      → IsLive E s n o
      → view E (updated E s o value) ≡ upd (view E s) n (some value)
  updated-view s n o value v a l = fun_ext λ q.
      ap (λ x. read_entry E (updated E s o value) (E.index.get x q)) (updated-map E s o value)
      ∙ elim (eq_cases q n) [
        | inl e ↦
            ap (λ x. read_entry E (updated E s o value) (E.index.get s.map_ x)) e
            ∙ ap (read_entry E (updated E s o value)) a.0
            ∙ rw (ne→== o none_offset a.1) (ap some (updated-record_at E s o value))
            ∙ sym (upd_self (view E s) n (some value))
            ∙ ap (upd (view E s) n (some value)) (sym e)
        | inr e ↦
            read_entry-same E s (updated E s o value) (E.index.get s.map_ q) (λ r x ne.
              let lr = v.sound.entries q r (x, ne) in
              updated-other E s o r value (
                apart E o r l.packed lr.packed
                  (λ y. e (sym lr.keyed ∙ ap (λ z. E.get_key (record_at s z).0) y ∙ l.keyed))))
            ∙ sym (upd_other (view E s) n q (some value) e)
      ]

  pub update_lem :
      (s : Viper I K V) (key : K) (f : V → V)
      → IsValid E L s
      → Returns (update E s key f) (Updated s key f)
  update_lem s key f v =
      let n = E.get_key key in
      elim (entry_cases E L s n v) [
        | inl e ↦ (
          (s, false),
          absent_run s key f e,
          record {
            valid = v;
            reads =
                upd-same (view E s) n (Option.map f (view E s n))
                  (view-none E L s n e ∙ ap (Option.map f) (sym (view-none E L s n e)));
            tells = ap (λ x. not (is_none x)) (sym (view-none E L s n e));
            keeps = λ d w. w;
            current_same = refl;
          },
        )
        | inr e ↦
            let o = e.0 in
            let value = f (record_at s o).1 in
            let s' = updated E s o value in
            let u = v.unlocked (block_number o) (page_number o) in
            (
              (s', true),
              present_run s key f o e.1 e.2 u,
              record {
                valid = record {
                  sound = record {
                    index_valid =
                        subst (λ m. L.IsValid m) (sym (updated-map E s o value))
                          v.sound.index_valid;
                    entries = λ q r a.
                        updated-IsLive E s o value q r
                          (v.sound.entries q r (before s o value q r a));
                    no_free_blocks = updated-free E s o value ∙ v.sound.no_free_blocks;
                    some_block = let x = v.sound.some_block in rw (updated-num E s o value) x;
                    current_le =
                        let x = v.sound.current_le in
                        rw (updated-num E s o value, updated-current E s o value) x;
                    current_page =
                        let x = v.sound.current_page in rw (updated-current E s o value) x;
                  };
                  unlocked =
                      AllReleased-unlocked s s' (updated-AllReleased E s o value u) v.unlocked;
                };
                reads =
                    updated-view s n o value v e.1 e.2
                    ∙ ap (λ x. upd (view E s) n (Option.map f x)) (sym (view-some E L s n o e.1));
                tells = ap (λ x. not (is_none x)) (sym (view-some E L s n o e.1));
                keeps = λ d w. record {
                  based = w.based;
                  placed = w.placed;
                  block_lt = let x = w.block_lt in rw (updated-num E s o value) x;
                  handed_out = let x = w.handed_out in rw (updated-current E s o value) x;
                  page_lt = w.page_lt;
                  processed = w.processed;
                  fresh = λ p lt ne k q r a. w.fresh p lt ne k q r (before s o value q r a);
                };
                current_same = updated-current E s o value;
              },
            )
      ]
    where
      before :
          (s : Viper I K V) (o : ℕ) (value : V) (q r : ℕ)
          → IsAt E (updated E s o value) q r
          → IsAt E s q r
      before s o value q r a =
          (subst (λ m. E.index.get m q ≡ some r) (updated-map E s o value) a.0, a.1)
