-- ===== src/Viper/Client/Remove.antt =====
-- `remove`: the record is freed, and the index has no place for the key any more.
use mathlib.Core.Path.{fun_ext}
use viper_learned_index.Common.{
  is_none, ℕ, ◌≡◌, refl, ◌≢◌, inl, inr, Bool, true, false, not, Option, some, none, arith, ap, sym,
  subst, ◌∙◌, ne→==, eq_cases, Returns, upd, upd_self, upd_other, some_inj,
}
use viper_learned_index.FitingTree.Parameters.{none_offset}
use viper_learned_index.Viper.Offset.{block_number, page_number, is_tombstone}
use viper_learned_index.Viper.Interface.{Env, IndexLaws}
use viper_learned_index.Viper.State.{Viper, Client, increment, decrement, record_at}
use viper_learned_index.Viper.Valid.{IsLive, IsAt, read_entry, view, Owns, IsSound, IsValid}
use viper_learned_index.Viper.Valid.Kept.{read_entry-same}
use viper_learned_index.Viper.Valid.Locks.{AllReleased-unlocked}
use viper_learned_index.Viper.Client.{delete_key, free_occupied_slot, remove}
use viper_learned_index.Viper.Client.Free.{Freed, Deletes, free_occupied_slot_lem}
use viper_learned_index.Viper.Client.Old.{IsLive-in_bounds}
use viper_learned_index.Viper.Client.PutAt.{Owns-recount}
use viper_learned_index.Viper.Client.Get.{entry_cases, view-none, view-some}

module _ {I K V : Type 0} (E : Env I K V) (L : IndexLaws E.index) where
  pub record Removed (s : Viper I K V) (c : Client) (key : K) (r : Viper I K V × Client × Bool)
      : Type 0 where
    pub valid : IsValid E L r.0
    pub reads : view E r.0 ≡ upd (view E s) (E.get_key key) none
    pub tells : r.2 ≡ not (is_none (view E s (E.get_key key)))
    pub keeps : (d : Client) → Owns E s d → Owns E r.0 d
    pub owns : Owns E s c → Owns E r.0 r.1
    pub place : r.1.v_block_number ≡ c.v_block_number
    pub current_same : r.0.current_block_page ≡ s.current_block_page

  upd-none : (f : ℕ → Option V) (n : ℕ) → f n ≡ none → f ≡ upd f n none
  upd-none f n e = fun_ext λ q. elim (eq_cases q n) [ inl x ↦ ground arith | inr x ↦ ground arith ]

  -- Behind the insertion of the tombstone for `n`.
  module _ (s s' : Viper I K V) (n o : ℕ) (m : I) (gone : E.index.get m n ≡ some none_offset)
      (there : (q : ℕ) → q ≢ n → E.index.get m q ≡ E.index.get s.map_ q) (f : Freed E s s' o m)
      (v : IsValid E L s) (l : IsLive E s n o) where
    entry_before : (q r : ℕ) → IsAt E s' q r → (q ≢ n) × IsAt E s q r
    entry_before q r a =
        let a' : E.index.get m q ≡ some r = subst (λ x. E.index.get x q ≡ some r) f.map_is a.0 in
        elim (eq_cases q n) [
          | inl e ↦ absurd (a.1 (some_inj r none_offset (sym a' ∙ ap (E.index.get m) e ∙ gone)))
          | inr e ↦ (e, (sym (there q e) ∙ a', a.1))
        ]

    removed-IsSound : L.IsValid m → IsSound E L s'
    removed-IsSound w = record {
      index_valid = subst (λ x. L.IsValid x) (sym f.map_is) w;
      entries = λ q r a.
          (let b = entry_before q r a in
            let lr = v.sound.entries q r b.1 in
            f.lives q r lr
              (λ e. b.0 (sym lr.keyed ∙ ap (λ x. E.get_key (record_at s x).0) e ∙ l.keyed)));
      no_free_blocks = f.no_new_free ∙ v.sound.no_free_blocks;
      some_block = let e = f.num_same in let x = v.sound.some_block in omega arith;
      current_le =
          let e = f.num_same in let x = v.sound.current_le in rw f.current_same (omega arith);
      current_page = let x = v.sound.current_page in rw f.current_same x;
    }

    removed-view : view E s' ≡ upd (view E s) n none
    removed-view = fun_ext λ q.
        ap (λ x. read_entry E s' (E.index.get x q)) f.map_is ∙ elim (eq_cases q n) [
          | inl e ↦
              ap (λ x. read_entry E s' (E.index.get m x)) e
              ∙ ap (read_entry E s') gone
              ∙ sym (upd_self (view E s) n none)
              ∙ ap (upd (view E s) n none) (sym e)
          | inr e ↦
              ap (read_entry E s') (there q e)
              ∙ read_entry-same E s s' (E.index.get s.map_ q) (λ r x ne. f.records_same r)
              ∙ sym (upd_other (view E s) n q none e)
        ]

    removed-Owns : (d : Client) → Owns E s d → Owns E s' d
    removed-Owns d w = record {
      based = w.based;
      placed = w.placed;
      block_lt = let e = f.num_same in let x = w.block_lt in omega arith;
      handed_out = let x = w.handed_out in rw f.current_same x;
      page_lt = w.page_lt;
      processed = w.processed;
      fresh = λ p lt ne k q r a. w.fresh p lt ne k q r (entry_before q r a).1;
    }

  -- The index behind the insertion, for each state with the same index.
  deletes :
      (s : Viper I K V) (key : K) (m : I) (old : ℕ)
      → E.index.insert s.map_ (E.get_key key) none_offset ≡ some (m, old)
      → Deletes E s key true m
  unfolding delete_key
  deletes s key m old e s' e' =
      let x =
        subst (λ y. E.index.insert y (E.get_key key) none_offset ≡ some (m, old)) (sym e') e in
      rw x refl

  absent_run :
      (s : Viper I K V) (c : Client) (key : K)
      → E.index.get s.map_ (E.get_key key) ≡ some none_offset
      → remove E s c key ≡ some (s, c, false)
  unfolding remove is_tombstone
  absent_run s c key e = rw (remove, e) refl

  present_run :
      (s : Viper I K V) (c : Client) (key : K) (o : ℕ) (r : Viper I K V × Client)
      → IsAt E s (E.get_key key) o
      → free_occupied_slot E 1 s c o key true ≡ some r
      → remove E s c key
        ≡ some (r.0, record r.1 { num_reclaimable_ops = increment r.1.num_reclaimable_ops }, true)
  unfolding remove is_tombstone
  present_run s c key o r a e = rw (remove, a.0, ne→== o none_offset a.1, e) refl

  Owns-reclaimable :
      (s : Viper I K V) (c : Client) (n : ℕ)
      → Owns E s c
      → Owns E s (record c { num_reclaimable_ops = n })
  Owns-reclaimable s c n w = record {
    based = w.based;
    placed = w.placed;
    block_lt = w.block_lt;
    handed_out = w.handed_out;
    page_lt = w.page_lt;
    processed = w.processed;
    fresh = w.fresh;
  }

  -- `remove` ends, and takes away the key and nothing else.
  pub remove_lem :
      (s : Viper I K V) (c : Client) (key : K)
      → IsValid E L s
      → Returns (remove E s c key) (Removed s c key)
  remove_lem s c key v = elim (entry_cases E L s (E.get_key key) v) [
    | inl e ↦ (
      (s, c, false),
      absent_run s c key e,
      record {
        valid = v;
        reads = upd-none (view E s) (E.get_key key) (view-none E L s (E.get_key key) e);
        tells = ap (λ x. not (is_none x)) (sym (view-none E L s (E.get_key key) e));
        keeps = λ d w. w;
        owns = λ w. w;
        place = refl;
        current_same = refl;
      },
    )
    | inr e ↦
        let n = E.get_key key in
        let o = e.0 in
        let ins = L.insert_total s.map_ n none_offset v.sound.index_valid in
        let m = ins.0.0 in
        let f =
          free_occupied_slot_lem E 0 s c o key true m e.2.packed (IsLive-in_bounds E s n o e.2)
            (inr (v.unlocked (block_number o) (page_number o))) (deletes s key m ins.0.1 ins.1) in
        let s' = f.0.0 in
        let w = removed-IsSound s s' n o m ins.2.2 ins.2.3 f.2.0 v e.2 ins.2.0 in
        let keeps : (d : Client) → Owns E s d → Owns E s' d =
          removed-Owns s s' n o m ins.2.2 ins.2.3 f.2.0 v e.2 in
        (
          _,
          present_run s c key o f.0 e.1 f.1,
          record {
            valid = record {
              sound = w;
              unlocked = AllReleased-unlocked s s' f.2.0.locks v.unlocked;
            };
            reads = removed-view s s' n o m ins.2.2 ins.2.3 f.2.0 v e.2;
            tells = ap (λ x. not (is_none x)) (sym (view-some E L s n o e.1));
            keeps = keeps;
            owns = λ wc. Owns-reclaimable s' f.0.1 (increment f.0.1.num_reclaimable_ops) (
                subst (λ d. Owns E s' d) (sym f.2.1)
                  (Owns-recount E L s' c (decrement c.size_delta) (keeps c wc)));
            place = ap (λ d. d.v_block_number) f.2.1;
            current_same = f.2.0.current_same;
          },
        )
  ]
