-- ===== src/Viper/Valid/Kept.antt =====
-- Steps that change no entry of the index: the state stays in order and reads as before.
use viper_learned_index.Common.{
  ℕ, ◌≤◌, ◌<◌, ◌≡◌, refl, ◌≢◌, inl, inr, Option, some, none, arith, ap, sym, subst, ◌∙◌, ne→==,
  eq_cases,
}
use mathlib.Core.Path.{fun_ext}
use viper_learned_index.FitingTree.Parameters.{none_offset}
use viper_learned_index.Viper.Page
use viper_learned_index.Viper.Lock
use viper_learned_index.Viper.Offset.{block_number}
use viper_learned_index.Viper.Interface.{Env, IndexLaws}
use viper_learned_index.Viper.State.{Viper, Client, set_page, record_at, unlock_page}
use viper_learned_index.Viper.Valid.{IsLive, IsAt, read_entry, view, Owns, IsSound}
use viper_learned_index.Viper.Valid.Live.{IsLive-relock}

module _ {I K V : Type 0} (E : Env I K V) where
  pub record Kept (s s' : Viper I K V) : Type 0 where
    pub map_same : s'.map_ ≡ s.map_
    pub num_le : s.num_v_blocks ≤ s'.num_v_blocks
    pub current_same : s'.current_block_page ≡ s.current_block_page
    pub free_same : s'.free_blocks ≡ s.free_blocks
    pub records_same : (q : ℕ) → record_at s' q ≡ record_at s q
    pub lives : (n q : ℕ) → IsAt E s n q → IsLive E s n q → IsLive E s' n q

  pub Kept-refl : (s : Viper I K V) → Kept s s
  Kept-refl s = record {
    map_same = refl;
    num_le = omega arith;
    current_same = refl;
    free_same = refl;
    records_same = λ q. refl;
    lives = λ n q a l. l;
  }

  pub Kept-IsAt : (s s' : Viper I K V) → Kept s s' → (n q : ℕ) → IsAt E s' n q → IsAt E s n q
  Kept-IsAt s s' k n q h = (subst (λ m. E.index.get m n ≡ some q) k.map_same h.0, h.1)

  pub read_entry-same :
      (s s' : Viper I K V) (r : Option ℕ)
      → ((o : ℕ) → r ≡ some o → o ≢ none_offset → record_at s' o ≡ record_at s o)
      → read_entry E s' r ≡ read_entry E s r
  read_entry-same s s' none k = refl
  read_entry-same s s' (some o) k = elim (eq_cases o none_offset) [
    | inl e ↦ ground arith
    | inr e ↦ let z = k o refl e in rw (z, ne→== o none_offset e) refl
  ]

  pub Kept-view : (s s' : Viper I K V) → Kept s s' → view E s' ≡ view E s
  Kept-view s s' k = fun_ext λ n.
      ap (λ m. read_entry E s' (E.index.get m n)) k.map_same
      ∙ read_entry-same s s' (E.index.get s.map_ n) (λ o e ne. k.records_same o)

  pub Kept-Owns : (s s' : Viper I K V) (c : Client) → Kept s s' → Owns E s c → Owns E s' c
  Kept-Owns s s' c k h = record {
    based = h.based;
    placed = h.placed;
    block_lt = let e = h.block_lt in let l = k.num_le in omega arith;
    handed_out = subst (λ o. c.v_block_number < block_number o) (sym k.current_same) h.handed_out;
    page_lt = h.page_lt;
    processed = h.processed;
    fresh = λ p lt ne d n q a. h.fresh p lt ne d n q (Kept-IsAt s s' k n q a);
  }

  pub Kept-trans : (s s' s'' : Viper I K V) → Kept s s' → Kept s' s'' → Kept s s''
  Kept-trans s s' s'' k k' = record {
    map_same = k'.map_same ∙ k.map_same;
    num_le = let l = k.num_le in let l' = k'.num_le in omega arith;
    current_same = k'.current_same ∙ k.current_same;
    free_same = k'.free_same ∙ k.free_same;
    records_same = λ q. k'.records_same q ∙ k.records_same q;
    lives = λ n q a l.
        k'.lives n q (subst (λ m. E.index.get m n ≡ some q) (sym k.map_same) a.0, a.1)
          (k.lives n q a l);
  }

  pub relock-Kept :
      (s : Viper I K V) (b p v : ℕ)
      → Kept s (set_page s b p (record (s.v_blocks b p) { version_lock = v }))
  unfolding record_at
  relock-Kept s b p v = record {
    map_same = refl;
    num_le = omega arith;
    current_same = refl;
    free_same = refl;
    records_same = λ q. ground arith;
    lives = λ n q a l. IsLive-relock E s b p v n q l;
  }

  pub unlock_page-Kept : (s : Viper I K V) (b p : ℕ) → Kept s (unlock_page s b p)
  unfolding unlock_page Page.unlock
  unlock_page-Kept s b p = relock-Kept s b p (Lock.unlock (s.v_blocks b p).version_lock)

module _ {I K V : Type 0} (E : Env I K V) (L : IndexLaws E.index) where
  pub Kept-IsSound : (s s' : Viper I K V) → Kept E s s' → IsSound E L s → IsSound E L s'
  Kept-IsSound s s' k h = record {
    index_valid = subst (λ m. L.IsValid m) (sym k.map_same) h.index_valid;
    entries = λ n q a. (let a' = Kept-IsAt E s s' k n q a in k.lives n q a' (h.entries n q a'));
    no_free_blocks = k.free_same ∙ h.no_free_blocks;
    some_block = let e = h.some_block in let l = k.num_le in omega arith;
    current_le = let e = h.current_le in let l = k.num_le in rw k.current_same (omega arith);
    current_page = let e = h.current_page in rw k.current_same e;
  }
