-- ===== src/Viper/Client/Get.antt =====
-- `get`: it ends on a store where no lock is left over, and returns what the store has at the key.
use viper_learned_index.Common.{ℕ, ◌≡◌, refl, ◌⊎◌, inl, inr, some, none, ap, ◌∙◌, ne→==, eq_cases}
use viper_learned_index.FitingTree.Parameters.{none_offset}
use viper_learned_index.Viper.Offset.{block_number, page_number, is_tombstone}
use viper_learned_index.Viper.Interface.{Env, IndexLaws}
use viper_learned_index.Viper.State.{Viper, record_at}
use viper_learned_index.Viper.Valid.{IsLive, IsAt, read_entry, view, IsValid}
use viper_learned_index.Viper.Client.{get_value_from_offset, get}
use viper_learned_index.Viper.Client.Old.{IsLive-in_bounds}

module _ {I K V : Type 0} (E : Env I K V) (L : IndexLaws E.index) where
  -- The entry of the key: none, the tombstone, or the offset of a live record.
  pub entry_cases :
      (s : Viper I K V) (n : ℕ)
      → IsValid E L s
      → (E.index.get s.map_ n ≡ some none_offset) ⊎ ((o : ℕ) × IsAt E s n o × IsLive E s n o)
  entry_cases s n v =
      let g = L.get_total s.map_ n v.sound.index_valid in
      elim (eq_cases g.0 none_offset) [
        | inl e ↦ inl (g.1 ∙ ap some e)
        | inr e ↦ inr (g.0, (g.1, e), v.sound.entries n g.0 (g.1, e))
      ]

  pub view-none :
      (s : Viper I K V) (n : ℕ) → E.index.get s.map_ n ≡ some none_offset → view E s n ≡ none
  view-none s n e = ap (read_entry E s) e

  pub view-some : (s : Viper I K V) (n o : ℕ) → IsAt E s n o → view E s n ≡ some (record_at s o).1
  view-some s n o a = ap (read_entry E s) a.0 ∙ rw (ne→== o none_offset a.1) refl

  -- Alone, `get` is defined on each key, and reads the store.
  pub get_lem :
      (s : Viper I K V) (key : K) → IsValid E L s → get E s key ≡ some (view E s (E.get_key key))
  unfolding get is_tombstone get_value_from_offset
  get_lem s key v = elim (entry_cases s (E.get_key key) v) [
    | inl e ↦ rw (get, e) refl
    | inr e ↦
        let o = e.0 in
        rw
          (
            get,
            e.1.0,
            ne→== o none_offset e.1.1,
            IsLive-in_bounds E s (E.get_key key) o e.2,
            (v.unlocked (block_number o) (page_number o)).1,
          )
          refl
  ]
