-- ===== src/Viper/Client/Updated.antt =====
-- The effect of `update` on the store: a page with another record, and a lock taken and given back.
use viper_learned_index.Common.{ℕ, ◌+◌, ◌≡◌, refl, ◌≢◌, inl, inr, arith, eq_cases}
use viper_learned_index.Viper.Lock.Bits.{IsUnlocked, lock-IsUnlocked, unlock-IsTaken}
use viper_learned_index.Viper.Page
use viper_learned_index.Viper.Page.{Page}
use viper_learned_index.Viper.Offset.{block_number, page_number, data_offset}
use viper_learned_index.Viper.Interface.{Env}
use viper_learned_index.Viper.State.{Viper, set_page, unlock_page, record_at}
use viper_learned_index.Viper.Valid.{IsLive}
use viper_learned_index.Viper.Valid.Live.{
  Holds-at, IsLive-set_page, IsLive-relock, IsLive-unlock_page,
}
use viper_learned_index.Viper.Valid.Locks.{AllReleased, locked}

module _ {I K V : Type 0} (E : Env I K V) where
  -- The page of the offset with a new record, and the lock as it was.
  abbrev pub replaced : Viper I K V → ℕ → V → Viper I K V
  replaced s o value =
      let b = block_number o in
      let p = page_number o in
      set_page s b p (Page.set_record (s.v_blocks b p) (data_offset o) ((record_at s o).0, value))

  abbrev pub updated : Viper I K V → ℕ → V → Viper I K V
  updated s o value =
      unlock_page (replaced (locked s (block_number o) (page_number o)) o value) (block_number o)
        (page_number o)

  pub replaced-IsLive :
      (s : Viper I K V) (o : ℕ) (value : V) (n q : ℕ)
      → IsLive E s n q
      → IsLive E (replaced s o value) n q
  unfolding Page.set_record record_at
  replaced-IsLive s o value n q l =
      IsLive-set_page E s (block_number o) (page_number o) _ n q l λ x y.
        let h = Holds-at E s (block_number o) (page_number o) n q l x y in
        let u = h.0 in
        let k = h.1 in
        (
          u,
          elim (eq_cases (data_offset q) (data_offset o)) [
            | inl e ↦ ground arith
            | inr e ↦ ground arith
          ],
        )

  pub updated-record_at :
      (s : Viper I K V) (o : ℕ) (value : V) → (record_at (updated s o value) o).1 ≡ value
  unfolding Page.set_record record_at unlock_page Page.unlock
  updated-record_at s o value = ground arith

  pub updated-other :
      (s : Viper I K V) (o q : ℕ) (value : V)
      → (block_number q ≡ block_number o
          → page_number q ≡ page_number o
          → data_offset q ≢ data_offset o)
      → record_at (updated s o value) q ≡ record_at s q
  unfolding Page.set_record record_at unlock_page Page.unlock
  updated-other s o q value h = ground (arith, h)

  pub updated-AllReleased :
      (s : Viper I K V) (o : ℕ) (value : V)
      → IsUnlocked (s.v_blocks (block_number o) (page_number o)).version_lock
      → AllReleased s (updated s o value)
  unfolding Page.set_record unlock_page Page.unlock
  updated-AllReleased s o value u b p =
      let v = (s.v_blocks (block_number o) (page_number o)).version_lock in
      let t = unlock-IsTaken (v + 1) (lock-IsUnlocked v u).1 in
      elim (eq_cases b (block_number o)) [
        | inr e ↦ inl (ground arith)
        | inl e ↦ elim (eq_cases p (page_number o)) [
          | inr f ↦ inl (ground arith)
          | inl f ↦ inr ((ground arith, ground arith), (ground arith, ground arith))
        ]
      ]

  pub updated-IsLive :
      (s : Viper I K V) (o : ℕ) (value : V) (n q : ℕ)
      → IsLive E s n q
      → IsLive E (updated s o value) n q
  updated-IsLive s o value n q l = IsLive-unlock_page E _ (block_number o) (page_number o) n q (
      replaced-IsLive (locked s (block_number o) (page_number o)) o value n q
        (IsLive-relock E s (block_number o) (page_number o) _ n q l))

  pub updated-map : (s : Viper I K V) (o : ℕ) (value : V) → (updated s o value).map_ ≡ s.map_
  unfolding unlock_page
  updated-map s o value = refl

  pub updated-current :
      (s : Viper I K V) (o : ℕ) (value : V)
      → (updated s o value).current_block_page ≡ s.current_block_page
  unfolding unlock_page
  updated-current s o value = refl

  pub updated-num :
      (s : Viper I K V) (o : ℕ) (value : V) → (updated s o value).num_v_blocks ≡ s.num_v_blocks
  unfolding unlock_page
  updated-num s o value = refl

  pub updated-free :
      (s : Viper I K V) (o : ℕ) (value : V) → (updated s o value).free_blocks ≡ s.free_blocks
  unfolding unlock_page
  updated-free s o value = refl
