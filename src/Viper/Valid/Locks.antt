-- ===== src/Viper/Valid/Locks.antt =====
-- The locks of the pages: one call takes and leaves them.
use viper_learned_index.Common.{ℕ, ◌+◌, ◌≡◌, refl, ◌⊎◌, inl, inr, some, arith, sym, subst}
use viper_learned_index.Viper.Lock.Bits.{IsUnlocked, IsTaken, lock-IsUnlocked, unlock-IsTaken}
use viper_learned_index.Viper.Page
use viper_learned_index.Viper.Page.{Page}
use viper_learned_index.Viper.State.{Viper, set_page, lock_page, unlock_page}
use viper_learned_index.Viper.Valid.{AllUnlocked, AllBut}

-- A lock that is as it was, or that was free and is free again.
abbrev pub Released : ℕ → ℕ → Type 0
Released v v' = (v' ≡ v) ⊎ (IsUnlocked v × IsUnlocked v')

not_taken : (v : ℕ) → IsUnlocked v → IsTaken v → ⊥
not_taken v h t = absurd (ground (arith, h.1, t.1))

module _ {I K V : Type 0} where
  -- The state with a page locked that was not.
  abbrev pub locked : Viper I K V → ℕ → ℕ → Viper I K V
  locked s b p =
      set_page s b p (record (s.v_blocks b p) { version_lock = (s.v_blocks b p).version_lock + 1 })

  pub lock_page-IsUnlocked :
      (s : Viper I K V) (b p : ℕ)
      → IsUnlocked (s.v_blocks b p).version_lock
      → lock_page s b p ≡ some (locked s b p)
  unfolding lock_page Page.lock
  lock_page-IsUnlocked s b p h =
      rw (lock_page, Page.lock, (lock-IsUnlocked (s.v_blocks b p).version_lock h).0) refl

  abbrev pub AllReleased : Viper I K V → Viper I K V → Type 0
  AllReleased s s' =
      (b p : ℕ) → Released (s.v_blocks b p).version_lock (s'.v_blocks b p).version_lock

  pub AllReleased-unlocked :
      (s s' : Viper I K V) → AllReleased s s' → AllUnlocked s → AllUnlocked s'
  AllReleased-unlocked s s' r h b p = elim (r b p) [
    | inl e ↦ subst (λ v. IsUnlocked v) (sym e) (h b p)
    | inr u ↦ u.1
  ]

  pub AllReleased-but :
      (s s' : Viper I K V) (b p : ℕ) → AllReleased s s' → AllBut s b p → AllBut s' b p
  AllReleased-but s s' b p r h = (
    elim (r b p) [
      | inl e ↦ subst (λ v. IsTaken v) (sym e) h.0
      | inr u ↦ absurd (not_taken _ u.0 h.0)
    ],
    λ b' p' d. elim (r b' p') [
      | inl e ↦ subst (λ v. IsUnlocked v) (sym e) (h.1 b' p' d)
      | inr u ↦ u.1
    ],
  )

  pub locked-AllBut : (s : Viper I K V) (b p : ℕ) → AllUnlocked s → AllBut (locked s b p) b p
  locked-AllBut s b p h =
      let t = (lock-IsUnlocked (s.v_blocks b p).version_lock (h b p)).1 in
      let k = h b p in
      ((ground arith, ground arith), λ b' p' d. (let u = h b' p' in (ground arith, ground arith)))

  -- The page is unlocked with the bits and records it then has.
  pub unlock_page-AllBut :
      (s : Viper I K V) (b p : ℕ) → AllBut s b p → AllUnlocked (unlock_page s b p)
  unfolding unlock_page Page.unlock
  unlock_page-AllBut s b p h b' p' =
      let t = unlock-IsTaken (s.v_blocks b p).version_lock h.0 in
      let u = h.1 b' p' in (ground arith, ground arith)
