-- ===== src/Viper/Client/Deadlock.antt =====
-- The deadlock check of `Client::free_occupied_slot`: two clients, each of which holds the lock of
-- the page that the other waits for.
pub mod Turns
pub mod Rounds
pub mod Leaves
use viper_learned_index.Common.{
  ℕ, ◌≡◌, ◌≢◌, refl, Bool, true, false, ◌||◌, List, [], ◌∷◌, ◌++◌, arith, ◌==◌, sym, ◌∙◌, inl, inr,
  Bool-cases, eq_cases, ne→==, not, subst, ap, if◌then◌else◌,
}
use viper_learned_index.Viper.Page
use viper_learned_index.Viper.Offset.{block_number, page_number, data_offset}
use viper_learned_index.Viper.State.{Viper, Client, invalidate_record}
use viper_learned_index.Viper.Client.{contains, on_page, clear_offsets, deadlock_pass}

not_self : (b : Bool) → b ≢ not b
not_self true e = absurd (ground arith)
not_self false e = absurd (ground arith)

on_page-eq :
    (c : Client) (o : ℕ)
    → on_page c o ≡ true
    → (block_number o ≡ c.v_block_number) × (page_number o ≡ c.v_page_number)
unfolding on_page
on_page-eq c o h = ground arith

contains-append : (o : ℕ) (os : List ℕ) → contains o (os ++ (o ∷ [])) ≡ true
unfolding contains
contains-append o [] = ground arith
contains-append o (x ∷ os) = let later = contains-append o os in ground arith

contains-prefix :
    (o x : ℕ) (os : List ℕ) → contains o os ≡ true → contains o (os ++ (x ∷ [])) ≡ true
unfolding contains
contains-prefix o x [] h = absurd (ground arith)
contains-prefix o x (y ∷ os) h =
    let later : contains o os ≡ true → contains o (os ++ (x ∷ [])) ≡ true =
      contains-prefix o x os in
    elim (Bool-cases (y == o)) [ inl e ↦ rw e refl | inr ne ↦ rw ne (later (sym (rw ne refl) ∙ h)) ]

-- An offset on the page and one that is not differ.
on_page-apart :
    (c : Client) (x o : ℕ) (b : Bool) → on_page c x ≡ b → on_page c o ≡ not b → (x == o) ≡ false
on_page-apart c x o b h g = elim (eq_cases x o) [
  | inl e ↦ absurd (not_self b (sym h ∙ ap (on_page c) e ∙ g))
  | inr ne ↦ ne→== x o ne
]

module _ {I K V : Type 0} where
  -- The slot of an offset is free.
  abbrev pub IsFree : Viper I K V → ℕ → Type 0
  IsFree s o = (s.v_blocks (block_number o) (page_number o)).free_slots (data_offset o) ≡ true

  -- No slot is taken, and no lock changes.
  pub record Cleared (s s' : Viper I K V) : Type 0 where
    pub free :
        (b p slot : ℕ)
        → (s.v_blocks b p).free_slots slot ≡ true
        → (s'.v_blocks b p).free_slots slot ≡ true
    pub locks : (b p : ℕ) → (s'.v_blocks b p).version_lock ≡ (s.v_blocks b p).version_lock

  invalidate-Cleared : (s : Viper I K V) (b p slot : ℕ) → Cleared s (invalidate_record s b p slot)
  unfolding invalidate_record Page.invalidate_record
  invalidate-Cleared s b p slot = record {
    free = λ b' p' slot' h. ground arith;
    locks = λ b' p'. ground arith;
  }

  clear_offsets-Cleared :
      (s : Viper I K V) (c : Client) (os : List ℕ) → Cleared s (clear_offsets s c os).0
  unfolding clear_offsets
  clear_offsets-Cleared s c [] = record { free = λ b p slot h. h; locks = λ b p. refl }
  clear_offsets-Cleared s c (o ∷ os) = elim (Bool-cases (on_page c o)) [
    | inl own ↦
        let s1 = invalidate_record s c.v_block_number c.v_page_number (data_offset o) in
        let first = invalidate-Cleared s c.v_block_number c.v_page_number (data_offset o) in
        let later = clear_offsets-Cleared s1 c os in
        rw own record {
          free = λ b p slot h. later.free b p slot (first.free b p slot h);
          locks = λ b p. later.locks b p ∙ first.locks b p;
        }
    | inr other ↦ rw other (clear_offsets-Cleared s c os)
  ]

  invalidate-IsFree :
      (s : Viper I K V) (c : Client) (o : ℕ)
      → on_page c o ≡ true
      → IsFree (invalidate_record s c.v_block_number c.v_page_number (data_offset o)) o
  unfolding invalidate_record Page.invalidate_record
  invalidate-IsFree s c o h = let e = on_page-eq c o h in ground arith

  -- The offsets of the client's page are freed, and leave the list.
  clear_offsets-own :
      (s : Viper I K V) (c : Client) (o : ℕ) (os : List ℕ)
      → on_page c o ≡ true
      → (contains o (clear_offsets s c os).1 ≡ false)
        × (contains o os ≡ true → IsFree (clear_offsets s c os).0 o)
  unfolding clear_offsets contains
  clear_offsets-own s c o [] h = (refl, λ e. absurd (ground arith))
  clear_offsets-own s c o (x ∷ os) h = elim (Bool-cases (on_page c x)) [
    | inl own ↦
        let s1 = invalidate_record s c.v_block_number c.v_page_number (data_offset x) in
        let later = clear_offsets-own s1 c o os h in
        let kept = clear_offsets-Cleared s1 c os in
        rw own (
          later.0,
          λ e. elim (eq_cases x o) [
            | inl same ↦ kept.free (block_number o) (page_number o) (data_offset o) (
                subst
                  (λ y.
                    IsFree (invalidate_record s c.v_block_number c.v_page_number (data_offset y)) o)
                  (sym same) (invalidate-IsFree s c o h))
            | inr ne ↦ later.1 (ground arith)
          ],
        )
    | inr other ↦
        let later = clear_offsets-own s c o os h in
        let ne : (x == o) ≡ false = on_page-apart c x o false other h in rw (other, ne) later
  ]

  clear_offsets-other :
      (s : Viper I K V) (c : Client) (o : ℕ) (os : List ℕ)
      → on_page c o ≡ false
      → contains o (clear_offsets s c os).1 ≡ contains o os
  unfolding clear_offsets contains
  clear_offsets-other s c o [] h = refl
  clear_offsets-other s c o (x ∷ os) h = elim (Bool-cases (on_page c x)) [
    | inl own ↦
        let later =
          clear_offsets-other (invalidate_record s c.v_block_number c.v_page_number (data_offset x))
            c o os h in
        let ne : (x == o) ≡ false = on_page-apart c x o true own h in rw (own, ne) later
    | inr other ↦ rw other (ap (λ b. (x == o) || b) (clear_offsets-other s c o os h))
  ]

  pub deadlock_pass-Cleared :
      (s : Viper I K V) (c : Client) (o : ℕ) (inserted : Bool)
      → Cleared s (deadlock_pass s c o inserted).0
  unfolding deadlock_pass
  deadlock_pass-Cleared s c o inserted =
      let os = if inserted then s.deadlock_offsets else s.deadlock_offsets ++ (o ∷ []) in
      let r = clear_offsets-Cleared s c os in record { free = r.free; locks = r.locks }

  -- The first pass finds the client's own offset, and leaves it for the others.
  pub first_pass :
      (s : Viper I K V) (c : Client) (o : ℕ)
      → on_page c o ≡ false
      → let r = deadlock_pass s c o false in (r.1 ≡ true) × (contains o r.0.deadlock_offsets ≡ true)
  unfolding deadlock_pass
  first_pass s c o h =
      let found = contains-append o s.deadlock_offsets in
      (found, clear_offsets-other s c o (s.deadlock_offsets ++ (o ∷ [])) h ∙ found)

  -- A pass frees the offsets of the client's page that wait.
  pub pass_frees :
      (s : Viper I K V) (c : Client) (own o : ℕ) (inserted : Bool)
      → on_page c o ≡ true
      → contains o s.deadlock_offsets ≡ true
      → let r = deadlock_pass s c own inserted in
        (contains o r.0.deadlock_offsets ≡ false) × IsFree r.0 o
  unfolding deadlock_pass
  pass_frees s c own o true h w =
      let r = clear_offsets-own s c o s.deadlock_offsets h in (r.0, r.1 w)
  pass_frees s c own o false h w =
      let r = clear_offsets-own s c o (s.deadlock_offsets ++ (own ∷ [])) h in
      (r.0, r.1 (contains-prefix o own s.deadlock_offsets w))

  -- A later pass looks for the offset among those that wait.
  pub later_pass :
      (s : Viper I K V) (c : Client) (o : ℕ)
      → (deadlock_pass s c o true).1 ≡ contains o s.deadlock_offsets
  unfolding deadlock_pass
  later_pass s c o = refl

  -- It leaves an offset that is not on the client's page, and removes those that are.
  pub later_keeps :
      (s : Viper I K V) (c : Client) (own o : ℕ)
      → on_page c o ≡ false
      → contains o (deadlock_pass s c own true).0.deadlock_offsets ≡ contains o s.deadlock_offsets
  unfolding deadlock_pass
  later_keeps s c own o h = clear_offsets-other s c o s.deadlock_offsets h

  pub later_clears :
      (s : Viper I K V) (c : Client) (own o : ℕ)
      → on_page c o ≡ true
      → contains o (deadlock_pass s c own true).0.deadlock_offsets ≡ false
  unfolding deadlock_pass
  later_clears s c own o h = (clear_offsets-own s c o s.deadlock_offsets h).0
