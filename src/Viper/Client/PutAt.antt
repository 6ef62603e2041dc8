-- ===== src/Viper/Client/PutAt.antt =====
-- `put` on a page with a free slot: the index is told, the old record is freed, the page unlocked.
use viper_learned_index.Common.{
  is_none, ℕ, suc, ◌+◌, ◌%◌, ◌≡◌, refl, ◌≢◌, ◌⊎◌, inl, inr, Bool, true, false, not, ◌&&◌, ◌||◌,
  some, arith, ap, sym, ◌∙◌, ◌==◌, if◌then◌else◌, Bool-cases, Returns, word,
}
use viper_learned_index.FitingTree.Parameters.{none_offset}
use viper_learned_index.Viper.Page
use viper_learned_index.Viper.Offset.{pack, is_tombstone}
use viper_learned_index.Viper.Interface.{Env, IndexLaws, IsTelling}
use viper_learned_index.Viper.State.{Viper, Client, increment, decrement, unlock_page, write_record}
use viper_learned_index.Viper.Access.{info_sync}
use viper_learned_index.Viper.Valid.{Sizes, IsLive, IsAt, read_entry, view, Owns, AllBut, IsSound}
use viper_learned_index.Viper.Valid.Locks.{AllReleased-but}
use viper_learned_index.Viper.Client.{free_occupied_slot, put_at}
use viper_learned_index.Viper.Client.Free.{freed_client}
use viper_learned_index.Viper.Client.Write.{
  Inserted, IsOpen, written, old-IsLive, old-gone, written-view,
}
use viper_learned_index.Viper.Client.Written.{written-Owns, written-IsSound}
use viper_learned_index.Viper.Client.Sync.{info_sync-total, total}
use viper_learned_index.Viper.Client.Old.{free_old_lem, Wrote, finish_lem}

module _ {I K V : Type 0} (E : Env I K V) (L : IndexLaws E.index) where
  abbrev frees : ℕ → Bool → Bool
  frees old delete_old = not (is_tombstone old) && delete_old

  frees-ne : (old : ℕ) (delete_old : Bool) → frees old delete_old ≡ true → old ≢ none_offset
  unfolding is_tombstone
  frees-ne old delete_old f e = absurd (ground arith)

  -- The client behind the step that frees.
  abbrev ending : Client → ℕ → Bool → Client
  ending c old delete_old =
      let d = (if frees old delete_old then freed_client E c else c) in
      record d { size_delta = increment d.size_delta }

  pub Owns-recount :
      (s : Viper I K V) (c : Client) (n : ℕ) → Owns E s c → Owns E s (record c { size_delta = n })
  Owns-recount s c n w = record {
    based = w.based;
    placed = w.placed;
    block_lt = w.block_lt;
    handed_out = w.handed_out;
    page_lt = w.page_lt;
    processed = w.processed;
    fresh = w.fresh;
  }

  Owns-ending :
      (s : Viper I K V) (c : Client) (old : ℕ) (delete_old : Bool)
      → Owns E s c
      → Owns E s (ending c old delete_old)
  Owns-ending s c old delete_old w = elim (Bool-cases (frees old delete_old)) [
    | inl e ↦ rw e (Owns-recount s c (increment (decrement c.size_delta)) w)
    | inr e ↦ rw e (Owns-recount s c (increment c.size_delta) w)
  ]

  ending-place :
      (c : Client) (old : ℕ) (delete_old : Bool)
      → (ending c old delete_old).v_block_number ≡ c.v_block_number
  ending-place c old delete_old = elim (Bool-cases (frees old delete_old)) [
    | inl e ↦ rw e refl
    | inr e ↦ rw e refl
  ]

  module _ (z : Sizes E) (s : Viper I K V) (c : Client) (key : K) (value : V) (slot : ℕ)
      (w : IsSound E L s) (a : AllBut s c.v_block_number c.v_page_number) (o : Owns E s c)
      (h : IsOpen E s c.v_block_number c.v_page_number slot) where
    abbrev place : ℕ
    place = pack c.v_block_number c.v_page_number slot

    abbrev behind : I → Viper I K V
    behind m = written E s c.v_block_number c.v_page_number slot key value m

    behind-AllBut : (m : I) → AllBut (behind m) c.v_block_number c.v_page_number
    unfolding write_record Page.write_record
    behind-AllBut m = (
      let x = a.0 in (ground arith, ground arith),
      λ b p d. (let x = a.1 b p d in (ground arith, ground arith)),
    )

    old_cases :
        (m : I) (old : ℕ) (delete_old : Bool)
        → Inserted E s.map_ m (E.get_key key) place
        → (old ≡ none_offset) ⊎ (E.index.get s.map_ (E.get_key key) ≡ some old)
        → frees old delete_old ≡ true
        → IsLive E (behind m) (E.get_key key) old × ((n : ℕ) → IsAt E (behind m) n old → ⊥)
    old_cases m old delete_old i d f =
        let ne : old ≢ none_offset = frees-ne old delete_old f in
        let g : E.index.get s.map_ (E.get_key key) ≡ some old = elim d [
          | inl e ↦ absurd (ne e)
          | inr e ↦ e
        ] in
        let l = w.entries (E.get_key key) old (g, ne) in
        (
          old-IsLive E s c.v_block_number c.v_page_number slot key value m (E.get_key key) old h l,
          λ n.
              old-gone E s c.v_block_number c.v_page_number slot key value m n old z h i w.entries
                l,
        )

    behind-current : (m : I) → (behind m).current_block_page ≡ s.current_block_page
    unfolding write_record
    behind-current m = refl

    told : (old : ℕ) → (old == none_offset) ≡ is_none (read_entry E s (some old))
    told old = elim (Bool-cases (old == none_offset)) [ inl e ↦ rw e refl | inr e ↦ rw e refl ]

    tells :
        (old : ℕ)
        → E.index.get s.map_ (E.get_key key) ≡ some old
        → is_tombstone old ≡ is_none (view E s (E.get_key key))
    unfolding is_tombstone
    tells old e = told old ∙ ap (λ r. is_none (read_entry E s r)) (sym e)

    counts :
        (m : I) (old : ℕ) (delete_old : Bool) (q : Viper I K V)
        → q.current_size ≡ (behind m).current_size
        → total E (unlock_page q c.v_block_number c.v_page_number, ending c old delete_old)
          ≡ (total E (s, c) + (if is_tombstone old || not delete_old then 1 else 0)) % word
    unfolding unlock_page write_record
    counts m old true q e = elim (Bool-cases (is_tombstone old)) [
      | inl t ↦ rw (t, e) (omega arith)
      | inr t ↦ rw (t, e) (omega arith)
    ]
    counts m old false q e = elim (Bool-cases (is_tombstone old)) [
      | inl t ↦ rw (t, e) (omega arith)
      | inr t ↦ rw (t, e) (omega arith)
    ]

    put_at-run :
        (fuel : ℕ) (delete_old : Bool) (m : I) (old : ℕ) (q : Viper I K V) (d : Client)
        → E.index.insert s.map_ (E.get_key key) place ≡ some (m, old)
        → (if frees old delete_old
            then free_occupied_slot E (suc fuel) (behind m) c old key false
            else some (behind m, c))
          ≡ some (q, d)
        → d ≡ (if frees old delete_old then freed_client E c else c)
        → let r =
            info_sync E
              (unlock_page q c.v_block_number c.v_page_number)
              (ending c old delete_old)
              false in
          put_at E (suc fuel) s c key value delete_old slot ≡ some (r.0, r.1, is_tombstone old)
    unfolding put_at write_record
    put_at-run fuel delete_old m old q d e f g =
        let u = unlock_page q c.v_block_number c.v_page_number in
        rw (put_at, e, f)
          (ap
            (λ x.
              let r = info_sync E u (record x { size_delta = increment x.size_delta }) false in
              some (r.0, r.1, is_tombstone old))
            g)

    -- The call ends in order, and reads as the new value at the key.
    pub put_at_lem :
        (fuel : ℕ) (delete_old : Bool)
        → Returns (put_at E (suc fuel) s c key value delete_old slot) λ r.
          Wrote E L s c key value r
          × (IsTelling E.index → r.2 ≡ is_none (view E s (E.get_key key)))
          × (total E (r.0, r.1)
              ≡ (total E (s, c) + (if r.2 || not delete_old then 1 else 0)) % word)
    put_at_lem fuel delete_old =
        let n = E.get_key key in
        let ins = L.insert_total s.map_ n place w.index_valid in
        let m = ins.0.0 in
        let old = ins.0.1 in
        let i : Inserted E s.map_ m n place = record { here = ins.2.2; there = ins.2.3 } in
        let s2 = behind m in
        let f =
          free_old_lem E fuel s2 c old key (frees old delete_old)
            (old_cases m old delete_old i ins.2.1) (behind-AllBut m) in
        let e = ending c old delete_old in
        let u = unlock_page f.0.0 c.v_block_number c.v_page_number in
        let r = info_sync E u e false in
        (
          (r.0, r.1, is_tombstone old),
          put_at-run fuel delete_old m old f.0.0 f.0.1 ins.1 f.1 f.2.client,
          (
            finish_lem E L s s2 f.0.0 c e key value (is_tombstone old) f.2.kept
                (written-IsSound E L s c.v_block_number c.v_page_number slot key value m z h i
                  ins.2.0 w)
                (AllReleased-but s2 f.0.0 c.v_block_number c.v_page_number f.2.locks
                  (behind-AllBut m))
                (Owns-ending s2 c old delete_old (
                  written-Owns E s c.v_block_number c.v_page_number slot key value m c z h i
                    (inr refl) o))
                (ending-place c old delete_old)
                (written-view E s c.v_block_number c.v_page_number slot key value m z h i w.entries)
                (λ d od ne.
                  written-Owns E s c.v_block_number c.v_page_number slot key value m d z h i
                    (inl (λ x. ne (sym x))) od)
                (behind-current m),
            λ t. tells old (t s.map_ n place m old ins.1),
            info_sync-total E u e false ∙ counts m old delete_old f.0.0 f.2.size_same,
          ),
        )
