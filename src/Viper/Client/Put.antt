-- ===== src/Viper/Client/Put.antt =====
-- `put`: it ends in two rounds at most, and changes the store at its key.
use viper_learned_index.Common.{
  is_none, ℕ, suc, ◌+◌, ◌^◌, ◌≤◌, ◌<◌, ◌≡◌, refl, ◌≢◌, inl, inr, Bool, true, some, arith, ap, ◌∙◌,
  lt→leb, le→leb, Returns, lt_cases, upd,
}
use viper_learned_index.Viper.Page.{find_first}
use viper_learned_index.Viper.Offset.{block_number}
use viper_learned_index.Viper.Interface.{Env, IndexLaws, IsTelling}
use viper_learned_index.Viper.State.{Viper, Client, unlock_page}
use viper_learned_index.Viper.Access.{update_access_information}
use viper_learned_index.Viper.Access.Move.{update_access_information_lem}
use viper_learned_index.Viper.Valid.{Sizes, view, Owns, IsValid}
use viper_learned_index.Viper.Valid.Kept.{
  Kept, Kept-trans, Kept-view, Kept-Owns, Kept-IsSound, relock-Kept, unlock_page-Kept,
}
use viper_learned_index.Viper.Valid.Locks.{
  locked, lock_page-IsUnlocked, locked-AllBut, unlock_page-AllBut,
}
use viper_learned_index.Viper.Client.{put_at, put_on, put}
use viper_learned_index.Viper.Client.Write.{IsOpen}
use viper_learned_index.Viper.Client.PutAt.{put_at_lem}
use viper_learned_index.Viper.Client.Sync.{find_first-slot, find_first-free}

module _ {I K V : Type 0} (E : Env I K V) (L : IndexLaws E.index) where
  -- What a `put` leaves behind; `r.2` says whether the key was new.
  pub record Stored (s : Viper I K V) (c : Client) (key : K) (value : V)
      (r : Viper I K V × Client × Bool) : Type 0 where
    pub valid : IsValid E L r.0
    pub owns : Owns E r.0 r.1
    pub reads : view E r.0 ≡ upd (view E s) (E.get_key key) (some value)
    pub tells : IsTelling E.index → r.2 ≡ is_none (view E s (E.get_key key))
    pub others :
        (d : Client)
        → Owns E s d
        → d.v_block_number ≢ c.v_block_number
        → Owns E r.0 d × (d.v_block_number ≢ r.1.v_block_number)
    pub current_le : block_number r.0.current_block_page ≤ block_number s.current_block_page + 1

  abbrev mine : Viper I K V → Client → Viper I K V
  mine s c = locked s c.v_block_number c.v_page_number

  abbrev slot_of : Viper I K V → Client → ℕ
  slot_of s c =
      find_first ((mine s c).v_blocks c.v_block_number c.v_page_number).free_slots
        E.num_slots_per_page 0

  mine-Kept : (s : Viper I K V) (c : Client) → Kept E s (mine s c)
  mine-Kept s c = relock-Kept E s c.v_block_number c.v_page_number _

  here_run :
      (fuel : ℕ) (s : Viper I K V) (c : Client) (key : K) (value : V)
      → IsValid E L s
      → slot_of s c < E.num_slots_per_page
      → put_on E (suc fuel) s c key value true
        ≡ put_at E (suc fuel) (mine s c) c key value true (slot_of s c)
  unfolding put_on
  here_run fuel s c key value v lt =
      rw
        (
          put_on,
          lock_page-IsUnlocked s c.v_block_number c.v_page_number
              (v.unlocked c.v_block_number c.v_page_number),
          lt→leb (slot_of s c) E.num_slots_per_page lt,
        )
        refl

  full_run :
      (fuel : ℕ) (s : Viper I K V) (c : Client) (key : K) (value : V) (r : Viper I K V × Client)
      → IsValid E L s
      → E.num_slots_per_page ≤ slot_of s c
      → update_access_information E (unlock_page (mine s c) c.v_block_number c.v_page_number) c
        ≡ some r
      → put_on E (suc fuel) s c key value true ≡ put_on E fuel r.0 r.1 key value true
  unfolding put_on
  full_run fuel s c key value r v le e =
      rw
        (
          put_on,
          lock_page-IsUnlocked s c.v_block_number c.v_page_number
              (v.unlocked c.v_block_number c.v_page_number),
          le→leb E.num_slots_per_page (slot_of s c) le,
          e,
        )
        refl

  -- The page has a free slot.
  put_here_lem :
      (z : Sizes E) (fuel : ℕ) (s : Viper I K V) (c : Client) (key : K) (value : V)
      → IsValid E L s
      → Owns E s c
      → slot_of s c < E.num_slots_per_page
      → Returns
          (put_on E (suc fuel) s c key value true)
          λ r. Stored s c key value r × (r.0.current_block_page ≡ s.current_block_page)
  put_here_lem z fuel s c key value v w lt =
      let k = mine-Kept s c in
      let s1 = mine s c in
      let o = Kept-Owns E s s1 c k w in
      let h : IsOpen E s1 c.v_block_number c.v_page_number (slot_of s c) = record {
        block_lt = o.block_lt;
        handed_out = o.handed_out;
        page_lt = o.page_lt;
        slot_lt = lt;
        is_free =
            find_first-slot (s1.v_blocks c.v_block_number c.v_page_number).free_slots
              E.num_slots_per_page 0 (omega arith);
      } in
      let f =
        put_at_lem E L z s1 c key value (slot_of s c) (Kept-IsSound E L s s1 k v.sound)
          (locked-AllBut s c.v_block_number c.v_page_number v.unlocked) o h fuel true in
      let x = f.2.0 in
      (
        f.0,
        here_run fuel s c key value v lt ∙ f.1,
        (
          record {
            valid = x.valid;
            owns = x.owns;
            reads = x.reads ∙ ap (λ g. upd g (E.get_key key) (some value)) (Kept-view E s s1 k);
            tells = λ t. f.2.1 t ∙ ap (λ g. is_none (g (E.get_key key))) (Kept-view E s s1 k);
            others = λ d wd ne. (x.others d (Kept-Owns E s s1 d k wd) ne, λ e. ne (e ∙ x.place));
            current_le = let e = x.current_same in rw (e, k.current_same) (omega arith);
          },
          x.current_same ∙ k.current_same,
        ),
      )

  empty-slot :
      (z : Sizes E) (s : Viper I K V) (c : Client)
      → ((t : ℕ) → (s.v_blocks c.v_block_number c.v_page_number).free_slots t ≡ true)
      → slot_of s c < E.num_slots_per_page
  empty-slot z s c h =
      let l = z.some_slot in
      let e =
        find_first-free ((mine s c).v_blocks c.v_block_number c.v_page_number).free_slots
          E.num_slots_per_page 0 l (let f = h 0 in ground arith) in
      omega arith

  -- On a valid store, by a client that owns its block, with fewer than 2 ^ 45 blocks, `put` ends
  -- within two rounds; the store stays valid and reads as before but for the value at the key, the
  -- clients keep their blocks, and an index that tells the old offset makes the result say whether the
  -- key was new.
  pub put_lem :
      (z : Sizes E) (s : Viper I K V) (c : Client) (key : K) (value : V)
      → IsValid E L s
      → Owns E s c
      → block_number s.current_block_page + 1 < 2 ^ 45
      → Returns (put E s c key value) (Stored s c key value)
  unfolding put
  put_lem z s c key value v w room = elim (lt_cases (slot_of s c) E.num_slots_per_page) [
    | inl lt ↦ (let p = put_here_lem z 1 s c key value v w lt in (p.0, p.1, p.2.0))
    | inr le ↦
        let s1 = mine s c in
        let u = unlock_page s1 c.v_block_number c.v_page_number in
        let k =
          Kept-trans E s s1 u (mine-Kept s c)
            (unlock_page-Kept E s1 c.v_block_number c.v_page_number) in
        let v' : IsValid E L u = record {
          sound = Kept-IsSound E L s u k v.sound;
          unlocked =
              unlock_page-AllBut s1 c.v_block_number c.v_page_number
                (locked-AllBut s c.v_block_number c.v_page_number v.unlocked);
        } in
        let m =
          update_access_information_lem E L z u c (let e = k.current_same in rw e room) v'
            (Kept-Owns E s u c k w) in
        let x = m.2.fresh in
        let p =
          put_here_lem z 0 m.0.0 m.0.1 key value x.valid x.owns
            (empty-slot z m.0.0 m.0.1 m.2.free) in
        let y = p.2.0 in
        let g = x.reads ∙ Kept-view E s u k in
        (
          p.0,
          full_run 1 s c key value m.0 v le m.1 ∙ p.1,
          record {
            valid = y.valid;
            owns = y.owns;
            reads = y.reads ∙ ap (λ f. upd f (E.get_key key) (some value)) g;
            tells = λ t. y.tells t ∙ ap (λ f. is_none (f (E.get_key key))) g;
            others =
                λ d wd ne. (let q = x.others d (Kept-Owns E s u d k wd) ne in y.others d q.0 q.1);
            current_le =
                let l = x.current_le in
                let e = ap block_number k.current_same in
                let e' = ap block_number p.2.1 in omega arith;
          },
        )
  ]
