-- ===== src/Viper/Client/Write.antt =====
-- The first half of `put`: a record goes to a free slot, and the index learns its place.
use viper_learned_index.Common.{
  ℕ, ◌<◌, ◌≡◌, refl, ◌≢◌, ◌⊎◌, inl, inr, true, false, some, arith, ap, sym, subst, ◌∙◌, upd,
  upd_self, upd_other, eq_cases, ne→==, some_inj,
}
use mathlib.Core.Path.{fun_ext}
use viper_learned_index.FitingTree.Parameters.{none_offset}
use viper_learned_index.Viper.Page
use viper_learned_index.Viper.Offset.{pack, block_number, page_number, data_offset}
use viper_learned_index.Viper.Offset.Fields.{
  Fits, block_number-pack, page_number-pack, data_offset-pack, pack-ne-none_offset, pack-lt,
  block_number-lt,
}
use viper_learned_index.Viper.Interface.{Env}
use viper_learned_index.Viper.State.{Viper, record_at, write_record}
use viper_learned_index.Viper.Valid.{Sizes, IsLive, IsAt, read_entry, view}
use viper_learned_index.Viper.Valid.Live.{IsLive-write_record, IsLive-kept, IsLive-Holds}
use viper_learned_index.Viper.Valid.Kept.{read_entry-same}

module _ {I K V : Type 0} (E : Env I K V) where
  -- The index behind an insertion of `o` for `n`.
  pub record Inserted (m m' : I) (n o : ℕ) : Type 0 where
    pub here : E.index.get m' n ≡ some o
    pub there : (q : ℕ) → q ≢ n → E.index.get m' q ≡ E.index.get m q

  -- A slot that a client may write to.
  pub record IsOpen (s : Viper I K V) (b p t : ℕ) : Type 0 where
    pub block_lt : b < s.num_v_blocks
    pub handed_out : b < block_number s.current_block_page
    pub page_lt : p < E.num_pages_per_block
    pub slot_lt : t < E.num_slots_per_page
    pub is_free : (s.v_blocks b p).free_slots t ≡ true

  abbrev pub written : Viper I K V → ℕ → ℕ → ℕ → K → V → I → Viper I K V
  written s b p t key value m = record (write_record s b p t key value) { map_ = m }

  open-Fits : (s : Viper I K V) (b p t : ℕ) → Sizes E → IsOpen s b p t → Fits b p t
  open-Fits s b p t z h =
      let l = block_number-lt s.current_block_page in
      let a = h.handed_out in
      let a1 = h.page_lt in
      let a2 = h.slot_lt in
      let z1 = z.few_pages in let z2 = z.few_slots in (omega arith, omega arith, omega arith)

  -- Where the new record is.
  abbrev pub At : ℕ → ℕ → ℕ → ℕ → Type 0
  At o b p t = (block_number o ≡ b) × (page_number o ≡ p) × (data_offset o ≡ t)

  pub pack-At : (s : Viper I K V) (b p t : ℕ) → Sizes E → IsOpen s b p t → At (pack b p t) b p t
  pack-At s b p t z h =
      let f = open-Fits s b p t z h in
      (block_number-pack b p t f, page_number-pack b p t f, data_offset-pack b p t f)

  pub record_at-written :
      (s : Viper I K V) (b p t : ℕ) (key : K) (value : V) (m : I) (o : ℕ)
      → At o b p t
      → record_at (written s b p t key value m) o ≡ (key, value)
  unfolding record_at write_record Page.write_record
  record_at-written s b p t key value m o a =
      let x = a.0 in let y = a.1 in let z = a.2 in ground arith

  record_at-kept :
      (s : Viper I K V) (b p t : ℕ) (key : K) (value : V) (m : I) (n o : ℕ)
      → IsOpen s b p t
      → IsLive E s n o
      → record_at (written s b p t key value m) o ≡ record_at s o
  unfolding record_at write_record Page.write_record
  record_at-kept s b p t key value m n o h l =
      let f = h.is_free in let u = l.is_used in ground arith

  pub new-IsLive :
      (s : Viper I K V) (b p t : ℕ) (key : K) (value : V) (m : I)
      → Sizes E
      → IsOpen s b p t
      → IsLive E (written s b p t key value m) (E.get_key key) (pack b p t)
  unfolding write_record Page.write_record
  new-IsLive s b p t key value m z h =
      let a = pack-At s b p t z h in
      let r = record_at-written s b p t key value m (pack b p t) a in
      let l = pack-lt b p t in
      let h1 = h.block_lt in
      let h2 = h.page_lt in
      let h3 = h.slot_lt in
      let h4 = h.handed_out in
      let a0 = a.0 in
      let a1 = a.1 in
      let a2 = a.2 in
      record {
        packed = l;
        block_lt = ground arith;
        page_lt = ground arith;
        slot_lt = ground arith;
        handed_out = ground arith;
        is_used = ground arith;
        keyed = ap (λ e. E.get_key e.0) r;
      }

  pub old-IsLive :
      (s : Viper I K V) (b p t : ℕ) (key : K) (value : V) (m : I) (n o : ℕ)
      → IsOpen s b p t
      → IsLive E s n o
      → IsLive E (written s b p t key value m) n o
  old-IsLive s b p t key value m n o h l =
      let w = IsLive-write_record E s b p t key value n o l h.is_free in
      IsLive-kept E (write_record s b p t key value) (written s b p t key value m) n o w
        (omega arith) (omega arith) (IsLive-Holds E (write_record s b p t key value) n o w)

  -- An entry behind the insertion is the new one or an old one.
  pub Inserted-IsAt :
      (s : Viper I K V) (b p t : ℕ) (key : K) (value : V) (m : I) (n o : ℕ)
      → Inserted s.map_ m (E.get_key key) (pack b p t)
      → IsAt E (written s b p t key value m) n o
      → ((n ≡ E.get_key key) × (o ≡ pack b p t)) ⊎ ((n ≢ E.get_key key) × IsAt E s n o)
  Inserted-IsAt s b p t key value m n o i a = elim (eq_cases n (E.get_key key)) [
    | inl e ↦ inl (
      e,
      sym (some_inj (pack b p t) o (sym i.here ∙ subst (λ q. E.index.get m q ≡ some o) e a.0)),
    )
    | inr e ↦ inr (e, (sym (i.there n e) ∙ a.0, a.1))
  ]

  -- The offset that the key had before is in no entry any more.
  pub old-gone :
      (s : Viper I K V) (b p t : ℕ) (key : K) (value : V) (m : I) (n o : ℕ)
      → Sizes E
      → IsOpen s b p t
      → Inserted s.map_ m (E.get_key key) (pack b p t)
      → ((q r : ℕ) → IsAt E s q r → IsLive E s q r)
      → IsLive E s (E.get_key key) o
      → IsAt E (written s b p t key value m) n o
      → ⊥
  old-gone s b p t key value m n o z h i entries l a =
      elim (Inserted-IsAt s b p t key value m n o i a) [
        | inl e ↦
            let x = pack-At s b p t z h in
            let u = l.is_used in
            let f = h.is_free in
            let u' : (s.v_blocks (block_number (pack b p t)) (page_number (pack b p t))).free_slots
                  (data_offset (pack b p t))
                ≡ false =
              subst
                (λ q.
                  (s.v_blocks (block_number q) (page_number q)).free_slots (data_offset q) ≡ false)
                e.1 u in
            absurd cc
        | inr e ↦ absurd (e.0 (sym (entries n o e.1).keyed ∙ l.keyed))
      ]

  pub written-view :
      (s : Viper I K V) (b p t : ℕ) (key : K) (value : V) (m : I)
      → Sizes E
      → IsOpen s b p t
      → Inserted s.map_ m (E.get_key key) (pack b p t)
      → ((q r : ℕ) → IsAt E s q r → IsLive E s q r)
      → view E (written s b p t key value m) ≡ upd (view E s) (E.get_key key) (some value)
  written-view s b p t key value m z h i entries = fun_ext λ n. elim (eq_cases n (E.get_key key)) [
    | inl e ↦
        ap (λ q. view E (written s b p t key value m) q) e
        ∙ ap (read_entry E (written s b p t key value m)) i.here
        ∙ new_entry
        ∙ sym (upd_self (view E s) (E.get_key key) (some value))
        ∙ ap (λ q. upd (view E s) (E.get_key key) (some value) q) (sym e)
    | inr e ↦
        ap (read_entry E (written s b p t key value m)) (i.there n e)
        ∙ read_entry-same E s (written s b p t key value m) (E.index.get s.map_ n)
            (λ o g ne. record_at-kept s b p t key value m n o h (entries n o (g, ne)))
        ∙ sym (upd_other (view E s) (E.get_key key) n (some value) e)
  ]
    where
      new_entry : read_entry E (written s b p t key value m) (some (pack b p t)) ≡ some value
      new_entry =
          let l = h.slot_lt in
          let z2 = z.few_slots in
          let ne = pack-ne-none_offset b p t (omega arith) in
          let r = record_at-written s b p t key value m (pack b p t) (pack-At s b p t z h) in
          rw (ne→== (pack b p t) none_offset ne, r) refl
