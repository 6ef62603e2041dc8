-- ===== src/Viper/Recovery/Rebuilt.antt =====
-- The index that recovery builds has the entries of the index that was lost.
use viper_learned_index.Common.{
  ℕ, zero, suc, ◌+◌, ◌≤◌, ◌<◌, ◌≡◌, refl, ◌⊎◌, inl, inr, true, false, some, arith, sym, subst, ◌∙◌,
  lt→ltb, Returns, eq_cases, Bool-cases,
}
use viper_learned_index.FitingTree.Parameters.{none_offset}
use viper_learned_index.Viper.Lock.{used_bit, is_bit_set}
use viper_learned_index.Viper.Page.{Page}
use viper_learned_index.Viper.Offset.{pack}
use viper_learned_index.Viper.Interface.{Env, IndexLaws}
use viper_learned_index.Viper.State.{Viper}
use viper_learned_index.Viper.Recovery.{recover_slots, recover_page, recover_pages, recover_blocks}

module _ {I K V : Type 0} (E : Env I K V) (L : IndexLaws E.index) (lost : ℕ → ℕ) where
  -- The index has, for each key, the tombstone or the offset that was lost.
  pub record IsPart (m : I) : Type 0 where
    pub valid : L.IsValid m
    pub entry : (n : ℕ) → (E.index.get m n ≡ some none_offset) ⊎ (E.index.get m n ≡ some (lost n))

  -- `m'` has what `m` has.
  pub record Grows (m m' : I) : Type 0 where
    pub part : IsPart m'
    pub keeps : (n : ℕ) → E.index.get m n ≡ some (lost n) → E.index.get m' n ≡ some (lost n)

  -- A slot that is in use is where the lost index had its key.
  abbrev pub IsTidySlot : Page K V → ℕ → ℕ → ℕ → Type 0
  IsTidySlot page b p t =
      page.free_slots t ≡ false → lost (E.get_key (page.records t).0) ≡ pack b p t

  -- The keys of the slots that are in use, from `t` on below `t'`, are in the index.
  abbrev pub Covers : I → Page K V → ℕ → ℕ → Type 0
  Covers m page t t' =
      (u : ℕ)
      → t ≤ u
      → u < t'
      → page.free_slots u ≡ false
      → let n = E.get_key (page.records u).0 in E.index.get m n ≡ some (lost n)

  pub Grows-refl : (m : I) → IsPart m → Grows m m
  Grows-refl m h = record { part = h; keeps = λ n e. e }

  pub Grows-trans : (m m' m'' : I) → Grows m m' → Grows m' m'' → Grows m m''
  Grows-trans m m' m'' h k = record { part = k.part; keeps = λ n e. k.keeps n (h.keeps n e) }

  insert-Grows :
      (m : I) (n : ℕ)
      → IsPart m
      → Returns (E.index.insert m n (lost n)) λ r. Grows m r.0 × (E.index.get r.0 n ≡ some (lost n))
  insert-Grows m n h =
      let i = L.insert_total m n (lost n) h.valid in
      (
        i.0,
        i.1,
        (
          record {
            part = record {
              valid = i.2.0;
              entry = λ q. elim (eq_cases q n) [
                | inl e ↦ inr (subst (λ x. E.index.get i.0.0 x ≡ some (lost x)) (sym e) i.2.2)
                | inr e ↦
                    subst (λ x. (x ≡ some none_offset) ⊎ (x ≡ some (lost q))) (sym (i.2.3 q e))
                      (h.entry q)
              ];
            };
            keeps = λ q g. elim (eq_cases q n) [
              | inl e ↦ subst (λ x. E.index.get i.0.0 x ≡ some (lost x)) (sym e) i.2.2
              | inr e ↦ i.2.3 q e ∙ g
            ];
          },
          i.2.2,
        ),
      )

  recover_slots_lem :
      (page : Page K V) (b p rest t : ℕ) (r : I × ℕ)
      → IsPart r.0
      → ((u : ℕ) → t ≤ u → u < t + rest → IsTidySlot page b p u)
      → Returns
          (recover_slots E page b p rest t r)
          λ q. Grows r.0 q.0 × Covers q.0 page t (t + rest)
  unfolding recover_slots
  recover_slots_lem page b p zero t r h tidy =
      (r, refl, (Grows-refl r.0 h, λ u x y. absurd (omega arith)))
  recover_slots_lem page b p (suc rest) t r h tidy = elim (Bool-cases (page.free_slots t)) [
    | inl e ↦
        let q =
          recover_slots_lem page b p rest (t + 1) r h
            (λ u x y. tidy u (omega arith) (omega arith)) in
        (
          q.0,
          rw e q.1,
          (
            q.2.0,
            λ u x y f. elim (eq_cases u t) [
              | inl g ↦ absurd cc
              | inr g ↦ q.2.1 u (omega arith) (omega arith) f
            ],
          ),
        )
    | inr e ↦
        let n = E.get_key (page.records t).0 in
        let i = insert-Grows r.0 n h in
        let q =
          recover_slots_lem page b p rest (t + 1) (i.0.0, r.1 + 1) i.2.0.part
            (λ u x y. tidy u (omega arith) (omega arith)) in
        let o = tidy t (omega arith) (omega arith) e in
        (
          q.0,
          rw (e, sym o, i.1) q.1,
          (
            Grows-trans r.0 i.0.0 q.0.0 i.2.0 q.2.0,
            λ u x y f. elim (eq_cases u t) [
              | inl g ↦
                  subst
                    (λ v.
                      let n = E.get_key (page.records v).0 in E.index.get q.0.0 n ≡ some (lost n))
                    (sym g) (q.2.0.keeps n i.2.1)
              | inr g ↦ q.2.1 u (omega arith) (omega arith) f
            ],
          ),
        )
  ]

  -- A page that is in use has its records in the index.
  abbrev pub IsCovered : I → Page K V → Type 0
  IsCovered m page =
      is_bit_set page.version_lock used_bit ≡ true → Covers m page 0 E.num_slots_per_page

  abbrev pub IsTidyPage : Page K V → ℕ → ℕ → Type 0
  IsTidyPage page b p =
      is_bit_set page.version_lock used_bit ≡ true
      → (t : ℕ) → t < E.num_slots_per_page
      → IsTidySlot page b p t

  pub IsCovered-Grows :
      (m m' : I) (page : Page K V) → Grows m m' → IsCovered m page → IsCovered m' page
  IsCovered-Grows m m' page g c used u x y f =
      g.keeps (E.get_key (page.records u).0) (c used u x y f)

  recover_page_lem :
      (page : Page K V) (b p : ℕ) (r : I × ℕ)
      → IsPart r.0
      → IsTidyPage page b p
      → Returns (recover_page E page b p r) λ q. Grows r.0 q.0 × IsCovered q.0 page
  unfolding recover_page
  recover_page_lem page b p r h tidy = elim (Bool-cases (is_bit_set page.version_lock used_bit)) [
    | inr e ↦ (r, rw e refl, (Grows-refl r.0 h, λ used. absurd cc))
    | inl e ↦
        let q =
          recover_slots_lem page b p E.num_slots_per_page 0 r h (λ u x y. tidy e u (omega arith)) in
        (q.0, rw e q.1, (q.2.0, λ used u x y f. q.2.1 u x (omega arith) f))
  ]

  recover_pages_lem :
      (v_pages : ℕ → Page K V) (b rest p : ℕ) (r : I × ℕ)
      → IsPart r.0
      → ((u : ℕ) → p ≤ u → u < p + rest → IsTidyPage (v_pages u) b u)
      → Returns
          (recover_pages E v_pages b rest p r)
          λ q. Grows r.0 q.0 × ((u : ℕ) → p ≤ u → u < p + rest → IsCovered q.0 (v_pages u))
  unfolding recover_pages
  recover_pages_lem v_pages b zero p r h tidy =
      (r, refl, (Grows-refl r.0 h, λ u x y. absurd (omega arith)))
  recover_pages_lem v_pages b (suc rest) p r h tidy =
      let i = recover_page_lem (v_pages p) b p r h (tidy p (omega arith) (omega arith)) in
      let q =
        recover_pages_lem v_pages b rest (p + 1) i.0 i.2.0.part
          (λ u x y. tidy u (omega arith) (omega arith)) in
      (
        q.0,
        rw i.1 q.1,
        (
          Grows-trans r.0 i.0.0 q.0.0 i.2.0 q.2.0,
          λ u x y. elim (eq_cases u p) [
            | inl g ↦
                subst (λ v. IsCovered q.0.0 (v_pages v)) (sym g)
                  (IsCovered-Grows i.0.0 q.0.0 (v_pages p) q.2.0 i.2.1)
            | inr g ↦ q.2.1 u (omega arith) (omega arith)
          ],
        ),
      )

  -- The pages of the blocks from `lo` on below `hi`.
  abbrev pub AreCovered : I → Viper I K V → ℕ → ℕ → Type 0
  AreCovered m s lo hi =
      (b p : ℕ) → lo ≤ b → b < hi → p < E.num_pages_per_block → IsCovered m (s.v_blocks b p)

  abbrev pub AreTidy : Viper I K V → ℕ → Type 0
  AreTidy s hi = (b p : ℕ) → b < hi → p < E.num_pages_per_block → IsTidyPage (s.v_blocks b p) b p

  pub recover_blocks_lem :
      (s : Viper I K V) (rest b : ℕ) (r : I × ℕ)
      → IsPart r.0
      → AreTidy s (b + rest)
      → b + rest ≤ s.num_v_blocks
      → Returns (recover_blocks E s rest b r) λ q. Grows r.0 q.0 × AreCovered q.0 s b (b + rest)
  unfolding recover_blocks
  recover_blocks_lem s zero b r h tidy le =
      (r, refl, (Grows-refl r.0 h, λ u p x y. absurd (omega arith)))
  recover_blocks_lem s (suc rest) b r h tidy le =
      let i =
        recover_pages_lem (s.v_blocks b) b E.num_pages_per_block 0 r h
          (λ u x y. tidy b u (omega arith) (omega arith)) in
      let q =
        recover_blocks_lem s rest (b + 1) i.0 i.2.0.part (λ u p x. tidy u p (omega arith))
          (omega arith) in
      (
        q.0,
        rw (lt→ltb b s.num_v_blocks (omega arith), i.1) q.1,
        (
          Grows-trans r.0 i.0.0 q.0.0 i.2.0 q.2.0,
          λ u p x y z. elim (eq_cases u b) [
            | inl g ↦
                subst (λ v. IsCovered q.0.0 (s.v_blocks v p)) (sym g)
                  (IsCovered-Grows i.0.0 q.0.0 (s.v_blocks b p) q.2.0
                    (i.2.1 p (omega arith) (omega arith)))
            | inr g ↦ q.2.1 u p (omega arith) (omega arith) z
          ],
        ),
      )
