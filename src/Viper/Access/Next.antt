-- ===== src/Viper/Access/Next.antt =====
-- `update_access_information`: a client moves on to the next page of its block, or to a new block.
use viper_learned_index.Common.{
  ℕ, ◌+◌, ◌%◌, ◌^◌, ◌<◌, ◌≡◌, ◌≢◌, ◌⊎◌, inl, inr, arith, subst, lt_cases, eq_cases,
}
use viper_learned_index.Viper.Interface.{Env}
use viper_learned_index.Viper.State.{Viper, Client}
use viper_learned_index.Viper.Valid.{Sizes, Untouched, distance, Owns}

-- The page behind `v`, around the block.
next_cases :
    (v n : ℕ) → v < n → (((v + 1) % n ≡ v + 1) × (v + 1 < n)) ⊎ (((v + 1) % n ≡ 0) × (v + 1 ≡ n))
next_cases v n h = elim (lt_cases (v + 1) n) [
  | inl lt ↦ inl (grind arith, lt)
  | inr le ↦ let e : v + 1 ≡ n = omega arith in inr (grind arith, e)
]

module _ {I K V : Type 0} (E : Env I K V) where
  -- From the next page, each page is one step nearer.
  distance-next :
      (v q : ℕ)
      → v < E.num_pages_per_block
      → q < E.num_pages_per_block
      → q ≢ v
      → distance E v q ≡ distance E ((v + 1) % E.num_pages_per_block) q + 1
  distance-next v q hv hq ne = elim (next_cases v E.num_pages_per_block hv) [
    | inl e ↦ let e0 = e.0 in let e1 = e.1 in rw e0 (ground arith)
    | inr e ↦ let e0 = e.0 in let e1 = e.1 in rw e0 (ground arith)
  ]

  distance-back :
      (v : ℕ)
      → v < E.num_pages_per_block
      → distance E ((v + 1) % E.num_pages_per_block) v + 1 ≡ E.num_pages_per_block
        ⊎ (E.num_pages_per_block ≡ 1)
  distance-back v hv = elim (next_cases v E.num_pages_per_block hv) [
    | inl e ↦ inl (let e0 = e.0 in let e1 = e.1 in rw e0 (ground arith))
    | inr e ↦ elim (lt_cases 1 E.num_pages_per_block) [
      | inl lt ↦ inl (let e0 = e.0 in let e1 = e.1 in rw e0 (ground arith))
      | inr le ↦ inr (omega arith)
    ]
  ]

  -- The client on the next page of its block.
  abbrev pub moved : Client → Client
  moved c = record c {
    num_v_pages_processed = (c.num_v_pages_processed + 1) % 2 ^ 8;
    v_page_number = (c.v_page_number + 1) % E.num_pages_per_block;
  }

  pub moved-Owns :
      (z : Sizes E) (s : Viper I K V) (c : Client)
      → c.num_v_pages_processed + 1 < E.num_pages_per_block
      → Owns E s c
      → Owns E s (moved c)
  moved-Owns z s c lt w =
      let z1 = z.few_pages in
      let n : (c.num_v_pages_processed + 1) % 2 ^ 8 ≡ c.num_v_pages_processed + 1 = omega arith in
      let v = c.v_page_number in
      let hv = w.page_lt in
      record {
        based = w.based;
        placed = w.placed;
        block_lt = w.block_lt;
        handed_out = w.handed_out;
        page_lt = omega arith;
        processed = rw n lt;
        fresh = λ q hq ne k.
            let k' = rw n at k in
            elim (eq_cases q v) [
              | inl e ↦ elim (distance-back v hv) [
                | inl b ↦ absurd (far q v e k' b)
                | inr b ↦ absurd (omega arith)
              ]
              | inr nv ↦ let d = distance-next v q hv hq nv in w.fresh q hq nv (omega arith)
            ];
      }
    where
      far :
          (q v : ℕ)
          → q ≡ v
          → c.num_v_pages_processed + 1 + distance E ((v + 1) % E.num_pages_per_block) q
            < E.num_pages_per_block
          → distance E ((v + 1) % E.num_pages_per_block) v + 1 ≡ E.num_pages_per_block
          → ⊥
      far q v e k b =
          let k' =
            subst
              (λ x.
                c.num_v_pages_processed + 1 + distance E ((v + 1) % E.num_pages_per_block) x
                < E.num_pages_per_block)
              e k in
          absurd (omega arith)

  pub moved-Untouched :
      (s : Viper I K V) (c : Client)
      → c.num_v_pages_processed + 1 < E.num_pages_per_block
      → Owns E s c
      → Untouched E s c.v_block_number ((c.v_page_number + 1) % E.num_pages_per_block)
  moved-Untouched s c lt w =
      let hv = w.page_lt in
      elim (next_cases c.v_page_number E.num_pages_per_block hv) [
        | inl e ↦
            let e0 = e.0 in
            let e1 = e.1 in
            w.fresh ((c.v_page_number + 1) % E.num_pages_per_block) (omega arith) (λ x. omega arith)
              (rw e0 (ground arith))
        | inr e ↦
            let e0 = e.0 in
            let e1 = e.1 in
            w.fresh ((c.v_page_number + 1) % E.num_pages_per_block) (omega arith) (λ x. omega arith)
              (rw e0 (ground arith))
      ]
