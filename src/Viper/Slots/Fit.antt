-- ===== src/Viper/Slots/Fit.antt =====
-- The number of slots is the largest whose layout fits into the page.
use native.Mathlib.Nat.{lt-div-mul-add, div-mul-le_self}
use viper_learned_index.Common.{
  ℕ, zero, suc, ◌+◌, ◌-◌, ◌*◌, ◌/◌, ◌%◌, ◌^◌, ◌≤◌, ◌<◌, ◌≡◌, refl, ◌⊎◌, inl, inr, ◌||◌, arith, sym,
  subst, ◌∙◌, ltb, lt→ltb, le→ltb, le→leb, lt→leb, ◌==◌, if◌then◌else◌, Returns, Bool-cases,
  lt_cases,
}
use viper_learned_index.Viper.Slots.{
  page_size, block_size, page_overhead, layout_size, grow_page, round_page, shrink,
  get_num_slots_per_page,
}

-- No record fits into a page of two bytes or more.
shrink_fits : (e c n : ℕ) → page_overhead ≤ c → layout_size e (shrink e c n) ≤ c
unfolding shrink layout_size
shrink_fits e c zero h = grind arith
shrink_fits e c (suc n) h = elim (lt_cases c (layout_size e (suc n))) [
  | inl lt ↦ rw (lt→ltb c (layout_size e (suc n)) lt) (shrink_fits e c n h)
  | inr le ↦ rw (le→ltb c (layout_size e (suc n)) le) le
]

-- One more does not fit, unless the loop began there.
shrink_most : (e c n : ℕ) → (shrink e c n ≡ n) ⊎ (c < layout_size e (shrink e c n + 1))
unfolding shrink
shrink_most e c zero = inl refl
shrink_most e c (suc n) = elim (lt_cases c (layout_size e (suc n))) [
  | inl lt ↦ rw (lt→ltb c (layout_size e (suc n)) lt) (
      inr (elim (shrink_most e c n) [
        | inl q ↦ let z : shrink e c n + 1 ≡ suc n = omega arith in rw z lt
        | inr q ↦ q
      ]))
  | inr le ↦ rw (le→ltb c (layout_size e (suc n)) le) (inl refl)
]

grow_run :
    (fuel e c : ℕ)
    → c < e + page_overhead
    → c ≤ block_size
    → grow_page (suc fuel) e c ≡ grow_page fuel e (c + page_size)
unfolding grow_page
grow_run fuel e c lt small =
    let w : (c + page_size) % 2 ^ 16 ≡ c + page_size = omega arith in
    rw (grow_page, lt→ltb c (e + page_overhead) lt, le→leb c block_size small, w) refl

-- What the loop over the page sizes finds.
IsGrown : ℕ → ℕ → ℕ → Type 0
IsGrown e c g =
    (c ≤ g)
    × (g ≤ 28672)
    × (g % 4096 ≡ 0)
    × ((e + 2 ≤ g) ⊎ (g ≡ 28672))
    × ((g ≡ c) ⊎ (g < e + 2 + 4096))

grow_lem :
    (fuel e c : ℕ)
    → c ≤ 28672
    → c % 4096 ≡ 0
    → 28672 < c + fuel * 4096
    → Returns (grow_page fuel e c) (IsGrown e c)
unfolding grow_page IsGrown
grow_lem zero e c h z f = absurd (omega arith)
grow_lem (suc fuel) e c h z f = elim (lt_cases c (e + page_overhead)) [
  | inr ge ↦ (
    c,
    rw (le→ltb c (e + page_overhead) ge) refl,
    (omega arith, h, z, inl (omega arith), inl refl),
  )
  | inl lt ↦ elim (lt_cases block_size c) [
    | inl big ↦ (
      c,
      rw (lt→ltb c (e + page_overhead) lt, lt→leb block_size c big) refl,
      (omega arith, h, z, inr (omega arith), inl refl),
    )
    | inr small ↦
        let (g, run, (more, most, whole, fits, least)) =
          grow_lem fuel e (c + page_size) (omega arith) (omega arith) (omega arith) in
        (
          g,
          grow_run fuel e c lt small ∙ run,
          (
            omega arith,
            most,
            whole,
            fits,
            inr (elim least [ inl same ↦ omega arith | inr less ↦ less ]),
          ),
        )
  ]
]

-- A page has 1, 2, 3, 6 or 7 pages of the device.
abbrev pub IsPageSize : ℕ → Type 0
IsPageSize c = (c % 4096 ≡ 0) × (4096 ≤ c) × (c ≤ 28672) × ((c ≤ 12288) ⊎ (24576 ≤ c))

-- The least of these sizes with room for a record and the overhead, or the greatest one.
abbrev pub IsPage : ℕ → ℕ → Type 0
IsPage e c =
    IsPageSize c × ((e + 2 ≤ c) ⊎ (c ≡ 28672)) × ((d : ℕ) → IsPageSize d → d < c → d < e + 2)

round-IsPage : (e g : ℕ) → IsGrown e 4096 g → IsPage e (round_page g)
unfolding round_page IsGrown
round-IsPage e g (more, most, whole, fits, least) =
    elim (Bool-cases (g / page_size == 4 || g / page_size == 5)) [
      | inr f ↦
          let sides : (g ≤ 12288) ⊎ (24576 ≤ g) = ground arith in
          rw f (
            (whole, more, most, sides),
            fits,
            (λ d (w, low, high, s) lt. elim least [
              | inl e ↦ absurd (omega arith)
              | inr less ↦ omega arith
            ]),
          )
      | inl f ↦
          let range : (16384 ≤ g) × (g ≤ 20480) = (ground arith, ground arith) in
          rw f (
            (omega arith, omega arith, omega arith, inr (omega arith)),
            inl (elim fits [
              | inl x ↦ omega (arith, range)
              | inr x ↦ absurd (omega (arith, range))
            ]),
            λ d (w, low, high, s) lt. elim least [
              | inl e ↦ absurd (omega (arith, range))
              | inr less ↦ elim s [
                | inl small ↦ omega (arith, range)
                | inr large ↦ absurd (omega arith)
              ]
            ],
          )
    ]

-- A page of more than 4096 bytes is taken for a large record alone.
page_room : (e c : ℕ) → IsPage e c → (c ≡ 4096) ⊎ (4096 < e + 2)
page_room e c p = elim (lt_cases 4096 c) [
  | inl more ↦ inr (p.2 4096 (omega arith, omega arith, omega arith, inl (omega arith)) more)
  | inr less ↦ inl (let q = p.0 in omega arith)
]

-- Behind the test on 255, one more record than the start of the countdown does not fit.
start_lem :
    (e c : ℕ)
    → 0 < e
    → IsPage e c
    → c < layout_size e ((if ltb 255 (c / e) then c / e - 1 else c / e) + 1)
unfolding layout_size
start_lem e c h p =
    let q = c / e in
    let a : q * e ≤ c = div-mul-le_self c e in
    let b : c < q * e + e = lt-div-mul-add h in
    elim (lt_cases 255 q) [
      | inr le ↦ rw (le→ltb 255 q le) (let z : (q + 1) * e ≡ q * e + e = grind arith in omega arith)
      | inl lt ↦
          let m : 256 * e ≤ q * e = grind arith in
          let z : q - 1 + 1 ≡ q = omega arith in
          rw (lt→ltb 255 q lt, z)
            (elim (page_room e c p) [
              | inl f ↦ omega arith
              | inr f ↦ absurd (let p0 = p.0 in omega arith)
            ])
    ]

-- For each positive record size, `get_num_slots_per_page` is defined, and gives the largest number of
-- records whose layout, with a bit for each and the overhead, fits into the page; the page is the
-- least one of 1, 2, 3, 6 or 7 times 4096 bytes that has room for a record with the overhead, or the
-- greatest of these where none has.
pub get_num_slots_per_page_lem :
    (e : ℕ)
    → 0 < e
    → Returns
        (get_num_slots_per_page e)
        λ n. (c : ℕ) × IsPage e c × (layout_size e n ≤ c) × (c < layout_size e (n + 1))
unfolding get_num_slots_per_page
get_num_slots_per_page_lem e h =
    let g = grow_lem 8 e 4096 (omega arith) (omega arith) (omega arith) in
    let c = round_page g.0 in
    let p = round-IsPage e g.0 g.2 in
    let k = (if ltb 255 (c / e) then c / e - 1 else c / e) in
    let n = shrink e c k in
    (
      n,
      rw (get_num_slots_per_page, g.1) refl,
      (
        c,
        p,
        shrink_fits e c k (let p0 = p.0 in omega arith),
        elim (shrink_most e c k) [
          | inl q ↦ subst (λ m. c < layout_size e (m + 1)) (sym q) (start_lem e c h p)
          | inr q ↦ q
        ],
      ),
    )
