-- ===== src/FitingTree/Search/Landing.antt =====
-- Where the search of a node ends: on the key, or beside the place where it belongs.
use viper_learned_index.Common.{
  ℕ, zero, suc, ◌+◌, ◌*◌, ◌≤◌, ◌<◌, ◌≡◌, ◌≢◌, ◌⊎◌, inl, inr, some, List, arith, length, ◌!◌,
  get_elem?-eq-get_or, Returns, ltb, not, lt_cases, Bool-cases, ◌==◌, ◌&&◌,
}
use Prim.Native.Nat.{max}
use viper_learned_index.FitingTree.Records.{Cuts}
use viper_learned_index.FitingTree.Search.{
  search, next_step, clamp_step, move, find_precise_position, init_step_len,
}

-- The search stopped at `p`: inside the array, on the key or at the cut `r`.
abbrev pub Lands : List ℕ → ℕ → ℕ → ℕ → Type 0
Lands keys key r p = (p < length keys) × ((keys ! p ≡ key) ⊎ ((p ≤ r) × (r ≤ p + 1)))

-- The cut is within reach of the steps that are left.
abbrev Near : ℕ → ℕ → ℕ → Type 0
Near s p r = (r ≤ p + max 1 (2 * s)) × (p + 1 ≤ r + max 1 (2 * s))

-- One round of the loop, the key not found yet, on plain numbers: `x` is the key read at `p`.
step_Near :
    (n key x r p s : ℕ)
    → p < n
    → r ≤ n
    → 0 < s
    → x ≢ key
    → (key < x → r ≤ p)
    → (x < key → p < r)
    → Near s p r
    → let t = clamp_step n key x p s in
      let q = move key x p t in (q < n) × Near (next_step t) q r × (next_step t < s)
unfolding clamp_step move next_step
step_Near n key x r p s inside fits h ne above below w = ground arith

-- The first step has the cut in reach.
init_Near :
    (n epsilon key x r p : ℕ)
    → p < n
    → r ≤ n
    → x ≢ key
    → (key < x → r ≤ p)
    → (x < key → p < r)
    → p ≤ r + epsilon
    → r ≤ p + epsilon + 1
    → Near (init_step_len n epsilon p (not (ltb key x))) p r
unfolding init_step_len
init_Near n epsilon key x r p inside fits ne above below near far = ground arith

module _ (keys : List ℕ) (key r : ℕ) (c : Cuts keys key r) where
  cut_above : (p : ℕ) → p < length keys → key < keys ! p → r ≤ p
  cut_above p h a = elim (lt_cases p r) [ inl l ↦ absurd (omega (arith, c.left p l)) | inr g ↦ g ]

  cut_below : (p : ℕ) → p < length keys → keys ! p < key → p < r
  cut_below p h a = elim (lt_cases p r) [
    | inl l ↦ l
    | inr g ↦ absurd (omega (arith, c.right p g h))
  ]

  search-Lands :
      (fuel p s : ℕ)
      → p < length keys
      → s < fuel
      → Near s p r
      → Returns (search fuel keys (length keys) key p (keys ! p) s) (Lands keys key r)
  unfolding search
  search-Lands zero p s inside f w = absurd (omega arith)
  search-Lands (suc fuel) p s inside f w = elim (Bool-cases (not (keys ! p == key) && ltb 0 s)) [
    | inr stop ↦ (p, rw stop, (inside, ground arith))
    | inl go ↦
        let t = clamp_step (length keys) key (keys ! p) p s in
        let q = move key (keys ! p) p t in
        let near =
          step_Near (length keys) key (keys ! p) r p s inside c.inside (ground arith) (ground arith)
            (cut_above p inside) (cut_below p inside) w in
        rw (go, get_elem?-eq-get_or keys q 0 near.0)
          (search-Lands fuel q (next_step t) near.0 (omega arith) near.1)
  ]

  -- With a start inside the array and the cut within `epsilon` of it, the search ends, reads no
  -- cell outside the array, and lands on the key or at the cut.
  pub find_precise_position-Lands :
      (epsilon p : ℕ)
      → p < length keys
      → p ≤ r + epsilon
      → r ≤ p + epsilon + 1
      → Returns (find_precise_position keys (length keys) epsilon key (some p)) (Lands keys key r)
  unfolding find_precise_position
  find_precise_position-Lands epsilon p inside near far =
      let step = init_step_len (length keys) epsilon p (not (ltb key (keys ! p))) in
      rw (get_elem?-eq-get_or keys p 0 inside) (elim (Bool-cases (keys ! p == key)) [
        | inl hit ↦ (p, unfold search in rw hit, (inside, inl (ground arith)))
        | inr miss ↦ search-Lands (suc step) p step inside (omega arith) (
            init_Near (length keys) epsilon key (keys ! p) r p inside c.inside (ground arith)
              (cut_above p inside) (cut_below p inside) near far)
      ])
