-- ===== src/FitingTree/Segment/Rebase.antt =====
-- The constructor of a node moves the model of a segment to its own first key: `intercept - start_pos
-- - first_key * slope`. Where the arithmetic is precise, the model still fits.
use native.Mathlib.Nat.{mul-le-mul_right}
use viper_learned_index.Common.{
  ℕ, ◌+◌, ◌-◌, ◌*◌, ◌≤◌, ◌<◌, ◌≡◌, List, [], ◌∷◌, arith, length, ◌!◌, take, drop, some, subst, sym,
  ◌∙◌, get_or-take, get_or-drop, inl, inr, lt_cases,
}
use viper_learned_index.Common.Int.{ℤ, pos, negsuc}
use viper_learned_index.FitingTree.Float.{Float, IsMonotone}
use viper_learned_index.FitingTree.Float.Rounding.{
  IsRounded, Close, Drops, Near, fadd-Near, fsub-Near, fmul-Near, of_size-Near,
}
use viper_learned_index.FitingTree.Parameters.{epsilon_default}
use viper_learned_index.FitingTree.Records.{IsSorted}
use viper_learned_index.FitingTree.Search.{predict_int, clamp}
use viper_learned_index.FitingTree.Segment.{
  Segment, own_intercept, Covers, Tiles, IsAccurate, Cuts, IsModerate, AllModerate, IsShort,
  Segmentation, IsPrecise,
}

lt_of_mul : (a b u : ℕ) → a * u < b * u → a < b
lt_of_mul a b u h = elim (lt_cases a b) [
  | inl lt ↦ lt
  | inr le ↦ let more = mul-le-mul_right u le in absurd (omega arith)
]

-- A value from less than `EPSILON` below an index to `EPSILON` and one above it, without its
-- fraction.
Drops-clamp :
    (p n u i number : ℕ) (z : ℤ)
    → i < number
    → p < n + (i + epsilon_default + 1) * u
    → i * u + n < p + epsilon_default * u
    → Drops p n u z
    → (clamp number z ≤ i + epsilon_default) × (i ≤ clamp number z + epsilon_default)
unfolding clamp
Drops-clamp p n u i number (pos z) h above below (low, high) =
    let far : i < z + 1 + epsilon_default = lt_of_mul i (z + 1 + epsilon_default) u (
      let e : (z + 1 + epsilon_default) * u ≡ (z + 1) * u + epsilon_default * u = grind arith in
      omega arith) in
    let near : z < i + epsilon_default + 1 = elim low [
      | inl zero ↦ omega arith
      | inr from ↦ lt_of_mul z (i + epsilon_default + 1) u (omega arith)
    ] in
    (ground arith, ground arith)
Drops-clamp p n u i number (negsuc z) h above below drop =
    let near : i < epsilon_default = lt_of_mul i epsilon_default u (omega arith) in
    (omega arith, omega arith)

module _ (F : Float) (v : IsRounded F) (s : Segment F) (start key i number : ℕ) where
  open v use {plus, minus, unit, range, error}

  -- What the node's model gives before the conversion to `int`.
  abbrev predicted : F.Double
  predicted = F.fadd (F.fadd (F.fmul (F.of_size key) s.slope) (own_intercept F s start)) F.half

  abbrev kp : ℕ
  kp = key * plus s.slope

  abbrev kn : ℕ
  kn = key * minus s.slope

  abbrev fp : ℕ
  fp = s.first_key * plus s.slope

  abbrev fn : ℕ
  fn = s.first_key * minus s.slope

  -- Each step adds one rounding.
  predicted-Near :
      (key < v.exact) × (s.first_key < v.exact) × (start < v.exact)
      → (8 * kp ≤ range) × (8 * kn ≤ range) × (8 * fp ≤ range) × (8 * fn ≤ range)
      → (8 * plus s.intercept ≤ range) × (8 * minus s.intercept ≤ range)
      → (8 * (start * unit) ≤ range) × (8 * unit ≤ range)
      → Near F v predicted
          (kp + (plus s.intercept + 0 + fn) + plus F.half)
          (kn + (minus s.intercept + start * unit + fp) + 0)
          (6 * error)
  predicted-Near ex sl ic st =
      let fine = v.fine in
      let hp = v.half_plus in
      let hm = v.half_minus in
      let product = fmul-Near F v key s.slope ex.0 (omega (arith, sl)) (omega (arith, sl)) in
      let first = fmul-Near F v s.first_key s.slope ex.1 (omega (arith, sl)) (omega (arith, sl)) in
      let origin = of_size-Near F v start ex.2 in
      let own : Near F v s.intercept (plus s.intercept) (minus s.intercept) 0 =
        (omega arith, omega arith) in
      let half : Near F v F.half (plus F.half) 0 0 = (omega (arith, hm), omega (arith, hm)) in
      let moved =
        fsub-Near F v s.intercept (F.of_size start) (plus s.intercept) (minus s.intercept)
          (start * unit) 0 0 0 own origin (omega (arith, ic, st), omega (arith, ic, st)) in
      let based =
        fsub-Near F v (F.fsub s.intercept (F.of_size start))
          (F.fmul (F.of_size s.first_key) s.slope) (plus s.intercept + 0)
          (minus s.intercept + start * unit) fp fn (0 + 0 + error) error moved first
          (omega (arith, ic, st, sl, fine), omega (arith, ic, st, sl, fine)) in
      let sum =
        fadd-Near F v (F.fmul (F.of_size key) s.slope) (own_intercept F s start) kp kn
          (plus s.intercept + 0 + fn) (minus s.intercept + start * unit + fp) error
          (0 + 0 + error + error + error) product based
          (omega (arith, ic, st, sl, fine), omega (arith, ic, st, sl, fine)) in
      let last =
        fadd-Near F v (F.fadd (F.fmul (F.of_size key) s.slope) (own_intercept F s start)) F.half
          (kp + (plus s.intercept + 0 + fn)) (kn + (minus s.intercept + start * unit + fp))
          (plus F.half) 0 (error + (0 + 0 + error + error + error) + error) 0 sum half
          (omega (arith, ic, st, sl, fine, hp), omega (arith, ic, st, sl, fine, hp)) in
      (omega (arith, last), omega (arith, last))

  -- The model of the segment is right within `EPSILON`, and a half is added before the fraction is
  -- dropped.
  predicted-fits :
      (d : ℕ)
      → i < number
      → key ≡ s.first_key + d
      → Close
          (d * plus s.slope + plus s.intercept)
          (d * minus s.slope + minus s.intercept)
          ((start + i) * unit)
          0
          (epsilon_default * unit)
      → Near F v predicted
          (kp + (plus s.intercept + 0 + fn) + plus F.half)
          (kn + (minus s.intercept + start * unit + fp) + 0)
          (6 * error)
      → i + epsilon_default + 1 < 2147483647
      → (z : ℤ) × (F.to_int predicted ≡ some z)
        × (clamp number z ≤ i + epsilon_default)
        × (i ≤ clamp number z + epsilon_default)
  predicted-fits d inside at model near few =
      let fine = v.fine in
      let hp = v.half_plus in
      let ep : kp ≡ fp + d * plus s.slope = rw at (grind arith) in
      let en : kn ≡ fn + d * minus s.slope = rw at (grind arith) in
      let es : (start + i) * unit ≡ start * unit + i * unit = grind arith in
      let ei : (i + epsilon_default + 1) * unit ≡ i * unit + epsilon_default * unit + unit =
        grind arith in
      let more : (i + epsilon_default + 1) * unit ≤ 2147483647 * unit =
        mul-le-mul_right unit (omega arith) in
      let above : plus predicted < minus predicted + (i + epsilon_default + 1) * unit =
        omega (arith, near, model) in
      let below : i * unit + minus predicted < plus predicted + epsilon_default * unit =
        omega (arith, near, model) in
      let (z, converted, drops) = v.to_int_law predicted (omega arith, omega arith) in
      let fit =
        Drops-clamp (plus predicted) (minus predicted) unit i number z inside above below drops in
      (z, converted, fit.0, fit.1)

module _ (F : Float) (m : IsMonotone F) (v : IsRounded F) (keys : List ℕ) (sorted : IsSorted keys)
    (short : IsShort F v (length keys)) where
  Cuts-Covers :
      (start : ℕ) (s : Segment F)
      → 0 < s.number
      → start + s.number ≤ length keys
      → s.first_key ≡ keys ! start
      → m.NonNegative s.slope
      → IsAccurate F v keys start s
      → IsModerate F v keys s
      → Covers F m keys start s
  unfolding predict_int
  Cuts-Covers start s filled inside first rising accurate moderate =
      let starts : start * v.unit ≤ length keys * v.unit = mul-le-mul_right v.unit (omega arith) in
      let unit_le : 1 * v.unit ≤ length keys * v.unit = mul-le-mul_right v.unit (omega arith) in
      let fine = v.fine in
      let r = short.2 in
      record {
        filled = filled;
        inside = inside;
        first = first;
        rising = rising;
        fits = λ i h.
            let at : take s.number (drop start keys) ! i ≡ keys ! (start + i) =
              get_or-take s.number i 0 (drop start keys) h ∙ get_or-drop start i 0 keys in
            let key = keys ! (start + i) in
            let up : keys ! start ≤ key = elim (lt_cases 0 i) [
              | inl l ↦ omega (arith, sorted start (start + i) (omega arith) (omega arith))
              | inr z ↦ (let e : start + i ≡ start = omega arith in rw e (omega arith))
            ] in
            let d = key - s.first_key in
            let near =
              predicted-Near F v s start key i s.number
                (
                  moderate.exact (start + i) (omega arith),
                  subst (λ k. k < v.exact) (sym first) (moderate.exact start (omega arith)),
                  omega (arith, short),
                )
                (
                  moderate.rising (start + i) (omega arith),
                  moderate.falling (start + i) (omega arith),
                  subst (λ k. 8 * (k * v.plus s.slope) ≤ v.range) (sym first)
                      (moderate.rising start (omega arith)),
                  subst (λ k. 8 * (k * v.minus s.slope) ≤ v.range) (sym first)
                      (moderate.falling start (omega arith)),
                )
                (moderate.above, moderate.below) (omega arith, omega arith) in
            let fit =
              predicted-fits F v s start key i s.number d h (omega arith) (accurate i h) near
                (omega (arith, short)) in
            rw at fit;
      }

  Cuts-Tiles :
      (start : ℕ) (ss : List (Segment F))
      → Cuts F v m.NonNegative keys start ss
      → AllModerate F v keys ss
      → Tiles F m keys start ss
  Cuts-Tiles start [] c a = c
  Cuts-Tiles start (s ∷ ss) c a =
      (Cuts-Covers start s c.0 c.1 c.2 c.3 c.4 a.0, Cuts-Tiles (start + s.number) ss c.5 a.1)

-- Where the arithmetic is precise, the nodes built from the segments cover the array.
pub run-Tiles :
    (F : Float) (m : IsMonotone F) (seg : Segmentation F m) (keys : List ℕ)
    → 0 < length keys
    → IsSorted keys
    → IsPrecise F m seg keys
    → Tiles F m keys 0 (seg.run (length keys) keys)
run-Tiles F m seg keys filled sorted p =
    Cuts-Tiles F m seg.values keys sorted p.1 0 (seg.run (length keys) keys)
      (seg.cuts keys filled sorted) p.0
