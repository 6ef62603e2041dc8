-- ===== src/FitingTree/Index/Tidy.antt =====
-- The leaves in order: each is valid and holds keys from its own first key up to the next leaf.
use viper_learned_index.Common.{
  ℕ, ◌≤◌, ◌<◌, ◌≡◌, Option, none, some, List, [], ◌∷◌, ◌++◌, arith, ltb, or_else, if◌then◌else◌,
}
use viper_learned_index.FitingTree.Float.{Float, IsMonotone}
use viper_learned_index.FitingTree.Node.{NodeOps, NodeLaws}
use viper_learned_index.FitingTree.Entries.{floor, Above, IsOrdered}
use viper_learned_index.FitingTree.Entries.Laws.{
  Above-append, Above-left, Above-right, floor-append, floor-eq-none,
}

module _ (F : Float) (m : IsMonotone F) (ops : NodeOps F) (laws : NodeLaws F m ops) where
  open ops use {Node}
  open laws use {IsValid, view, first, load}

  -- Every first key and every stored key satisfies `P`.
  abbrev pub Within : (ℕ → Type 0) → List (ℕ × Node) → Type 0
  Within P [] = Unit
  Within P ((f, n) ∷ es) = P f × ((j v : ℕ) → view n j ≡ some v → P j) × Within P es

  pub record IsGood (f : ℕ) (n : Node) : Type 0 where
    pub valid : IsValid n
    pub room : load n < ops.split_bound
    pub starts : first n ≡ f

  abbrev pub Tidy : List (ℕ × Node) → Type 0
  Tidy [] = Unit
  Tidy ((f, n) ∷ es) =
      IsGood f n × ((j v : ℕ) → view n j ≡ some v → (f ≤ j) × Above j es) × Above f es × Tidy es

  -- The map that a run of leaves stands for; `none` where no leaf is responsible.
  unfoldable pub seen : List (ℕ × Node) → ℕ → Option (Option ℕ)
  seen es j = elim (floor j es) [ none ↦ none | some e ↦ some (view e.1 j) ]

  pub Tidy-IsOrdered : (es : List (ℕ × Node)) → Tidy es → IsOrdered es
  Tidy-IsOrdered [] t = tt
  Tidy-IsOrdered ((f, n) ∷ es) t = (t.2, Tidy-IsOrdered es t.3)

  pub Within-mono :
      (P Q : ℕ → Type 0) (es : List (ℕ × Node)) → ((j : ℕ) → P j → Q j) → Within P es → Within Q es
  Within-mono P Q [] h w = tt
  Within-mono P Q ((f, n) ∷ es) h w = (h f w.0, λ j v e. h j (w.1 j v e), Within-mono P Q es h w.2)

  pub Within-all : (P : ℕ → Type 0) (es : List (ℕ × Node)) → ((j : ℕ) → P j) → Within P es
  Within-all P [] h = tt
  Within-all P ((f, n) ∷ es) h = (h f, λ j v e. h j, Within-all P es h)

  pub Tidy-append :
      (a b : List (ℕ × Node)) → Tidy a → Tidy b → Within (λ j. Above j b) a → Tidy (a ++ b)
  Tidy-append [] b ta tb w = tb
  Tidy-append ((f, n) ∷ a) b ta tb w = (
    ta.0,
    λ j v e. ((ta.1 j v e).0, Above-append j a b (ta.1 j v e).1 (w.1 j v e)),
    Above-append f a b ta.2 w.0,
    Tidy-append a b ta.3 tb w.2,
  )

  pub Tidy-split :
      (a b : List (ℕ × Node)) → Tidy (a ++ b) → Tidy a × Tidy b × Within (λ j. Above j b) a
  Tidy-split [] b t = (tt, t, tt)
  Tidy-split ((f, n) ∷ a) b t =
      let r = Tidy-split a b t.3 in
      (
        (t.0, λ j v e. ((t.1 j v e).0, Above-left j a b (t.1 j v e).1), Above-left f a b t.2, r.0),
        r.1,
        (Above-right f a b t.2, λ j v e. Above-right j a b (t.1 j v e).1, r.2),
      )

  -- Leaves that start at `f` or later are above what lies below `f`.
  pub Within-Above : (j f : ℕ) (es : List (ℕ × Node)) → j < f → Within (λ i. f ≤ i) es → Above j es
  Within-Above j f [] h w = tt
  Within-Above j f ((g, n) ∷ es) h w = (omega arith, Within-Above j f es h w.2)

  pub seen-append :
      (j : ℕ) (a b : List (ℕ × Node))
      → IsOrdered (a ++ b)
      → seen (a ++ b) j ≡ or_else (seen b j) (seen a j)
  unfolding seen
  seen-append j a b o = ground (arith, floor-append j a b o)

  pub seen-eq-none : (j : ℕ) (es : List (ℕ × Node)) → Above j es → seen es j ≡ none
  unfolding seen
  seen-eq-none j es h = ground (arith, floor-eq-none j es h)

  pub seen-floor :
      (j : ℕ) (es : List (ℕ × Node)) (e : ℕ × Node)
      → floor j es ≡ some e
      → seen es j ≡ some (view e.1 j)
  unfolding seen
  seen-floor j es e h = ground (arith, h)

  pub seen_one :
      (j f : ℕ) (n : Node) → seen ((f, n) ∷ []) j ≡ (if ltb j f then none else some (view n j))
  unfolding seen floor
  seen_one j f n = ground arith

  -- A run of leaves in the place of the leaf `n` with first key `f`.
  module _ (f : ℕ) (n : Node) (a mid b : List (ℕ × Node)) (old : Tidy (a ++ (f, n) ∷ b))
      (new : Tidy mid) (fits : Within (λ j. (f ≤ j) × Above j b) mid) where
    pub replace-Tidy : Tidy (a ++ (mid ++ b))
    replace-Tidy =
        let (ta, tb, wa) = Tidy-split a ((f, n) ∷ b) old in
        let tm =
          Tidy-append mid b new tb.3
            (Within-mono (λ j. (f ≤ j) × Above j b) (λ j. Above j b) mid (λ j p. p.1) fits) in
        let from = Within-mono (λ j. (f ≤ j) × Above j b) (λ j. f ≤ j) mid (λ j p. p.0) fits in
        Tidy-append a (mid ++ b) ta tm (
          Within-mono (λ j. Above j ((f, n) ∷ b)) (λ j. Above j (mid ++ b)) a
            (λ j p. Above-append j mid b (Within-Above j f mid p.0 from) p.1) wa)

    -- The parts of what the leaves stand for, before and after.
    pub seen_before :
        (j : ℕ)
        → seen (a ++ (f, n) ∷ b) j ≡ or_else (or_else (seen b j) (seen ((f, n) ∷ []) j)) (seen a j)
    seen_before j =
        let o = Tidy-IsOrdered (a ++ (f, n) ∷ b) old in
        let ob = Tidy-IsOrdered ((f, n) ∷ b) (Tidy-split a ((f, n) ∷ b) old).1 in
        rw (seen-append j a ((f, n) ∷ b) o, seen-append j ((f, n) ∷ []) b ob)

    pub seen_after :
        (j : ℕ) → seen (a ++ (mid ++ b)) j ≡ or_else (or_else (seen b j) (seen mid j)) (seen a j)
    seen_after j =
        let t = replace-Tidy in
        let o = Tidy-IsOrdered (a ++ (mid ++ b)) t in
        let om = Tidy-IsOrdered (mid ++ b) (Tidy-split a (mid ++ b) t).1 in
        rw (seen-append j a (mid ++ b) o, seen-append j mid b om)
