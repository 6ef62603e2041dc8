-- ===== src/FitingTree/Index/Leaf.antt =====
-- A write into one leaf, with or without the split that follows, as a change of the run of leaves.
use viper_learned_index.Common.{
  ℕ, ◌≤◌, ◌<◌, ◌≡◌, sym, ap, ◌∙◌, some, List, [], ◌∷◌, ◌++◌, arith, length, ◌!◌, inl, inr,
  if◌then◌else◌, ◌==◌, ==_iff, Bool-cases, subst, get_or,
}
use viper_learned_index.FitingTree.Float.{Float, IsMonotone}
use viper_learned_index.FitingTree.Records.{IsSorted, lookup, lookup_hit}
use viper_learned_index.FitingTree.Node.{NodeOps, NodeLaws}
use viper_learned_index.FitingTree.Entries.{floor, Above, erase, insert_all, assign}
use viper_learned_index.FitingTree.Entries.Laws.{
  Around, floor-Around, Above-trans, Precede, erase-middle, assign-middle, insert_all-middle,
}
use viper_learned_index.FitingTree.Index.Build.{IsKey, Built}
use viper_learned_index.FitingTree.Index.Tidy.{
  Within, IsGood, Tidy, Tidy-split, seen, seen-eq-none, seen-append, seen_one, Within-mono,
  Within-Above, replace-Tidy, seen_before, seen_after, Tidy-IsOrdered,
}

module _ (F : Float) (m : IsMonotone F) (ops : NodeOps F) (laws : NodeLaws F m ops) where
  open ops use {Node}
  open laws use {view, first, load}

  pub Within-append :
      (P : ℕ → Type 0) (a b : List (ℕ × Node))
      → Within F m ops laws P a
      → Within F m ops laws P b
      → Within F m ops laws P (a ++ b)
  Within-append P [] b wa wb = wb
  Within-append P ((f, n) ∷ a) b wa wb = (wa.0, wa.1, Within-append P a b wa.2 wb)

  pub Within-split :
      (P : ℕ → Type 0) (a b : List (ℕ × Node))
      → Within F m ops laws P (a ++ b)
      → Within F m ops laws P a × Within F m ops laws P b
  Within-split P [] b w = (tt, w)
  Within-split P ((f, n) ∷ a) b w = let r = Within-split P a b w.2 in ((w.0, w.1, r.0), r.1)

  pub Within-Precede :
      (a b : List (ℕ × Node)) → Within F m ops laws (λ j. Above j b) a → Precede a b
  Within-Precede [] b w = tt
  Within-Precede ((f, n) ∷ a) b w = (w.0, Within-Precede a b w.2)

  -- The leaves `es'` are `es` with `payload` written under `key`.
  pub record Written (key payload : ℕ) (P : ℕ → Type 0) (es es' : List (ℕ × Node)) : Type 0 where
    pub tidy : Tidy F m ops laws es'
    pub kept : Within F m ops laws P es'
    pub reads :
        (j : ℕ)
        → seen F m ops laws es' j
          ≡ (if key == j then some (some payload) else seen F m ops laws es j)

  module _ (key payload : ℕ) (P : ℕ → Type 0) (es : List (ℕ × Node)) (tidy : Tidy F m ops laws es)
      (within : Within F m ops laws P es) (f : ℕ) (n : Node)
      (found : floor key es ≡ some (f, n)) where
    pub around : Around key f n es
    around = floor-Around key f n es (Tidy-IsOrdered F m ops laws es tidy) found

    whole-Tidy : Tidy F m ops laws (around.before ++ (f, n) ∷ around.after)
    whole-Tidy = subst (Tidy F m ops laws) around.whole tidy

    -- The leaf that `key` leads to is good, starts at or below it, and holds no key of a later leaf.
    pub leaf-IsGood : IsGood F m ops laws f n
    leaf-IsGood = (Tidy-split F m ops laws around.before ((f, n) ∷ around.after) whole-Tidy).1.0

    pub leaf_reached : f ≤ key
    leaf_reached = around.reached

    -- Leaves `mid` in the place of that leaf, which differ from it at `key` alone.
    replace-Written :
        (mid : List (ℕ × Node))
        → Tidy F m ops laws mid
        → Within F m ops laws (λ j. (f ≤ j) × Above j around.after × P j) mid
        → ((j : ℕ)
            → seen F m ops laws mid j
              ≡ (if key == j then some (some payload) else seen F m ops laws ((f, n) ∷ []) j))
        → Written key payload P es (around.before ++ (mid ++ around.after))
    replace-Written mid new fits reads =
        let a = around.before in
        let b = around.after in
        let fits' =
          Within-mono F m ops laws _ (λ j. (f ≤ j) × Above j b) mid (λ j p. (p.0, p.1)) fits in
        let (wa, wb) =
          Within-split P a ((f, n) ∷ b) (subst (Within F m ops laws P) around.whole within) in
        record {
          tidy = replace-Tidy F m ops laws f n a mid b whole-Tidy new fits';
          kept =
              Within-append P a (mid ++ b) wa
                (Within-append P mid b (Within-mono F m ops laws _ P mid (λ j p. p.2) fits) wb.2);
          reads = λ j.
              rw
                (
                  ap (λ x. seen F m ops laws x j) around.whole,
                  seen_before F m ops laws f n a mid b whole-Tidy new fits' j,
                  seen_after F m ops laws f n a mid b whole-Tidy new fits' j,
                  reads j,
                )
                (ground (arith, seen-eq-none F m ops laws key b around.upper));
        }

    -- What the leaves after it hold is above the keys of the leaf `n`.
    leaf_contents : (j v : ℕ) → view n j ≡ some v → (f ≤ j) × Above j around.after
    leaf_contents = (Tidy-split F m ops laws around.before ((f, n) ∷ around.after) whole-Tidy).1.1

    -- What that leaf holds is what the leaves say.
    pub leaf_seen : (j v : ℕ) → view n j ≡ some v → seen F m ops laws es j ≡ some (some v)
    leaf_seen j v at =
        let (low, above) = leaf_contents j v at in
        let ordered =
          Tidy-IsOrdered F m ops laws (around.before ++ (f, n) ∷ around.after) whole-Tidy in
        let tail = (Tidy-split F m ops laws around.before ((f, n) ∷ around.after) whole-Tidy).1 in
        ap (λ x. seen F m ops laws x j) around.whole
        ∙ rw
            (
              seen-append F m ops laws j around.before ((f, n) ∷ around.after) ordered,
              seen-append F m ops laws j ((f, n) ∷ []) around.after
                  (Tidy-IsOrdered F m ops laws ((f, n) ∷ around.after) tail),
              seen-eq-none F m ops laws j around.after above,
              seen_one F m ops laws j f n,
            )
            (ground (arith, at, low))

    contents_kept : P f × ((j v : ℕ) → view n j ≡ some v → P j)
    contents_kept =
        let w =
          (Within-split P around.before ((f, n) ∷ around.after)
            (subst (Within F m ops laws P) around.whole within)).1 in
        (w.0, w.1)

    leaf_upper : Above f around.after
    leaf_upper = Above-trans f key around.after around.reached around.upper

    module _ (n' : Node)
        (reads : (j : ℕ) → view n' j ≡ (if key == j then some payload else view n j))
        (at_key : P key) where
      contents : (j v : ℕ) → view n' j ≡ some v → (f ≤ j) × Above j around.after × P j
      contents j v e = elim (Bool-cases (key == j)) [
        | inl same ↦
            let at = (==_iff key j).0 same in rw (← at) (around.reached, around.upper, at_key)
        | inr other ↦
            let e' : view n j ≡ some v = ground (arith, reads j) in
            let c = leaf_contents j v e' in (c.0, c.1, contents_kept.1 j v e')
      ]

      pub stored_fits :
          (keys payloads : List ℕ)
          → IsSorted keys
          → length keys ≡ length payloads
          → ((j : ℕ) → lookup j keys payloads ≡ view n' j)
          → (j : ℕ) → IsKey keys 0 j
          → (f ≤ j) × Above j around.after × P j
      stored_fits keys payloads sorted full same j (i, low, inside, at) =
          contents j (get_or payloads i 0)
            (sym (same j) ∙ lookup_hit i j keys payloads sorted inside full at)

      entries_split :
          (nodes : List (ℕ × Node))
          → Tidy F m ops laws nodes
          → Within F m ops laws (λ j. (f ≤ j) × Above j around.after × P j) nodes
          → insert_all nodes (erase f es) ≡ around.before ++ (nodes ++ around.after)
      entries_split nodes new fits =
          let (ta, tb, wa) =
            Tidy-split F m ops laws around.before ((f, n) ∷ around.after) whole-Tidy in
          let from = Within-mono F m ops laws _ (λ j. f ≤ j) nodes (λ j p. p.0) fits in
          ap (λ x. insert_all nodes (erase f x)) around.whole
          ∙ ap (insert_all nodes) (erase-middle f n around.before around.after around.lower)
          ∙ insert_all-middle nodes around.before around.after
              (Tidy-IsOrdered F m ops laws nodes new)
              (Within-Precede around.before nodes (
                Within-mono F m ops laws _ (λ j. Above j nodes) around.before
                  (λ j p. Within-Above F m ops laws j f nodes p.0 from) wa))
              (Within-Precede nodes around.after
                (Within-mono F m ops laws _ (λ j. Above j around.after) nodes (λ j p. p.1) fits))

      -- The pointer of the entry leads to the changed leaf.
      pub assign-Written : IsGood F m ops laws f n' → Written key payload P es (assign f n' es)
      assign-Written good =
          subst (Written key payload P es)
            (sym (
              ap (assign f n') around.whole
              ∙ assign-middle f n n' around.before around.after around.lower))
            (replace-Written ((f, n') ∷ []) (good, (λ j v e. ((contents j v e).0, tt)), tt, tt)
              ((omega arith, leaf_upper, contents_kept.0), contents, tt)
              (λ j.
                rw (seen_one F m ops laws j f n', seen_one F m ops laws j f n)
                  (ground (arith, reads j, around.reached))))

      -- The leaf leaves the tree, and the leaves that are built from its records enter.
      pub split-Written :
          (keys payloads : List ℕ) (sorted : IsSorted keys) (full : length keys ≡ length payloads)
          (nodes : List (ℕ × Node))
          → 0 < length keys
          → keys ! 0 ≡ f
          → ((j : ℕ) → lookup j keys payloads ≡ view n' j)
          → Built F m ops laws keys payloads sorted full 0 nodes
          → Written key payload P es (insert_all nodes (erase f es))
      split-Written keys payloads sorted full nodes filled start same b =
          let fits =
            Within-mono F m ops laws (IsKey keys 0) _ nodes
              (stored_fits keys payloads sorted full same) b.stored in
          subst (Written key payload P es) (sym (entries_split nodes b.tidy fits)) (
            replace-Written nodes b.tidy fits (λ j.
              rw (b.reads j, seen_one F m ops laws j f n)
                (ground (arith, same j, start, reads j, around.reached))))
