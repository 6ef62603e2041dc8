-- ===== src/FitingTree/Entries/Laws.antt =====
-- The entries of a tree around the one that a key leads to.
use viper_learned_index.Common.{
  ℕ, ◌≤◌, ◌<◌, ◌≡◌, ◌≢◌, refl, ap, ◌∙◌, Option, none, some, List, [], ◌∷◌, ◌++◌, append_assoc,
  arith, lt→ltb, le→ltb, ne→==, inl, inr, lt_cases, or_else, some_inj, Option-cases,
}
use viper_learned_index.FitingTree.Entries.{
  floor, erase, insert, insert_all, assign, Above, IsOrdered,
}

pub or_else_assoc {ℓ} :
    {A : Type ℓ} (a b c : Option A) → or_else (or_else a b) c ≡ or_else a (or_else b c)
or_else_assoc none b c = refl
or_else_assoc (some a) b c = refl

or_else-some-ne-none {ℓ} : {A : Type ℓ} (o : Option A) (a : A) → or_else o (some a) ≢ none
or_else-some-ne-none none a e = cc
or_else-some-ne-none (some b) a e = cc

module _ {V : Type 0} where
  -- Every key is below `k`.
  abbrev pub Below : ℕ → List (ℕ × V) → Type 0
  Below k [] = Unit
  Below k ((f, v) ∷ es) = (f < k) × Below k es

  pub Above-trans : (j k : ℕ) (es : List (ℕ × V)) → j ≤ k → Above k es → Above j es
  Above-trans j k [] h a = tt
  Above-trans j k ((f, v) ∷ es) h a = (omega arith, Above-trans j k es h a.1)

  pub Above-append : (k : ℕ) (a b : List (ℕ × V)) → Above k a → Above k b → Above k (a ++ b)
  Above-append k [] b ha hb = hb
  Above-append k ((f, v) ∷ a) b ha hb = (ha.0, Above-append k a b ha.1 hb)

  pub Above-left : (k : ℕ) (a b : List (ℕ × V)) → Above k (a ++ b) → Above k a
  Above-left k [] b h = tt
  Above-left k ((f, v) ∷ a) b h = (h.0, Above-left k a b h.1)

  pub Above-right : (k : ℕ) (a b : List (ℕ × V)) → Above k (a ++ b) → Above k b
  Above-right k [] b h = h
  Above-right k ((f, v) ∷ a) b h = Above-right k a b h.1

  pub floor-eq-none : (j : ℕ) (es : List (ℕ × V)) → Above j es → floor j es ≡ none
  unfolding floor
  floor-eq-none j [] a = refl
  floor-eq-none j ((f, v) ∷ es) a = rw (lt→ltb j f a.0)

  -- Entries in two runs: the second answers first.
  pub floor-append :
      (j : ℕ) (a b : List (ℕ × V))
      → IsOrdered (a ++ b)
      → floor j (a ++ b) ≡ or_else (floor j b) (floor j a)
  unfolding floor
  floor-append j [] b o = ground arith
  floor-append j ((f, v) ∷ a) b o = elim (lt_cases j f) [
    | inl h ↦
        let above = Above-right f a b o.0 in
        rw (lt→ltb j f h, floor-eq-none j b (Above-trans j f b (omega arith) above))
    | inr h ↦
        rw (le→ltb j f h, floor-append j a b o.1)
          (or_else_assoc (floor j b) (floor j a) (some (f, v)))
  ]

  none-floor-Above : (k : ℕ) (es : List (ℕ × V)) → IsOrdered es → floor k es ≡ none → Above k es
  unfolding floor
  none-floor-Above k [] o e = tt
  none-floor-Above k ((f, v) ∷ es) o e = elim (lt_cases k f) [
    | inl h ↦ (h, Above-trans k f es (omega arith) o.0)
    | inr h ↦ absurd (or_else-some-ne-none (floor k es) (f, v) (rw (le→ltb k f h) at e))
  ]

  -- What `floor` found splits the entries in three.
  pub record Around (k f : ℕ) (v : V) (es : List (ℕ × V)) : Type 0 where
    pub before : List (ℕ × V)
    pub after : List (ℕ × V)
    pub whole : es ≡ before ++ (f, v) ∷ after
    pub reached : f ≤ k
    pub lower : Below f before
    pub upper : Above k after

  pub floor-Around :
      (k f : ℕ) (v : V) (es : List (ℕ × V))
      → IsOrdered es
      → floor k es ≡ some (f, v)
      → Around k f v es
  unfolding floor
  floor-Around k f v [] o e = cc
  floor-Around k f v ((g, w) ∷ es) o e = elim (lt_cases k g) [
    | inl h ↦ absurd (cc (rw (lt→ltb k g h) at e))
    | inr h ↦ elim (Option-cases (floor k es)) [
      | inl last ↦
          let same : ◌≡◌ {A = ℕ × V} (g, w) (f, v) =
            some_inj (g, w) (f, v) (rw (le→ltb k g h, last) at e) in
          record {
            before = [];
            after = es;
            whole = ap (λ (x : ℕ × V). x ∷ es) same;
            reached = rw (← ap (λ (x : ℕ × V). x.0) same) h;
            lower = tt;
            upper = none-floor-Above k es o.1 last;
          }
      | inr (p, more) ↦
          let same : p ≡ (f, v) = some_inj p (f, v) (rw (le→ltb k g h, more) at e) in
          let r = floor-Around k f v es o.1 (more ∙ ap some same) in
          let apart = Above-right g r.before ((f, v) ∷ r.after) (rw r.whole at o.0) in
          record {
            before = (g, w) ∷ r.before;
            after = r.after;
            whole = ap (λ (x : List (ℕ × V)). (g, w) ∷ x) r.whole;
            reached = r.reached;
            lower = (apart.0, r.lower);
            upper = r.upper;
          }
    ]
  ]

  pub erase-middle :
      (f : ℕ) (v : V) (a b : List (ℕ × V)) → Below f a → erase f (a ++ (f, v) ∷ b) ≡ a ++ b
  unfolding erase
  erase-middle f v [] b h = ground arith
  erase-middle f v ((g, w) ∷ a) b h = rw (ne→== g f (omega arith), erase-middle f v a b h.1)

  pub assign-middle :
      (f : ℕ) (v v' : V) (a b : List (ℕ × V))
      → Below f a
      → assign f v' (a ++ (f, v) ∷ b) ≡ a ++ (f, v') ∷ b
  unfolding assign
  assign-middle f v v' [] b h = ground arith
  assign-middle f v v' ((g, w) ∷ a) b h = rw (ne→== g f (omega arith), assign-middle f v v' a b h.1)

  pub insert-middle :
      (f : ℕ) (v : V) (a b : List (ℕ × V))
      → Below f a
      → Above f b
      → insert f v (a ++ b) ≡ a ++ (f, v) ∷ b
  unfolding insert
  insert-middle f v [] [] h k = refl
  insert-middle f v [] ((g, w) ∷ b) h k = rw (lt→ltb f g k.0)
  insert-middle f v ((g, w) ∷ a) b h k =
      rw (le→ltb f g (omega arith), ne→== g f (omega arith), insert-middle f v a b h.1 k)

  Below-append : (k : ℕ) (a b : List (ℕ × V)) → Below k a → Below k b → Below k (a ++ b)
  Below-append k [] b h l = l
  Below-append k ((g, w) ∷ a) b h l = (h.0, Below-append k a b h.1 l)

  -- The keys of `b` are all above the keys of `a`.
  abbrev pub Precede : List (ℕ × V) → List (ℕ × V) → Type 0
  Precede [] b = Unit
  Precede ((f, v) ∷ a) b = Above f b × Precede a b

  Precede-cons :
      (f : ℕ) (v : V) (a b : List (ℕ × V)) → Precede a ((f, v) ∷ b) → Below f a × Precede a b
  Precede-cons f v [] b p = (tt, tt)
  Precede-cons f v ((g, w) ∷ a) b p =
      let r = Precede-cons f v a b p.1 in ((p.0.0, r.0), (p.0.1, r.1))

  Precede-snoc :
      (f : ℕ) (v : V) (a b : List (ℕ × V)) → Precede a b → Above f b → Precede (a ++ (f, v) ∷ []) b
  Precede-snoc f v [] b p h = (h, tt)
  Precede-snoc f v ((g, w) ∷ a) b p h = (p.0, Precede-snoc f v a b p.1 h)

  Below_tail :
      (g : ℕ) (w : V) (f : ℕ) (new a : List (ℕ × V))
      → Above g new
      → Precede a ((g, w) ∷ new)
      → Precede (a ++ (g, w) ∷ []) new
  Below_tail g w f new a h p = Precede-snoc g w a new (Precede-cons g w a new p).1 h

  -- A run of new entries lands between the entries below it and those above it.
  pub insert_all-middle :
      (new a b : List (ℕ × V))
      → IsOrdered new
      → Precede a new
      → Precede new b
      → insert_all new (a ++ b) ≡ a ++ (new ++ b)
  unfolding insert_all
  insert_all-middle [] a b o p q = refl
  insert_all-middle ((g, w) ∷ new) a b o p q =
      let lower = (Precede-cons g w a new p).0 in
      rw (insert-middle g w a b lower q.0, ← append_assoc a ((g, w) ∷ []) b)
        (insert_all-middle new (a ++ (g, w) ∷ []) b o.1 (Below_tail g w g new a o.0 p) q.1
          ∙ append_assoc a ((g, w) ∷ []) (new ++ b))
