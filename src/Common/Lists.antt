-- ===== src/Common/Lists.antt =====
-- Arrays as lists of the cells that were written, with native indices.
use Prim.Native.Nat.{ℕ, zero, suc, ◌+◌, ◌-◌, ◌≤◌, ◌<◌}
use mathlib.Core.Path.{◌≡◌, refl, ap}
use mathlib.Core.List.{List, [], ◌∷◌, ◌++◌}
use mathlib.Core.Option.{Option, none, some}
use native.Mathlib.Omega.{arith}
use native.Mathlib.Numerals.{add-one}
use viper_learned_index.Common.Tests.{ltb, ◌==◌, if◌then◌else◌}

module _ {ℓ} {A : Type ℓ} where
  abbrev pub length : List A → ℕ
  length [] = 0
  length (x ∷ xs) = suc (length xs)

  -- A read of a cell that was not written is undefined.
  abbrev pub get_elem? : List A → ℕ → Option A
  get_elem? [] i = none
  get_elem? (x ∷ xs) zero = some x
  get_elem? (x ∷ xs) (suc i) = get_elem? xs i

  abbrev pub get_or : List A → ℕ → A → A
  get_or [] i d = d
  get_or (x ∷ xs) zero d = x
  get_or (x ∷ xs) (suc i) d = get_or xs i d

  abbrev pub set : List A → ℕ → A → List A
  set [] i v = []
  set (x ∷ xs) zero v = v ∷ xs
  set (x ∷ xs) (suc i) v = x ∷ set xs i v

  abbrev pub take : ℕ → List A → List A
  take zero xs = []
  take (suc n) [] = []
  take (suc n) (x ∷ xs) = x ∷ take n xs

  abbrev pub drop : ℕ → List A → List A
  drop zero xs = xs
  drop (suc n) [] = []
  drop (suc n) (x ∷ xs) = drop n xs

  -- `memmove` of the cells from `i` on to `i + 1`, and a write at `i`.
  abbrev pub insert_at : ℕ → A → List A → List A
  insert_at zero v xs = v ∷ xs
  insert_at (suc i) v [] = v ∷ []
  insert_at (suc i) v (x ∷ xs) = x ∷ insert_at i v xs

module _ {ℓ} {A : Type ℓ} where
  pub get_elem?-eq-get_or :
      (xs : List A) (i : ℕ) (d : A) → i < length xs → get_elem? xs i ≡ some (get_or xs i d)
  get_elem?-eq-get_or [] i d h = absurd (omega arith)
  get_elem?-eq-get_or (x ∷ xs) zero d h = refl
  get_elem?-eq-get_or (x ∷ xs) (suc i) d h = get_elem?-eq-get_or xs i d (omega arith)

  pub get_elem?-eq-none : (xs : List A) (i : ℕ) → length xs ≤ i → get_elem? xs i ≡ none
  get_elem?-eq-none [] i h = refl
  get_elem?-eq-none (x ∷ xs) zero h = absurd (omega arith)
  get_elem?-eq-none (x ∷ xs) (suc i) h = get_elem?-eq-none xs i (omega arith)

  pub length-append : (xs ys : List A) → length (xs ++ ys) ≡ length xs + length ys
  length-append [] ys = omega arith
  length-append (x ∷ xs) ys = omega (arith, length-append xs ys)

  pub length-set : (xs : List A) (i : ℕ) (v : A) → length (set xs i v) ≡ length xs
  length-set [] i v = refl
  length-set (x ∷ xs) zero v = refl
  length-set (x ∷ xs) (suc i) v = ap suc (length-set xs i v)

  pub length-insert_at : (i : ℕ) (v : A) (xs : List A) → length (insert_at i v xs) ≡ suc (length xs)
  length-insert_at zero v xs = refl
  length-insert_at (suc i) v [] = refl
  length-insert_at (suc i) v (x ∷ xs) = ap suc (length-insert_at i v xs)

  pub length-take : (n : ℕ) (xs : List A) → n ≤ length xs → length (take n xs) ≡ n
  length-take zero xs h = refl
  length-take (suc n) [] h = absurd (omega arith)
  length-take (suc n) (x ∷ xs) h = ap suc (length-take n xs (omega arith))

  pub length-drop : (n : ℕ) (xs : List A) → length (drop n xs) ≡ length xs - n
  length-drop zero xs = omega arith
  length-drop (suc n) [] = omega arith
  length-drop (suc n) (x ∷ xs) = omega (arith, length-drop n xs)

  pub drop-eq-cons :
      (i : ℕ) (d : A) (xs : List A) → i < length xs → drop i xs ≡ get_or xs i d ∷ drop (i + 1) xs
  drop-eq-cons i d [] h = absurd (omega arith)
  drop-eq-cons zero d (x ∷ xs) h = refl
  drop-eq-cons (suc i) d (x ∷ xs) h =
      rw (add-one (suc i)) (rw (add-one i) at (drop-eq-cons i d xs (omega arith)))

  pub drop-eq-nil : (i : ℕ) (xs : List A) → length xs ≤ i → drop i xs ≡ []
  drop-eq-nil zero [] h = refl
  drop-eq-nil (suc i) [] h = refl
  drop-eq-nil zero (x ∷ xs) h = absurd (omega arith)
  drop-eq-nil (suc i) (x ∷ xs) h = drop-eq-nil i xs (omega arith)

  pub get_or-drop : (s i : ℕ) (d : A) (xs : List A) → get_or (drop s xs) i d ≡ get_or xs (s + i) d
  get_or-drop zero i d xs = let e : 0 + i ≡ i = omega arith in rw e
  get_or-drop (suc s) i d [] = refl
  get_or-drop (suc s) i d (x ∷ xs) =
      let e : suc s + i ≡ suc (s + i) = omega arith in rw e (get_or-drop s i d xs)

  pub get_or-take : (n i : ℕ) (d : A) (xs : List A) → i < n → get_or (take n xs) i d ≡ get_or xs i d
  get_or-take zero i d xs h = absurd (omega arith)
  get_or-take (suc n) i d [] h = refl
  get_or-take (suc n) zero d (x ∷ xs) h = refl
  get_or-take (suc n) (suc i) d (x ∷ xs) h = get_or-take n i d xs (omega arith)

  pub drop-drop : (n s : ℕ) (xs : List A) → drop n (drop s xs) ≡ drop (s + n) xs
  drop-drop n zero xs = let e : 0 + n ≡ n = omega arith in rw e
  drop-drop zero (suc s) [] = let e : suc s + 0 ≡ suc s = omega arith in rw e
  drop-drop (suc n) (suc s) [] = let e : suc s + suc n ≡ suc (s + suc n) = omega arith in rw e
  drop-drop n (suc s) (x ∷ xs) =
      let e : suc s + n ≡ suc (s + n) = omega arith in rw e (drop-drop n s xs)

  pub get_or-insert_at :
      (r i : ℕ) (v d : A) (xs : List A)
      → r ≤ length xs
      → get_or (insert_at r v xs) i d
        ≡ (if ltb i r then get_or xs i d else if i == r then v else get_or xs (i - 1) d)
  get_or-insert_at zero zero v d xs h = ground arith
  get_or-insert_at zero (suc i) v d xs h =
      let e : suc i - 1 ≡ i = omega arith in rw e (ground arith)
  get_or-insert_at (suc r) i v d [] h = absurd (omega arith)
  get_or-insert_at (suc r) zero v d (x ∷ xs) h = ground arith
  get_or-insert_at (suc r) (suc zero) v d (x ∷ xs) h = ground (arith, get_or-insert_at r 0 v d xs)
  get_or-insert_at (suc r) (suc (suc i)) v d (x ∷ xs) h =
      let e : suc (suc i) - 1 ≡ suc i = omega arith in
      let e' : suc i - 1 ≡ i = omega arith in
      rw (get_or-insert_at r (suc i) v d xs (omega arith), e, e') (ground arith)

-- A total read for statements; every use stands under a bound on the index.
infixl 90 ◌!◌
abbrev pub ◌!◌ : List ℕ → ℕ → ℕ
xs ! i = get_or xs i 0
