-- ===== src/FitingTree/BufferNode/Merge.antt =====
-- The loop of `merge_buffer` merges two sorted arrays.
use viper_learned_index.Common.{
  ℕ, zero, suc, ◌+◌, ◌≤◌, ◌<◌, ◌≡◌, ◌≢◌, refl, List, [], ◌∷◌, arith, length, ◌!◌, true, false, inl,
  inr, lt_cases, ltb, lt→ltb, le→ltb, drop, drop-eq-cons, drop-eq-nil, length-drop, or_else,
}
use viper_learned_index.FitingTree.Records.{IsSorted, IsSorted-tail, lookup, lookup-eq-none}

-- The merge on lists: the smaller key first, the buffer's on a tie.
unfoldable pub merge_keys : List ℕ → List ℕ → List ℕ
merge_keys [] bs = bs
merge_keys (x ∷ xs) [] = x ∷ xs
merge_keys (x ∷ xs) (y ∷ bs) = elim (ltb x y) [
  | true ↦ x ∷ merge_keys xs (y ∷ bs)
  | false ↦ y ∷ merge_keys (x ∷ xs) bs
]

-- The payloads go with their keys.
unfoldable pub merge_payloads : List ℕ → List ℕ → List ℕ → List ℕ → List ℕ
merge_payloads [] bs vs ws = ws
merge_payloads (x ∷ xs) [] vs ws = vs
merge_payloads (x ∷ xs) (y ∷ bs) [] ws = []
merge_payloads (x ∷ xs) (y ∷ bs) (v ∷ vs) [] = []
merge_payloads (x ∷ xs) (y ∷ bs) (v ∷ vs) (w ∷ ws) = elim (ltb x y) [
  | true ↦ v ∷ merge_payloads xs (y ∷ bs) vs (w ∷ ws)
  | false ↦ w ∷ merge_payloads (x ∷ xs) bs (v ∷ vs) ws
]

abbrev pub Disjoint : List ℕ → List ℕ → Type 0
Disjoint xs bs = (i j : ℕ) → i < length xs → j < length bs → xs ! i ≢ bs ! j

-- Every key of the list is above `x`.
abbrev pub Above : ℕ → List ℕ → Type 0
Above x xs = (i : ℕ) → i < length xs → x < xs ! i

pub length-merge_keys : (xs bs : List ℕ) → length (merge_keys xs bs) ≡ length xs + length bs
unfolding merge_keys
length-merge_keys [] bs = omega arith
length-merge_keys (x ∷ xs) [] = omega arith
length-merge_keys (x ∷ xs) (y ∷ bs) =
    ground (arith, length-merge_keys xs (y ∷ bs), length-merge_keys (x ∷ xs) bs)

pub length-merge_payloads :
    (xs bs vs ws : List ℕ)
    → length xs ≡ length vs
    → length bs ≡ length ws
    → length (merge_payloads xs bs vs ws) ≡ length vs + length ws
unfolding merge_payloads
length-merge_payloads [] bs vs ws e f = omega arith
length-merge_payloads (x ∷ xs) [] vs ws e f = omega arith
length-merge_payloads (x ∷ xs) (y ∷ bs) [] ws e f = absurd (omega arith)
length-merge_payloads (x ∷ xs) (y ∷ bs) (v ∷ vs) [] e f = absurd (omega arith)
length-merge_payloads (x ∷ xs) (y ∷ bs) (v ∷ vs) (w ∷ ws) e f = ground (
  arith,
  length-merge_payloads xs (y ∷ bs) vs (w ∷ ws),
  length-merge_payloads (x ∷ xs) bs (v ∷ vs) ws,
)

Above-cons : (x y : ℕ) (ys : List ℕ) → x < y → Above x ys → Above x (y ∷ ys)
Above-cons x y ys h a zero l = h
Above-cons x y ys h a (suc i) l = a i (omega arith)

Above-tail : (x y : ℕ) (ys : List ℕ) → Above x (y ∷ ys) → Above x ys
Above-tail x y ys a i l = a (suc i) (omega arith)

Above-merge_keys : (z : ℕ) (xs bs : List ℕ) → Above z xs → Above z bs → Above z (merge_keys xs bs)
unfolding merge_keys
Above-merge_keys z [] bs a b = b
Above-merge_keys z (x ∷ xs) [] a b = a
Above-merge_keys z (x ∷ xs) (y ∷ bs) a b =
    elim (ltb x y)
      as (λ t.
        Above z
          (elim t [ true ↦ x ∷ merge_keys xs (y ∷ bs) | false ↦ y ∷ merge_keys (x ∷ xs) bs ])) [
            | true ↦
                Above-cons z x _ (a 0 (omega arith))
                  (Above-merge_keys z xs (y ∷ bs) (Above-tail z x xs a) b)
            | false ↦
                Above-cons z y _ (b 0 (omega arith))
                  (Above-merge_keys z (x ∷ xs) bs a (Above-tail z y bs b))
          ]

IsSorted-cons : (x : ℕ) (xs : List ℕ) → Above x xs → IsSorted xs → IsSorted (x ∷ xs)
IsSorted-cons x xs a s i zero h l = absurd (omega arith)
IsSorted-cons x xs a s zero (suc j) h l = a j (omega arith)
IsSorted-cons x xs a s (suc i) (suc j) h l = s i j (omega arith) (omega arith)

IsSorted-Above : (x : ℕ) (xs : List ℕ) → IsSorted (x ∷ xs) → Above x xs
IsSorted-Above x xs s i l = s 0 (suc i) (omega arith) (omega arith)

Disjoint-tail_left : (x : ℕ) (xs bs : List ℕ) → Disjoint (x ∷ xs) bs → Disjoint xs bs
Disjoint-tail_left x xs bs d i j h l = d (suc i) j (omega arith) l

Disjoint-tail_right : (xs : List ℕ) (y : ℕ) (bs : List ℕ) → Disjoint xs (y ∷ bs) → Disjoint xs bs
Disjoint-tail_right xs y bs d i j h l = d i (suc j) h (omega arith)

Above-below : (x y : ℕ) (ys : List ℕ) → x < y → Above y ys → Above x ys
Above-below x y ys h a i l = omega (arith, a i l)

module _ (x y : ℕ) (xs bs : List ℕ) where
  pub merge_keys_left : x < y → merge_keys (x ∷ xs) (y ∷ bs) ≡ x ∷ merge_keys xs (y ∷ bs)
  unfolding merge_keys
  merge_keys_left h = rw (lt→ltb x y h, merge_keys)

  pub merge_keys_right : y ≤ x → merge_keys (x ∷ xs) (y ∷ bs) ≡ y ∷ merge_keys (x ∷ xs) bs
  unfolding merge_keys
  merge_keys_right h = rw (le→ltb x y h, merge_keys)

  module _ (v w : ℕ) (vs ws : List ℕ) where
    pub merge_payloads_left :
        x < y
        → merge_payloads (x ∷ xs) (y ∷ bs) (v ∷ vs) (w ∷ ws)
          ≡ v ∷ merge_payloads xs (y ∷ bs) vs (w ∷ ws)
    unfolding merge_payloads
    merge_payloads_left h = rw (lt→ltb x y h, merge_payloads)

    pub merge_payloads_right :
        y ≤ x
        → merge_payloads (x ∷ xs) (y ∷ bs) (v ∷ vs) (w ∷ ws)
          ≡ w ∷ merge_payloads (x ∷ xs) bs (v ∷ vs) ws
    unfolding merge_payloads
    merge_payloads_right h = rw (le→ltb x y h, merge_payloads)

merge_keys-nil : (xs : List ℕ) → merge_keys xs [] ≡ xs
unfolding merge_keys
merge_keys-nil [] = refl
merge_keys-nil (x ∷ xs) = refl

merge_payloads-nil : (xs vs : List ℕ) → length xs ≡ length vs → merge_payloads xs [] vs [] ≡ vs
unfolding merge_payloads
merge_payloads-nil [] [] e = refl
merge_payloads-nil [] (v ∷ vs) e = absurd (omega arith)
merge_payloads-nil (x ∷ xs) vs e = refl

-- What one round takes from what is left of the two arrays.
module _ (xs vs bs ws : List ℕ) (full : length xs ≡ length vs) (buffered : length bs ≡ length ws)
    (i k : ℕ) where
  abbrev pub keys_from : ℕ → ℕ → List ℕ
  keys_from i k = merge_keys (drop i xs) (drop k bs)

  abbrev pub payloads_from : ℕ → ℕ → List ℕ
  payloads_from i k = merge_payloads (drop i xs) (drop k bs) (drop i vs) (drop k ws)

  abbrev pub TakesOld : Type 0
  TakesOld =
      (keys_from i k ≡ xs ! i ∷ keys_from (i + 1) k)
      × (payloads_from i k ≡ vs ! i ∷ payloads_from (i + 1) k)

  abbrev pub TakesBuffered : Type 0
  TakesBuffered =
      (keys_from i k ≡ bs ! k ∷ keys_from i (k + 1))
      × (payloads_from i k ≡ ws ! k ∷ payloads_from i (k + 1))

  pub takes_old : i < length xs → k < length bs → xs ! i < bs ! k → TakesOld
  takes_old h l below =
      rw
        (
          drop-eq-cons i 0 xs h,
          drop-eq-cons i 0 vs (omega arith),
          drop-eq-cons k 0 bs l,
          drop-eq-cons k 0 ws (omega arith),
        )
        (merge_keys_left _ _ _ _ below, merge_payloads_left _ _ _ _ _ _ _ _ below)

  pub takes_buffered : i < length xs → k < length bs → bs ! k ≤ xs ! i → TakesBuffered
  takes_buffered h l above =
      rw
        (
          drop-eq-cons i 0 xs h,
          drop-eq-cons i 0 vs (omega arith),
          drop-eq-cons k 0 bs l,
          drop-eq-cons k 0 ws (omega arith),
        )
        (merge_keys_right _ _ _ _ above, merge_payloads_right _ _ _ _ _ _ _ _ above)

  pub takes_last_old : i < length xs → length bs ≤ k → TakesOld
  takes_last_old h l =
      rw
        (
          drop-eq-nil k bs l,
          drop-eq-nil k ws (omega arith),
          merge_keys-nil (drop i xs),
          merge_keys-nil (drop (i + 1) xs),
          merge_payloads-nil (drop i xs) (drop i vs) (rw (length-drop, length-drop) (omega arith)),
          merge_payloads-nil (drop (i + 1) xs) (drop (i + 1) vs)
              (rw (length-drop, length-drop) (omega arith)),
        )
        (drop-eq-cons i 0 xs h, drop-eq-cons i 0 vs (omega arith))

  pub takes_last_buffered : length xs ≤ i → k < length bs → TakesBuffered
  unfolding merge_keys merge_payloads
  takes_last_buffered h l =
      rw (drop-eq-nil i xs h) (drop-eq-cons k 0 bs l, drop-eq-cons k 0 ws (omega arith))

  pub takes_none : length xs ≤ i → length bs ≤ k → (keys_from i k ≡ []) × (payloads_from i k ≡ [])
  unfolding merge_keys merge_payloads
  takes_none h l = rw (drop-eq-nil i xs h) (drop-eq-nil k bs l, drop-eq-nil k ws (omega arith))

pub merge_keys-IsSorted :
    (xs bs : List ℕ) → IsSorted xs → IsSorted bs → Disjoint xs bs → IsSorted (merge_keys xs bs)
merge_keys-IsSorted [] bs s t d = unfold merge_keys in t
merge_keys-IsSorted (x ∷ xs) [] s t d = unfold merge_keys in s
merge_keys-IsSorted (x ∷ xs) (y ∷ bs) s t d = elim (lt_cases x y) [
  | inl h ↦
      let above = Above-cons x y bs h (Above-below x y bs h (IsSorted-Above y bs t)) in
      rw (merge_keys_left x y xs bs h) (
        IsSorted-cons x (merge_keys xs (y ∷ bs))
          (Above-merge_keys x xs (y ∷ bs) (IsSorted-Above x xs s) above)
          (merge_keys-IsSorted xs (y ∷ bs) (IsSorted-tail x xs s) t
            (Disjoint-tail_left x xs (y ∷ bs) d)))
  | inr h ↦
      let h' : y < x = omega (arith, d 0 0 (omega arith) (omega arith)) in
      let above = Above-cons y x xs h' (Above-below y x xs h' (IsSorted-Above x xs s)) in
      rw (merge_keys_right x y xs bs h) (
        IsSorted-cons y (merge_keys (x ∷ xs) bs)
          (Above-merge_keys y (x ∷ xs) bs above (IsSorted-Above y bs t))
          (merge_keys-IsSorted (x ∷ xs) bs s (IsSorted-tail y bs t)
            (Disjoint-tail_right (x ∷ xs) y bs d)))
]

pub lookup-merge :
    (j : ℕ) (xs bs vs ws : List ℕ)
    → length xs ≡ length vs
    → length bs ≡ length ws
    → Disjoint xs bs
    → lookup j (merge_keys xs bs) (merge_payloads xs bs vs ws)
      ≡ or_else (lookup j xs vs) (lookup j bs ws)
unfolding lookup merge_keys merge_payloads
lookup-merge j [] bs vs ws e f d = refl
lookup-merge j (x ∷ xs) [] vs ws e f d = ground arith
lookup-merge j (x ∷ xs) (y ∷ bs) [] ws e f d = absurd (omega arith)
lookup-merge j (x ∷ xs) (y ∷ bs) (v ∷ vs) [] e f d = absurd (omega arith)
lookup-merge j (x ∷ xs) (y ∷ bs) (v ∷ vs) (w ∷ ws) e f d = ground (
  arith,
  lookup-merge j xs (y ∷ bs) vs (w ∷ ws) (omega arith) f (Disjoint-tail_left x xs (y ∷ bs) d),
  lookup-merge j (x ∷ xs) bs (v ∷ vs) ws e (omega arith) (Disjoint-tail_right (x ∷ xs) y bs d),
  d 0 0,
  lookup-eq-none y xs vs (λ i h. d (suc i) 0 (omega arith) (omega arith)),
)
