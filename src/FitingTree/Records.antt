-- ===== src/FitingTree/Records.antt =====
-- Records as two arrays, keys and payloads, and what the arrays mean: a map from keys to payloads.
use viper_learned_index.Common.{
  ℕ, zero, suc, ◌-◌, ◌≤◌, ◌<◌, ◌≡◌, ◌≢◌, refl, Option, none, some, List, [], ◌∷◌, arith, ltb,
  Bool-cases, ◌&&◌, inl, inr, ◌==◌, if◌then◌else◌, length, get_or, get_elem?, get_elem?-eq-get_or,
  get_or, ◌!◌, set, take, drop, or_else, insert_at, length-insert_at, get_or-insert_at,
}

-- Strictly ascending.
abbrev pub IsSorted : List ℕ → Type 0
IsSorted keys = (i j : ℕ) → i < j → j < length keys → keys ! i < keys ! j

-- How many leading keys are below `key`.
unfoldable pub rank : ℕ → List ℕ → ℕ
rank key [] = 0
rank key (x ∷ xs) = if ltb x key then suc (rank key xs) else 0

unfoldable pub lookup : ℕ → List ℕ → List ℕ → Option ℕ
lookup key (x ∷ xs) (v ∷ vs) = if x == key then some v else lookup key xs vs
lookup key _ _ = none

-- `r` cuts the array: no key before it is above `key`, none from it on is below.
pub record Cuts (keys : List ℕ) (key r : ℕ) : Type 0 where
  pub inside : r ≤ length keys
  pub left : (i : ℕ) → i < r → keys ! i ≤ key
  pub right : (i : ℕ) → r ≤ i → i < length keys → key ≤ keys ! i

pub IsSorted-tail : (x : ℕ) (xs : List ℕ) → IsSorted (x ∷ xs) → IsSorted xs
IsSorted-tail x xs s i j h l = s (suc i) (suc j) (omega arith) (omega arith)

pub rank-le : (key : ℕ) (keys : List ℕ) → rank key keys ≤ length keys
unfolding rank
rank-le key [] = omega arith
rank-le key (x ∷ xs) = ground (arith, rank-le key xs)

pub lt_rank : (key i : ℕ) (keys : List ℕ) → i < rank key keys → keys ! i < key
unfolding rank
lt_rank key i [] h = absurd (omega arith)
lt_rank key zero (x ∷ xs) h = ground arith
lt_rank key (suc i) (x ∷ xs) h = ground (arith, lt_rank key i xs)

pub rank_le :
    (key i : ℕ) (keys : List ℕ)
    → IsSorted keys
    → rank key keys ≤ i
    → i < length keys
    → key ≤ keys ! i
unfolding rank
rank_le key i [] s h l = absurd (omega arith)
rank_le key zero (x ∷ xs) s h l = ground arith
rank_le key (suc i) (x ∷ xs) s h l =
    ground (arith, rank_le key i xs (IsSorted-tail x xs s), s 0 (suc i))

pub rank-Cuts : (key : ℕ) (keys : List ℕ) → IsSorted keys → Cuts keys key (rank key keys)
rank-Cuts key keys s = record {
  inside = rank-le key keys;
  left = λ i h. omega (arith, lt_rank key i keys);
  right = λ i h l. rank_le key i keys s h l;
}

-- A stored key has its own index for a rank, and the place behind it is a cut too.
pub rank_at : (i : ℕ) (keys : List ℕ) → IsSorted keys → i < length keys → rank (keys ! i) keys ≡ i
rank_at i keys s h = grind (
  arith,
  lt_rank (keys ! i) i keys,
  rank_le (keys ! i) i keys s,
  s (rank (keys ! i) keys) i,
  s i (rank (keys ! i) keys),
  lt_rank (keys ! i) (rank (keys ! i) keys) keys,
  rank_le (keys ! i) (rank (keys ! i) keys) keys s,
  rank-le (keys ! i) keys,
)

pub Cuts-behind :
    (i : ℕ) (keys : List ℕ) → IsSorted keys → i < length keys → Cuts keys (keys ! i) (suc i)
Cuts-behind i keys s h = record {
  inside = h;
  left = λ j l. ground (arith, s j i);
  right = λ j l b. ground (arith, s i j);
}

pub lookup-eq-none :
    (key : ℕ) (keys payloads : List ℕ)
    → ((i : ℕ) → i < length keys → keys ! i ≢ key)
    → lookup key keys payloads ≡ none
unfolding lookup
lookup-eq-none key [] vs h = refl
lookup-eq-none key (x ∷ xs) [] h = refl
lookup-eq-none key (x ∷ xs) (v ∷ vs) h =
    ground (arith, h 0, lookup-eq-none key xs vs (λ i l. h (suc i) (omega arith)))

pub lookup_at :
    (i : ℕ) (keys payloads : List ℕ)
    → IsSorted keys
    → i < length keys
    → length keys ≡ length payloads
    → lookup (keys ! i) keys payloads ≡ get_elem? payloads i
unfolding lookup
lookup_at i [] vs s h e = absurd (omega arith)
lookup_at i (x ∷ xs) [] s h e = absurd (omega arith)
lookup_at zero (x ∷ xs) (v ∷ vs) s h e = ground arith
lookup_at (suc i) (x ∷ xs) (v ∷ vs) s h e =
    ground (arith, s 0 (suc i), lookup_at i xs vs (IsSorted-tail x xs s))

pub lookup_hit :
    (i key : ℕ) (keys payloads : List ℕ)
    → IsSorted keys
    → i < length keys
    → length keys ≡ length payloads
    → keys ! i ≡ key
    → lookup key keys payloads ≡ some (get_or payloads i 0)
lookup_hit i key keys payloads s h e hit =
    rw (← hit, lookup_at i keys payloads s h e) (get_elem?-eq-get_or payloads i 0 (omega arith))

-- A key that does not stand at its rank is not stored.
pub not_at_rank :
    (key : ℕ) (keys : List ℕ)
    → IsSorted keys
    → (rank key keys < length keys → keys ! rank key keys ≢ key)
    → (i : ℕ) → i < length keys
    → keys ! i ≢ key
not_at_rank key keys s away i h e =
    let at : rank key keys ≡ i = rw (← e) (rank_at i keys s h) in away (omega arith) (rw at e)

-- A key is stored exactly where its rank says.
pub lookup-rank :
    (key : ℕ) (keys payloads : List ℕ)
    → IsSorted keys
    → length keys ≡ length payloads
    → lookup key keys payloads ≡ (
        if ltb (rank key keys) (length keys) && (keys ! rank key keys == key)
        then some (get_or payloads (rank key keys) 0)
        else none)
lookup-rank key keys payloads s full =
    elim (Bool-cases (ltb (rank key keys) (length keys) && (keys ! rank key keys == key))) [
      | inl at ↦
          rw at (lookup_hit (rank key keys) key keys payloads s (ground arith) full (ground arith))
      | inr away ↦
          rw away (lookup-eq-none key keys payloads (not_at_rank key keys s (λ h e. ground arith)))
    ]

-- A write of a payload.
pub lookup-set :
    (i j v : ℕ) (keys payloads : List ℕ)
    → IsSorted keys
    → i < length keys
    → length keys ≡ length payloads
    → lookup j keys (set payloads i v) ≡ (if keys ! i == j then some v else lookup j keys payloads)
unfolding lookup
lookup-set i j v [] vs s h e = absurd (omega arith)
lookup-set i j v (x ∷ xs) [] s h e = absurd (omega arith)
lookup-set zero j v (x ∷ xs) (w ∷ vs) s h e = ground arith
lookup-set (suc i) j v (x ∷ xs) (w ∷ vs) s h e =
    ground (arith, s 0 (suc i), lookup-set i j v xs vs (IsSorted-tail x xs s))

-- An insertion of a key that no key before the place is equal to.
pub lookup-insert_at :
    (r k j v : ℕ) (keys payloads : List ℕ)
    → r ≤ length keys
    → length keys ≡ length payloads
    → ((i : ℕ) → i < r → keys ! i ≢ k)
    → lookup j (insert_at r k keys) (insert_at r v payloads)
      ≡ (if k == j then some v else lookup j keys payloads)
unfolding lookup
lookup-insert_at zero k j v keys vs h e ne = refl
lookup-insert_at (suc r) k j v [] vs h e ne = absurd (omega arith)
lookup-insert_at (suc r) k j v (x ∷ xs) [] h e ne = absurd (omega arith)
lookup-insert_at (suc r) k j v (x ∷ xs) (w ∷ vs) h e ne = ground (
  arith,
  ne 0,
  lookup-insert_at r k j v xs vs (omega arith) (omega arith) (λ i l. ne (suc i) (omega arith)),
)

-- An insertion at the rank of a new key keeps the order.
pub insert_at-IsSorted :
    (key : ℕ) (keys : List ℕ)
    → IsSorted keys
    → ((i : ℕ) → i < length keys → keys ! i ≢ key)
    → IsSorted (insert_at (rank key keys) key keys)
insert_at-IsSorted key keys s new i j h l =
    let r = rank key keys in
    let fits = rank-le key keys in
    rw (get_or-insert_at r i key 0 keys fits, get_or-insert_at r j key 0 keys fits)
      (grind (
        arith,
        length-insert_at r key keys,
        lt_rank key i keys,
        rank_le key (j - 1) keys s,
        new (j - 1),
        s i j,
        s i (j - 1),
        s (i - 1) (j - 1),
      ))

-- What a lookup finds is stored.
pub lookup_inv :
    (j v : ℕ) (keys payloads : List ℕ)
    → lookup j keys payloads ≡ some v
    → (i : ℕ) × (i < length keys) × (keys ! i ≡ j)
unfolding lookup
lookup_inv j v [] vs e = absurd (cc)
lookup_inv j v (x ∷ xs) [] e = absurd (cc)
lookup_inv j v (x ∷ xs) (w ∷ vs) e = elim (Bool-cases (x == j)) [
  | inl hit ↦ (0, omega arith, ground arith)
  | inr miss ↦ let (i, h, at) = lookup_inv j v xs vs (rw miss at e) in (suc i, omega arith, at)
]

lookup-nil : (j : ℕ) (keys : List ℕ) → lookup j keys [] ≡ none
unfolding lookup
lookup-nil j [] = refl
lookup-nil j (x ∷ xs) = refl

-- A lookup in an array is one in its first `n` cells, or else one in the rest.
pub lookup-take-drop :
    (n j : ℕ) (keys payloads : List ℕ)
    → lookup j keys payloads
      ≡ or_else
          (lookup j (take n keys) (take n payloads))
          (lookup j (drop n keys) (drop n payloads))
unfolding lookup
lookup-take-drop zero j keys payloads = refl
lookup-take-drop (suc n) j [] payloads = ground arith
lookup-take-drop (suc n) j (x ∷ xs) [] =
    ground (arith, lookup-nil j (x ∷ xs), lookup-nil j (x ∷ take n xs), lookup-nil j (drop n xs))
lookup-take-drop (suc n) j (x ∷ xs) (v ∷ vs) = ground (arith, lookup-take-drop n j xs vs)
