-- ===== src/FitingTree/Tests/Setup.antt =====
-- Concrete parameters: whole numbers and halves for `double`, a list for the B+ tree, a segment for each key.
use native.Mathlib.Nat.{mul-le-mul_right}
use viper_learned_index.Common.{
  ℕ, zero, suc, ◌+◌, ◌-◌, ◌*◌, ◌/◌, ◌≤◌, ◌<◌, ◌≡◌, refl, ap, some, some_inj, ◌==◌, ==_iff, leb,
  Bool-cases, if◌then◌else◌, true, inl, inr, List, [], ◌∷◌, arith, length, ◌!◌,
}
use viper_learned_index.Common.Int.{ℤ, pos, negsuc, ◌≤ℤ◌}
use viper_learned_index.FitingTree.Float.{Float, IsMonotone}
use viper_learned_index.FitingTree.Float.Rounding.{IsRounded, Close, Drops}
use viper_learned_index.FitingTree.Parameters.{reserve}
use viper_learned_index.FitingTree.Records.{IsSorted, lookup, lookup_inv}
use viper_learned_index.FitingTree.Buffer.{Buffer}
use viper_learned_index.FitingTree.Buffer.Point as BufferPoint
use viper_learned_index.FitingTree.Search.{predict_int}
use viper_learned_index.FitingTree.Segment.{Segment, Cuts, AllModerate, Segmentation, ArePrecise}
use viper_learned_index.FitingTree.Tree.{TreeOps, TreeLaws}
use viper_learned_index.FitingTree.Entries

-- `p - n + h / 2`.
abbrev pub Halves : Type 0
Halves = ℕ × ℕ × ℕ

abbrev pub below : ℕ → ℤ
below zero = pos 0
below (suc q) = negsuc q

-- Half of `t - b` without its fraction.
abbrev pub trunc : ℕ → ℕ → ℤ
trunc t b = if leb b t then pos ((t - b) / 2) else below ((b - t) / 2)

abbrev pub whole : Float
whole = record {
  Double = Halves;
  of_size = λ n. (n, 0, 0);
  half = (0, 0, 1);
  fadd = λ a b. (a.0 + b.0, a.1 + b.1, a.2 + b.2);
  fsub = λ a b. (a.0 + b.1, a.1 + b.0 + b.2, a.2 + b.2);
  -- a quarter is dropped
  fmul = λ a s. (
    a.0 * s.0 + a.1 * s.1,
    a.0 * s.1 + a.1 * s.0 + a.1 * s.2 + a.2 * s.1,
    a.2 * s.0 + a.0 * s.2 + a.1 * s.2 + a.2 * s.1,
  );
  to_int = λ a. some (trunc (2 * a.0 + a.2) (2 * a.1));
}

below_mono : (p q : ℕ) → q ≤ p → below p ≤ℤ below q
below_mono zero zero h = omega arith
below_mono zero (suc q) h = absurd (omega arith)
below_mono (suc p) zero h = omega arith
below_mono (suc p) (suc q) h = omega arith

below_le : (q n : ℕ) → below q ≤ℤ pos n
below_le zero n = omega arith
below_le (suc q) n = omega arith

pub trunc_mono : (t b t' b' : ℕ) → t + b' ≤ t' + b → trunc t b ≤ℤ trunc t' b'
trunc_mono t b t' b' h = elim (Bool-cases (leb b t)) [
  | inl up ↦
      (let e : leb b' t' ≡ true = ground (arith, up) in
        let f : b ≤ t = ground (arith, up) in rw (up, e) (omega (arith, f)))
  | inr down ↦ elim (Bool-cases (leb b' t')) [
    | inl up ↦ rw (down, up) (below_le ((b - t) / 2) ((t' - b') / 2))
    | inr other ↦
        (let f : t' < b' = ground (arith, other) in
          rw (down, other) (below_mono ((b - t) / 2) ((b' - t') / 2) (omega (arith, f))))
  ]
]

pub trunc-Drops : (t b : ℕ) → Drops t b 2 (trunc t b)
trunc-Drops t b = elim (Bool-cases (leb b t)) [
  | inl up ↦
      (let f : b ≤ t = ground (arith, up) in rw up (inr (omega (arith, f)), omega (arith, f)))
  | inr down ↦
      (let f : t < b = ground (arith, down) in
        rw down (below-Drops ((b - t) / 2) (omega (arith, f)) (omega (arith, f))))
]
  where
    below-Drops : (q : ℕ) → t < b → t + q * 2 ≤ b → Drops t b 2 (below q)
    below-Drops zero less le = (inl refl, omega arith)
    below-Drops (suc q) less le = omega arith

abbrev pub Below : Halves → Halves → Type 0
Below a b = 2 * a.0 + a.2 + 2 * b.1 ≤ 2 * b.0 + b.2 + 2 * a.1

pub mul_mono :
    (s a b : Halves) → (s.1 ≡ 0) × (s.2 ≡ 0) → Below a b → Below (whole.fmul a s) (whole.fmul b s)
mul_mono s a b zeros h =
    let e = mul-le-mul_right s.0 h in rw zeros.0 (rw zeros.1 (grind (arith, e)))

abbrev pub monotone : IsMonotone whole
monotone = record {
  Le = Below;
  NonNegative = λ s. (s.1 ≡ 0) × (s.2 ≡ 0);
  of_size_mono = λ a b h. omega arith;
  fmul_mono = mul_mono;
  fadd_mono = λ c a b h. omega arith;
  to_int_mono = λ a b x y h e f.
      rw
        (
          ← some_inj (trunc (2 * a.0 + a.2) (2 * a.1)) x e,
          ← some_inj (trunc (2 * b.0 + b.2) (2 * b.1)) y f,
        )
        (trunc_mono (2 * a.0 + a.2) (2 * a.1) (2 * b.0 + b.2) (2 * b.1) (omega arith));
}

pub mul_exact :
    (n : ℕ) (s : Halves)
    → let d = whole.fmul (whole.of_size n) s in
      Close (2 * d.0 + d.2) (2 * d.1) (n * (2 * s.0 + s.2)) (n * (2 * s.1)) 0
mul_exact n s =
    let e : n * (2 * s.0 + s.2) ≡ 2 * (n * s.0) + n * s.2 = grind arith in
    let f : n * (2 * s.1) ≡ 2 * (n * s.1) = grind arith in
    (omega (arith, e, f), omega (arith, e, f))

abbrev pub values : IsRounded whole
values = record {
  plus = λ a. 2 * a.0 + a.2;
  minus = λ a. 2 * a.1;
  unit = 2;
  range = 1000000;
  error = 0;
  exact = 1000000;
  fine = omega arith;
  of_size_law = λ n h. omega arith;
  half_plus = refl;
  half_minus = refl;
  fadd_law = λ a b h. (omega arith, omega arith);
  fsub_law = λ a b h. (omega arith, omega arith);
  fmul_law = λ n s h r. mul_exact n s;
  to_int_law =
      λ a h. (trunc (2 * a.0 + a.2) (2 * a.1), refl, trunc-Drops (2 * a.0 + a.2) (2 * a.1));
}

-- The position that the model of a node gives.
abbrev pub estimate : Halves → Halves → ℕ → ℤ
estimate slope intercept key =
    let d = whole.fadd (whole.fadd (whole.fmul (whole.of_size key) slope) intercept) whole.half in
    trunc (2 * d.0 + d.2) (2 * d.1)

pub estimated :
    (slope intercept : Halves) (key : ℕ)
    → predict_int whole slope intercept key ≡ some (estimate slope intercept key)
unfolding predict_int
estimated slope intercept key = refl

-- A segment of one key, with a constant model.
abbrev pub single : List ℕ → ℕ → Segment whole
single keys i = record {
  first_key = keys ! i;
  slope = (0, 0, 0);
  intercept = (i, 0, 0);
  number = 1;
}

abbrev pub singles : List ℕ → ℕ → ℕ → List (Segment whole)
singles keys i zero = []
singles keys i (suc n) = single keys i ∷ singles keys (i + 1) n

pub singles-Cuts :
    (keys : List ℕ) (i n : ℕ)
    → i + n ≡ length keys
    → Cuts whole values monotone.NonNegative keys i (singles keys i n)
singles-Cuts keys i zero h = omega arith
singles-Cuts keys i (suc n) h = (
  omega arith,
  omega arith,
  refl,
  (refl, refl),
  λ k l. (omega arith, omega arith),
  singles-Cuts keys (i + 1) n (omega arith),
)

abbrev pub segmentation : Segmentation whole monotone
segmentation = record {
  run = λ n keys. singles keys 0 n;
  values = values;
  cuts = λ keys filled sorted. singles-Cuts keys 0 (length keys) (omega arith);
}

singles-Moderate :
    (keys : List ℕ) (i n : ℕ)
    → i + n ≤ 1001
    → ((j : ℕ) → j < length keys → keys ! j ≤ 1000)
    → AllModerate whole values keys (singles keys i n)
singles-Moderate keys i zero h small = tt
singles-Moderate keys i (suc n) h small = (
  record {
    exact = λ j l. omega (arith, small j l);
    rising = λ j l. omega arith;
    falling = λ j l. omega arith;
    above = omega arith;
    below = omega arith;
  },
  singles-Moderate keys (i + 1) n (omega arith) small,
)

index_le : (keys : List ℕ) → IsSorted keys → (i : ℕ) → i < length keys → i ≤ keys ! i
index_le keys sorted zero h = omega arith
index_le keys sorted (suc i) h =
    omega
      (arith, index_le keys sorted i (omega arith), sorted i (suc i) (omega arith) (omega arith))

-- Keys up to 1000 are small enough.
pub precise :
    (P : ℕ → Type 0) → ((k : ℕ) → P k → k ≤ 1000) → ArePrecise whole monotone segmentation P
precise P few keys filled sorted small =
    let last = length keys - 1 in
    let top = few (keys ! last) (small last (omega arith)) in
    let short : length keys ≤ 1001 =
      omega (arith, index_le keys sorted last (omega arith), top, filled) in
    (
      singles-Moderate keys 0 (length keys) (omega arith) (λ j l. few (keys ! j) (small j l)),
      (omega arith, omega arith, omega arith),
    )

-- A sorted list of entries as a tree.
abbrev pub list_tree : (V : Type 0) → TreeOps V
list_tree V = record {
  Tree = List (ℕ × V);
  bulk_load = λ es. es;
  before = λ es k. Entries.floor k es;
  erase = λ es k. Entries.erase k es;
  insert = λ es new. Entries.insert_all new es;
  assign = λ es k v. Entries.assign k v es;
  entries = λ es. es;
}

abbrev pub list_laws : (V : Type 0) → TreeLaws V (list_tree V)
list_laws V = record {
  entries-bulk_load = λ es o. refl;
  before-entries = λ es k. refl;
  entries-erase = λ es k. refl;
  entries-insert = λ es new. refl;
  entries-assign = λ es k v. refl;
}

-- Keys in order are sorted.
abbrev pub Ascends : List ℕ → Type 0
Ascends [] = Unit
Ascends (x ∷ []) = Unit
Ascends (x ∷ y ∷ xs) = (x < y) × Ascends (y ∷ xs)

pub Ascends-IsSorted : (keys : List ℕ) → Ascends keys → IsSorted keys
Ascends-IsSorted [] a i j h l = absurd (omega arith)
Ascends-IsSorted (x ∷ []) a i j h l = absurd (omega arith)
Ascends-IsSorted (x ∷ y ∷ xs) a (suc i) (suc j) h l =
    Ascends-IsSorted (y ∷ xs) a.1 i j (omega arith) (omega arith)
Ascends-IsSorted (x ∷ y ∷ xs) a zero (suc zero) h l = a.0
Ascends-IsSorted (x ∷ y ∷ xs) a zero (suc (suc j)) h l =
    omega (arith, a.0, Ascends-IsSorted (y ∷ xs) a.1 0 (suc j))
Ascends-IsSorted (x ∷ y ∷ xs) a i zero h l = absurd (omega arith)

-- `n` keys from `k` on.
abbrev pub count : ℕ → ℕ → List ℕ
count k zero = []
count k (suc n) = k ∷ count (suc k) n

pub length-count : (k n : ℕ) → length (count k n) ≡ n
length-count k zero = refl
length-count k (suc n) = ap suc (length-count (suc k) n)

count-Ascends : (k n : ℕ) → Ascends (count k n)
count-Ascends k zero = tt
count-Ascends k (suc zero) = tt
count-Ascends k (suc (suc n)) = (omega arith, count-Ascends (suc k) (suc n))

count_above : (k n j v : ℕ) (payloads : List ℕ) → lookup j (count k n) payloads ≡ some v → k ≤ j
unfolding lookup
count_above k zero j v ps e = absurd cc
count_above k (suc n) j v [] e = absurd cc
count_above k (suc n) j v (p ∷ ps) e = elim (Bool-cases (k == j)) [
  | inl same ↦ omega (arith, (==_iff k j).0 same)
  | inr other ↦ omega (arith, count_above (suc k) n j v ps (ground (arith, other, e)))
]

-- A buffer of `n` records with keys from `k` on.
abbrev pub many : ℕ → ℕ → Buffer
many k n = record { number = n; keys = count k n; payloads = count k n }

pub many-IsValid : (k n : ℕ) → n ≤ reserve → BufferPoint.IsValid (many k n)
many-IsValid k n h = record {
  keys_full = length-count k n;
  payloads_full = length-count k n;
  within = h;
  sorted = Ascends-IsSorted (count k n) (count-Ascends k n);
}

pub many_above : (k n j v : ℕ) → lookup j (many k n).keys (many k n).payloads ≡ some v → k ≤ j
many_above k n j v e = count_above k n j v (count k n) e

pub many_below : (k n j v : ℕ) → lookup j (many k n).keys (many k n).payloads ≡ some v → j < k + n
many_below k n j v e =
    let (i, inside, at) = lookup_inv j v (count k n) (count k n) e in
    omega (arith, count_at k n i, length-count k n)
  where
    count_at : (k n i : ℕ) → i < n → count k n ! i ≡ k + i
    count_at k zero i h = absurd (omega arith)
    count_at k (suc n) zero h = omega arith
    count_at k (suc n) (suc i) h = omega (arith, count_at (suc k) n i (omega arith))
