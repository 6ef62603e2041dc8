-- ===== src/RadixSpline/Builder/Radix.antt =====
-- The radix table: each cell holds the number of spline points with a smaller prefix.
use viper_learned_index.Common.{
  ℕ, zero, suc, ◌+◌, ◌-◌, ◌≤◌, ◌<◌, ◌≡◌, refl, ap, ◌&&◌, some_inj, List, [], ◌∷◌, ◌++◌, arith,
  length, length-append, length-set, ◌!◌, ltb, leb, lt→ltb, set, if◌then◌else◌, ◌==◌, Returns, inl,
  inr, lt_cases,
}
use viper_learned_index.FitingTree.Records.{rank}
use viper_learned_index.RadixSpline.Sorted.{IsNondecreasing}
use viper_learned_index.RadixSpline.Builder.{fill}

get_or-set :
    (xs : List ℕ) (i k v : ℕ) → i < length xs → set xs i v ! k ≡ (if i == k then v else xs ! k)
get_or-set [] i k v h = absurd (omega arith)
get_or-set (x ∷ xs) zero zero v h = ground arith
get_or-set (x ∷ xs) zero (suc k) v h = ground arith
get_or-set (x ∷ xs) (suc i) zero v h = ground arith
get_or-set (x ∷ xs) (suc i) (suc k) v h = ground (arith, get_or-set xs i k v)

-- The loop writes the cells of its rounds and no other.
fill_lem :
    (rounds prefix value : ℕ) (table : List ℕ)
    → prefix + rounds ≤ length table
    → Returns (fill rounds table prefix value) λ t.
      (length t ≡ length table)
      × ((i : ℕ) → t ! i ≡ (if leb prefix i && ltb i (prefix + rounds) then value else table ! i))
unfolding fill
fill_lem zero prefix value table h = (table, refl, (refl, λ i. ground arith))
fill_lem (suc rounds) prefix value table h =
    let (t, run, (size, cells)) =
      fill_lem rounds (prefix + 1) value (set table prefix value)
        (omega (arith, length-set table prefix value)) in
    (
      t,
      rw (lt→ltb prefix (length table) (omega arith)) run,
      (
        omega (arith, size, length-set table prefix value),
        λ i. ground (arith, cells i, get_or-set table prefix i value (omega arith)),
      ),
    )

rank-append : (p c : ℕ) (xs : List ℕ) → p ≤ c → rank p (xs ++ c ∷ []) ≡ rank p xs
unfolding rank
rank-append p c [] h = ground arith
rank-append p c (x ∷ xs) h = ground (arith, rank-append p c xs h)

rank_all : (p : ℕ) (xs : List ℕ) → ((i : ℕ) → i < length xs → xs ! i < p) → rank p xs ≡ length xs
unfolding rank
rank_all p [] h = refl
rank_all p (x ∷ xs) h =
    rw (lt→ltb x p (h 0 (omega arith))) (ap suc (rank_all p xs (λ i l. h (suc i) (omega arith))))

pub get_or-snoc :
    (xs : List ℕ) (c i : ℕ)
    → i < length xs + 1
    → (xs ++ c ∷ []) ! i ≡ (if ltb i (length xs) then xs ! i else c)
get_or-snoc [] c i h = let e : i ≡ 0 = omega arith in rw e refl
get_or-snoc (x ∷ xs) c zero h = ground arith
get_or-snoc (x ∷ xs) c (suc i) h = ground (arith, get_or-snoc xs c i)

-- `prefixes` are those of the points so far, and the table is right up to `last`.
pub record IsTable (prefixes table : List ℕ) (last : ℕ) : Type 0 where
  pub sorted : IsNondecreasing prefixes
  pub below : (i : ℕ) → i < length prefixes → prefixes ! i ≤ last
  pub room : last < length table
  pub cells : (p : ℕ) → p ≤ last → table ! p ≡ rank p prefixes

-- A point with prefix `c` enters, and the cells behind the last prefix up to `c` are filled.
pub IsTable-snoc :
    (prefixes table : List ℕ) (last c : ℕ)
    → IsTable prefixes table last
    → last ≤ c
    → c < length table
    → Returns
        (fill (c - last) table (last + 1) (length prefixes))
        λ t. (length t ≡ length table) × IsTable (prefixes ++ c ∷ []) t c
IsTable-snoc prefixes table last c ok h inside =
    let (t, run, (size, written)) =
      fill_lem (c - last) (last + 1) (length prefixes) table (omega arith) in
    (
      t,
      run,
      (
        size,
        record {
          sorted = λ i j l m. grind (
            arith,
            length-append prefixes (c ∷ []),
            get_or-snoc prefixes c i,
            get_or-snoc prefixes c j,
            ok.sorted i j l,
            ok.below i,
          );
          below = λ i l.
              grind (arith, length-append prefixes (c ∷ []), get_or-snoc prefixes c i, ok.below i);
          room = omega (arith, size);
          cells = λ p l. filled t written p l;
        },
      ),
    )
  where
    filled :
        (t : List ℕ)
        → ((i : ℕ)
            → t ! i ≡ (
                if leb (last + 1) i && ltb i (last + 1 + (c - last))
                then length prefixes
                else table ! i))
        → (p : ℕ) → p ≤ c
        → t ! p ≡ rank p (prefixes ++ c ∷ [])
    filled t written p l = elim (lt_cases last p) [
      | inl behind ↦
          let all = rank_all p prefixes (λ i m. omega (arith, ok.below i m)) in
          rw (rank-append p c prefixes l, all) (ground (arith, written p))
      | inr before ↦ rw (rank-append p c prefixes l) (ground (arith, written p, ok.cells p before))
    ]

-- When no more points come, the cells behind the last prefix count all points.
pub fill_table :
    (prefixes table : List ℕ) (last : ℕ)
    → IsTable prefixes table last
    → Returns
        (fill (length table - (last + 1)) table (last + 1) (length prefixes))
        λ t. (length t ≡ length table) × ((p : ℕ) → p < length table → t ! p ≡ rank p prefixes)
fill_table prefixes table last ok =
    let (t, run, (size, written)) =
      fill_lem (length table - (last + 1)) (last + 1) (length prefixes) table
        (omega (arith, ok.room)) in
    (
      t,
      run,
      (
        size,
        λ p l. elim (lt_cases last p) [
          | inl behind ↦
              let all = rank_all p prefixes (λ i m. omega (arith, ok.below i m)) in
              ground (arith, written p, all)
          | inr before ↦ ground (arith, written p, ok.cells p before)
        ],
      ),
    )

-- A point with the last prefix leaves the table as it is.
pub IsTable-same :
    (prefixes table : List ℕ) (last : ℕ)
    → IsTable prefixes table last
    → IsTable (prefixes ++ last ∷ []) table last
unfolding fill
IsTable-same prefixes table last ok =
    let (t, run, (size, new)) = IsTable-snoc prefixes table last last ok (omega arith) ok.room in
    let none_left : last - last ≡ 0 = omega arith in
    let e : ◌≡◌ {A = List ℕ} table t = some_inj table t (rw none_left at run) in rw e new
