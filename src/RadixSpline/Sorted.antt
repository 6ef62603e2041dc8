-- ===== src/RadixSpline/Sorted.antt =====
-- Sorted arrays in which keys may be repeated, and `std::lower_bound` on them.
use viper_learned_index.Common.{
  ℕ, zero, suc, ◌+◌, ◌≤◌, ◌<◌, ◌≡◌, refl, Option, some, List, [], ◌∷◌, arith, length, ◌!◌, ltb,
  if◌then◌else◌, get_elem?, get_elem?-eq-get_or, ◌>>=◌,
}
use viper_learned_index.FitingTree.Records.{rank, lt_rank}

abbrev pub IsNondecreasing : List ℕ → Type 0
IsNondecreasing keys = (i j : ℕ) → i ≤ j → j < length keys → keys ! i ≤ keys ! j

IsNondecreasing-tail : (x : ℕ) (xs : List ℕ) → IsNondecreasing (x ∷ xs) → IsNondecreasing xs
IsNondecreasing-tail x xs s i j h l = s (suc i) (suc j) (omega arith) (omega arith)

-- From its rank on, no key is below.
pub rank_from :
    (key i : ℕ) (keys : List ℕ)
    → IsNondecreasing keys
    → rank key keys ≤ i
    → i < length keys
    → key ≤ keys ! i
unfolding rank
rank_from key i [] s h l = absurd (omega arith)
rank_from key zero (x ∷ xs) s h l = ground arith
rank_from key (suc i) (x ∷ xs) s h l =
    ground (arith, rank_from key i xs (IsNondecreasing-tail x xs s), s 0 (suc i))

-- `std::lower_bound` on `count` cells from `first` on: the first that is not below the key, or the
-- end. On a range that is sorted this is what the library promises.
unfoldable pub lower_bound : ℕ → List ℕ → ℕ → ℕ → Option ℕ
lower_bound zero keys first key = some first
lower_bound (suc count) keys first key = do
  x ← get_elem? keys first
  let rest = lower_bound count keys (first + 1) key in if ltb x key then rest else some first

pub lower_bound-eq :
    (count first key : ℕ) (keys : List ℕ)
    → IsNondecreasing keys
    → first ≤ rank key keys
    → rank key keys ≤ first + count
    → first + count ≤ length keys
    → lower_bound count keys first key ≡ some (rank key keys)
unfolding lower_bound
lower_bound-eq zero first key keys s low high inside =
    let e : first ≡ rank key keys = omega arith in rw e refl
lower_bound-eq (suc count) first key keys s low high inside =
    rw (get_elem?-eq-get_or keys first 0 (omega arith)) (
      ground (
        arith,
        lower_bound-eq count (first + 1) key keys s,
        lt_rank key first keys,
        rank_from key first keys s,
      ))
