-- ===== src/FitingTree/Search/Position.antt =====
-- The search of a node with the model's error within bounds: exact on stored keys, and beside the
-- place of insertion on others.
use viper_learned_index.Common.{
  ℕ, suc, ◌+◌, ◌≤◌, ◌<◌, ◌≡◌, ◌≢◌, ◌⊎◌, inl, inr, some, List, arith, length, ◌!◌, Returns, ◌==◌,
  Bool-cases,
}
use viper_learned_index.FitingTree.Records.{IsSorted, rank, rank-Cuts, rank_at, Cuts-behind}
use viper_learned_index.FitingTree.Search.{find_precise_position}
use viper_learned_index.FitingTree.Search.Landing.{find_precise_position-Lands}

-- The predicted position `p` is inside, and misses the place of `key` by at most `epsilon`.
pub record Reaches (keys : List ℕ) (key epsilon p : ℕ) : Type 0 where
  pub inside : p < length keys
  pub near : p ≤ rank key keys + epsilon
  pub far : rank key keys ≤ p + epsilon + 1
  pub stored : (i : ℕ) → i < length keys → keys ! i ≡ key → i ≤ p + epsilon

-- `p` is the index of `key`, or `key` is not stored and `p` is the cell before its place or on it.
abbrev pub Locates : List ℕ → ℕ → ℕ → Type 0
Locates keys key p =
    (p < length keys)
    × ((keys ! p ≡ key)
        ⊎ (((i : ℕ) → i < length keys → keys ! i ≢ key)
            × (p ≤ rank key keys)
            × (rank key keys ≤ p + 1)))

module _ (keys : List ℕ) (key epsilon p : ℕ) (s : IsSorted keys)
    (w : Reaches keys key epsilon p) where
  -- The search lands on a stored key, from any start within `epsilon` of it.
  stored_hit :
      (i q : ℕ)
      → i < length keys
      → keys ! i ≡ key
      → find_precise_position keys (length keys) epsilon key (some p) ≡ some q
      → keys ! q ≡ key
  stored_hit i q h e run =
      let at : rank key keys ≡ i = rw (← e) (rank_at i keys s h) in
      let (a, ea, la) =
        find_precise_position-Lands keys key (rank key keys) (rank-Cuts key keys s) epsilon p
          w.inside w.near w.far in
      let (b, eb, lb) =
        find_precise_position-Lands keys key (suc i) (rw (← e) (Cuts-behind i keys s h)) epsilon p
          w.inside (omega (arith, w.near)) (omega (arith, w.stored i h e)) in
      ground arith

  -- From a start inside the array that misses the place of the key by at most `epsilon`, on a sorted
  -- array, the search is defined, ends, and lands on the key if it is stored; if not, on the cell
  -- before its place or on that place.
  pub find_precise_position-Locates :
      Returns (find_precise_position keys (length keys) epsilon key (some p)) (Locates keys key)
  find_precise_position-Locates =
      let (q, run, l) =
        find_precise_position-Lands keys key (rank key keys) (rank-Cuts key keys s) epsilon p
          w.inside w.near w.far in
      (
        q,
        run,
        elim (Bool-cases (keys ! q == key)) [
          | inl hit ↦ (l.0, inl (ground arith))
          | inr miss ↦ (
            l.0,
            inr ((λ i h e. ground (arith, stored_hit i q h e run)), ground arith, ground arith),
          )
        ],
      )
