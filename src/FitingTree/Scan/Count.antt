-- ===== src/FitingTree/Scan/Count.antt =====
-- How often a key stands in the answers of a range query: once for each record within the bounds.
use viper_learned_index.Common.{
  ℕ, suc, ◌+◌, ◌≡◌, Option, none, some, List, [], ◌∷◌, ◌++◌, arith, ◌==◌, if◌then◌else◌, Bool-cases,
  inl, inr,
}
use viper_learned_index.FitingTree.Records.{IsSorted, IsSorted-tail, lookup, lookup-eq-none}
use viper_learned_index.FitingTree.Scan.Range.{in_bounds, between}

-- The answers with key `j`.
unfoldable pub times : ℕ → List (ℕ × ℕ) → ℕ
times j [] = 0
times j ((k, v) ∷ found) = if k == j then suc (times j found) else times j found

-- One for a record, none for no record.
unfoldable pub copies : Option ℕ → ℕ
copies none = 0
copies (some v) = 1

pub times-append : (j : ℕ) (a b : List (ℕ × ℕ)) → times j (a ++ b) ≡ times j a + times j b
unfolding times
times-append j [] b = omega arith
times-append j ((k, v) ∷ a) b = ground (arith, times-append j a b)

pub times-between :
    (lower upper j : ℕ) (keys payloads : List ℕ)
    → IsSorted keys
    → times j (between lower upper keys payloads)
      ≡ copies (if in_bounds lower upper j then lookup j keys payloads else none)
unfolding times copies between lookup
times-between lower upper j [] ps s = ground arith
times-between lower upper j (x ∷ xs) [] s = ground arith
times-between lower upper j (x ∷ xs) (v ∷ vs) s =
    let rest = times-between lower upper j xs vs (IsSorted-tail x xs s) in
    elim (Bool-cases (x == j)) [
      | inl same ↦
          let gone : lookup j xs vs ≡ none =
            lookup-eq-none j xs vs (λ i h e. ground (arith, s 0 (suc i), same)) in
          ground (arith, same, gone, rest)
      | inr other ↦ ground (arith, other, rest)
    ]
