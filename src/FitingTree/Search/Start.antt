-- ===== src/FitingTree/Search/Start.antt =====
-- Where a range scan starts: at or before the place of the lower bound.
use viper_learned_index.Common.{◌≤◌, ℕ, List, arith, inl, inr}
use viper_learned_index.FitingTree.Records.{IsSorted, rank, rank_at}
use viper_learned_index.FitingTree.Search.Position.{Locates}

pub Locates-le :
    (keys : List ℕ) (key q : ℕ) → IsSorted keys → Locates keys key q → q ≤ rank key keys
Locates-le keys key q sorted l = elim l.1 [
  | inl hit ↦ rw (← hit) (omega (arith, rank_at q keys sorted l.0))
  | inr miss ↦ miss.1
]
