-- ===== src/FitingTree/InplaceIndex.antt =====
-- index/FITing-tree/inplace_index.h: an index whose leaves are `InPlaceNode`s, which split when the
-- error bound of their model reaches `EPSILON + RESERVE`.
pub mod Laws
pub mod Correct
use viper_learned_index.Common.{
  true, false, not, none, [], ◌++◌, append_assoc, ◌⊎◌, inl, inr, get_or, ℕ, ◌+◌, ◌≤◌, ◌<◌, ◌≡◌,
  refl, sym, ap, subst, ◌∙◌, Bool, Option, some, List, arith, length, ◌!◌, ◌==◌, if◌then◌else◌,
  take, drop, Returns,
}
use viper_learned_index.Common.Int.{ℤ}
use viper_learned_index.FitingTree.Float.{Float, IsMonotone}
use viper_learned_index.FitingTree.Parameters.{epsilon_default, reserve, payload_or_none}
use viper_learned_index.FitingTree.Records.{IsSorted, lookup, lookup_hit}
use viper_learned_index.FitingTree.Scan.Range.{
  in_bounds, between, answer, answer-append, answer-between, between-eq-nil,
}
use viper_learned_index.FitingTree.InplaceNode.Range as Range
use viper_learned_index.FitingTree.Search.{predict_int}
use viper_learned_index.FitingTree.Segment.{Segment, Covers}
use viper_learned_index.FitingTree.Buffer.{Buffer}
use viper_learned_index.FitingTree.Tree.{TreeOps}
use viper_learned_index.FitingTree.Index
use viper_learned_index.FitingTree.Index.{Index}
use viper_learned_index.FitingTree.Node.{NodeOps, NodeLaws}
use viper_learned_index.FitingTree.InplaceNode
use viper_learned_index.FitingTree.InplaceNode.{InplaceNode}
use viper_learned_index.FitingTree.InplaceNode.Model.{IsValid}
use viper_learned_index.FitingTree.InplaceNode.Point as Point
use viper_learned_index.FitingTree.InplaceNode.Fresh as Fresh

-- `NODE` is `InPlaceNode<K, P>`.
abbrev pub ops : (F : Float) → NodeOps F
ops F = record {
  Node = InplaceNode F;
  make = λ s keys payloads start.
      InplaceNode.new F s.number s.first_key s.slope s.intercept keys payloads start;
  find = InplaceNode.find F;
  upsert = InplaceNode.upsert F;
  range_query = InplaceNode.range_query F;
  split_bound = epsilon_default + reserve;
  settle = λ n. some n;
  get_number = λ n. n.number;
  get_keys = λ n. n.keys;
  get_payloads = λ n. n.payloads;
}

module _ (F : Float) (trees : TreeOps (InplaceNode F)) (run : ℕ → List ℕ → List (Segment F)) where
  -- The constructor and `build`.
  abbrev pub build : List ℕ → List ℕ → ℕ → Option (Index trees)
  build = Index.build (ops F) trees run

  abbrev pub find : Index trees → ℕ → Option ℕ
  find = Index.find (ops F) trees run

  abbrev pub range_query : Index trees → ℕ → ℕ → List (ℕ × ℕ) → Option (List (ℕ × ℕ))
  range_query = Index.range_query (ops F) trees run

  abbrev pub split_leaf : Index trees → ℕ → InplaceNode F → Option (Index trees)
  split_leaf = Index.split_leaf (ops F) trees run

  abbrev pub flush_left : Index trees → Buffer → Option (Index trees)
  flush_left = Index.flush_left (ops F) trees run

  abbrev pub flush_right : Index trees → Buffer → Option (Index trees)
  flush_right = Index.flush_right (ops F) trees run

  abbrev pub upsert : Index trees → ℕ → ℕ → Option (Index trees)
  upsert = Index.upsert (ops F) trees run

  -- The interface of `BaseIndex`.
  abbrev pub core_insert : Index trees → ℕ → ℕ → Option (Index trees × ℕ)
  core_insert = Index.core_insert (ops F) trees run

  abbrev pub core_get : Index trees → ℕ → Option ℕ
  core_get = Index.core_get (ops F) trees run

  -- The sums of `index_size` and `index_model_size`: of the models, of the slots, and of the data.
  abbrev pub sizes : ℕ → ℕ → ℕ → ℕ → Index trees → ℕ × ℕ × ℕ
  sizes header node_header inner cell =
      Index.sizes trees (InplaceNode.node_size F node_header cell) header inner cell

  abbrev pub index_size : ℕ → ℕ → ℕ → ℕ → Index trees → ℕ
  index_size header node_header inner cell =
      Index.index_size trees (InplaceNode.node_size F node_header cell) header inner cell

  abbrev pub index_model_size : ℕ → ℕ → ℕ → ℕ → Index trees → ℕ
  index_model_size header node_header inner cell =
      Index.index_model_size trees (InplaceNode.node_size F node_header cell) header inner cell
