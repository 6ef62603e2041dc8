-- ===== src/FitingTree/Tree.antt =====
-- `stx::btree`, as the indexes call it. The container is a library (index/FITing-tree/btree.h), so
-- it is a parameter: its operations, and what they do to the entries in order.
use viper_learned_index.Common.{ℕ, ◌≡◌, Option, List}
use viper_learned_index.FitingTree.Entries
use viper_learned_index.FitingTree.Entries.{IsOrdered}

pub record TreeOps (V : Type 0) : Type 1 where
  pub Tree : Type 0
  pub bulk_load : List (ℕ × V) → Tree
  -- `*(--upper_bound(key))`; `none` if no entry is at most `key`
  pub before : Tree → ℕ → Option (ℕ × V)
  -- `erase(it)`, by the key of `it`
  pub erase : Tree → ℕ → Tree
  -- `insert(first, last)`
  pub insert : Tree → List (ℕ × V) → Tree
  -- a change of the node that an entry points to
  pub assign : Tree → ℕ → V → Tree
  -- from `begin()` to `end()`
  pub entries : Tree → List (ℕ × V)

pub record TreeLaws (V : Type 0) (ops : TreeOps V) : Type 0 where
  pub entries-bulk_load : (es : List (ℕ × V)) → IsOrdered es → ops.entries (ops.bulk_load es) ≡ es
  pub before-entries : (t : ops.Tree) (k : ℕ) → ops.before t k ≡ Entries.floor k (ops.entries t)
  pub entries-erase :
      (t : ops.Tree) (k : ℕ) → ops.entries (ops.erase t k) ≡ Entries.erase k (ops.entries t)
  pub entries-insert :
      (t : ops.Tree) (es : List (ℕ × V))
      → ops.entries (ops.insert t es) ≡ Entries.insert_all es (ops.entries t)
  pub entries-assign :
      (t : ops.Tree) (k : ℕ) (v : V)
      → ops.entries (ops.assign t k v) ≡ Entries.assign k v (ops.entries t)
