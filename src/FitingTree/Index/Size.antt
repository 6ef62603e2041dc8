-- ===== src/FitingTree/Index/Size.antt =====
-- The sizes of an index: the data never exceed the slots.
use native.Mathlib.Nat.{mul-le-mul_right}
use viper_learned_index.Common.{ℕ, ◌≤◌, List, [], ◌∷◌, arith}
use viper_learned_index.FitingTree.Float.{Float, IsMonotone}
use viper_learned_index.FitingTree.Segment.{Segment}
use viper_learned_index.FitingTree.Node.{NodeOps, NodeLaws}
use viper_learned_index.FitingTree.Tree.{TreeOps}
use viper_learned_index.FitingTree.Index.{Index, node_sizes, sizes}
use viper_learned_index.FitingTree.Index.Tidy.{IsGood, Tidy}
use viper_learned_index.FitingTree.Index.View.{IsValid}

-- The data fit in the slots.
abbrev pub Fits : ℕ × ℕ × ℕ → Type 0
Fits (model, slot, payload) = payload ≤ slot

module _ (F : Float) (m : IsMonotone F) (ops : NodeOps F) (laws : NodeLaws F m ops)
    (trees : TreeOps ops.Node) (run : ℕ → List ℕ → List (Segment F))
    (node_size : ops.Node → ℕ × ℕ × ℕ → ℕ × ℕ × ℕ)
    (node_fits : (f : ℕ) (n : ops.Node) (s : ℕ × ℕ × ℕ)
      → IsGood F m ops laws f n
      → Fits s
      → Fits (node_size n s))
    (header inner cell : ℕ) where
  node_sizes-Fits :
      (es : List (ℕ × ops.Node)) (s : ℕ × ℕ × ℕ)
      → Tidy F m ops laws es
      → Fits s
      → Fits (node_sizes trees node_size es s)
  unfolding node_sizes
  node_sizes-Fits [] s t h = h
  node_sizes-Fits ((f, n) ∷ es) s t h =
      node_sizes-Fits es (node_size n s) t.3 (node_fits f n s t.0 h)

  pub sizes-Fits :
      (index : Index trees)
      → IsValid F m ops laws trees run index
      → Fits (sizes trees node_size header inner cell index)
  unfolding sizes
  sizes-Fits index valid =
      node_sizes-Fits (trees.entries index.btree) _ valid.tidy
        (mul-le-mul_right cell (omega (arith, valid.left_room, valid.right_room)))
