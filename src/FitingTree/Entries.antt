-- ===== src/FitingTree/Entries.antt =====
-- The entries of a B+ tree in order, and what its operations do to them.
pub mod Laws
use viper_learned_index.Common.{
  ℕ, ◌<◌, Option, none, some, List, [], ◌∷◌, ltb, ◌==◌, if◌then◌else◌, or_else,
}

module _ {V : Type 0} where
  -- The last entry with a key at most `k`.
  unfoldable pub floor : ℕ → List (ℕ × V) → Option (ℕ × V)
  floor k [] = none
  floor k ((f, v) ∷ es) = if ltb k f then none else or_else (floor k es) (some (f, v))

  unfoldable pub erase : ℕ → List (ℕ × V) → List (ℕ × V)
  erase k [] = []
  erase k ((f, v) ∷ es) = if f == k then es else (f, v) ∷ erase k es

  -- An equal key that is there stays.
  unfoldable pub insert : ℕ → V → List (ℕ × V) → List (ℕ × V)
  insert k v [] = (k, v) ∷ []
  insert k v ((f, w) ∷ es) =
      if ltb k f
      then (k, v) ∷ (f, w) ∷ es
      else if f == k
      then (f, w) ∷ es
      else (f, w) ∷ insert k v es

  unfoldable pub insert_all : List (ℕ × V) → List (ℕ × V) → List (ℕ × V)
  insert_all [] es = es
  insert_all ((k, v) ∷ new) es = insert_all new (insert k v es)

  unfoldable pub assign : ℕ → V → List (ℕ × V) → List (ℕ × V)
  assign k v [] = []
  assign k v ((f, w) ∷ es) = if f == k then (f, v) ∷ es else (f, w) ∷ assign k v es

  -- Every key is above `k`.
  abbrev pub Above : ℕ → List (ℕ × V) → Type 0
  Above k [] = Unit
  Above k ((f, v) ∷ es) = (k < f) × Above k es

  abbrev pub IsOrdered : List (ℕ × V) → Type 0
  IsOrdered [] = Unit
  IsOrdered ((f, v) ∷ es) = Above f es × IsOrdered es
