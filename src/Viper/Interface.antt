-- ===== src/Viper/Interface.antt =====
-- What the store takes as given: the index behind `map_`, the constants of a `Viper<K, V>`, and the
-- results of library calls. The index is a `BaseIndex<uint64_t>` of index/common_index.hpp.
use viper_learned_index.Common.{ℕ, ◌≡◌, ◌≢◌, ◌⊎◌, Bool, Option, some, Returns}
use viper_learned_index.FitingTree.Parameters.{none_offset}

-- `Insert` and `Get`; `none` is an exception or undefined behaviour of the index.
pub record IndexOps (I : Type 0) : Type 0 where
  pub insert : I → ℕ → ℕ → Option (I × ℕ)
  pub get : I → ℕ → Option ℕ

-- The contract of an index, on the states that `IsValid` describes. The old offset may be kept
-- secret, as most of the wrappers do.
pub record IndexLaws {I : Type 0} (ops : IndexOps I) : Type 1 where
  pub IsValid : I → Type 0
  pub get_total : (m : I) (n : ℕ) → IsValid m → (o : ℕ) × (ops.get m n ≡ some o)
  pub insert_total :
      (m : I) (n o : ℕ)
      → IsValid m
      → Returns (ops.insert m n o) λ r.
        IsValid r.0
        × ((r.1 ≡ none_offset) ⊎ (ops.get m n ≡ some r.1))
        × (ops.get r.0 n ≡ some o)
        × ((q : ℕ) → q ≢ n → ops.get r.0 q ≡ ops.get m q)

-- The index tells the old offset.
abbrev pub IsTelling : {I : Type 0} → IndexOps I → Type 0
IsTelling {I} ops =
    (m : I) (n o : ℕ) (m' : I) (old : ℕ)
    → ops.insert m n o ≡ some (m', old)
    → ops.get m n ≡ some old

pub record Env (I : Type 0) (K : Type 0) (V : Type 0) : Type 0 where
  pub index : IndexOps I
  -- The 64-bit key of a record's key.
  pub get_key : K → ℕ
  pub num_pages_per_block : ℕ
  pub num_slots_per_page : ℕ
  -- `sizeof(VPageBlock)`, and the chunk that the pool grows by.
  pub block_size : ℕ
  pub alloc_size : ℕ
  -- `block_number > resize_threshold_ * v_blocks_.size()`, on doubles.
  pub past_resize_threshold : ℕ → ℕ → Bool
  -- `reclaim_free_percentage * num_slots_per_block`, converted to `size_t`.
  pub free_threshold : ℕ
  pub enable_reclamation : Bool
  pub reclaim_threshold : ℕ
  -- `rand()`, on the state of its generator.
  pub rand : ℕ → ℕ × ℕ
