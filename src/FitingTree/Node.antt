-- ===== src/FitingTree/Node.antt =====
-- What an index asks of its leaves: the operations of `NODE`, and the laws that both kinds of node
-- meet.
use viper_learned_index.Common.{
  ℕ, ◌≤◌, ◌<◌, ◌≡◌, Bool, true, false, Option, none, some, [], ◌++◌, ◌⊎◌, List, length, ◌!◌, take,
  drop, ◌==◌, if◌then◌else◌, Returns,
}
use viper_learned_index.FitingTree.Float.{Float, IsMonotone}
use viper_learned_index.FitingTree.Parameters.{payload_or_none}
use viper_learned_index.FitingTree.Records.{IsSorted, lookup}
use viper_learned_index.FitingTree.Scan.Count.{times, copies}
use viper_learned_index.FitingTree.Scan.Range.{in_bounds, answer}
use viper_learned_index.FitingTree.Segment.{Segment, Covers}

pub record NodeOps (F : Float) : Type 1 where
  pub Node : Type 0
  -- `new NODE(number, first_key, slope, intercept, keys, payloads, start_pos)`
  pub make : Segment F → List ℕ → List ℕ → ℕ → Option Node
  pub find : Node → ℕ → Option ℕ
  pub upsert : Node → ℕ → ℕ → Option (Node × ℕ)
  pub range_query : Node → Bool → ℕ → ℕ → List (ℕ × ℕ) → Option (List (ℕ × ℕ) × Bool)
  -- the result of `upsert` from which on the leaf is split
  pub split_bound : ℕ
  -- what the split does first: `merge_buffer`, or nothing
  pub settle : Node → Option Node
  pub get_number : Node → ℕ
  pub get_keys : Node → List ℕ
  pub get_payloads : Node → List ℕ

module _ (F : Float) (m : IsMonotone F) (ops : NodeOps F) where
  open ops use {
    Node, make, find, upsert, split_bound, range_query, settle, get_number, get_keys, get_payloads,
  }

  pub record NodeLaws : Type 1 where
    pub IsValid : Node → Type 0
    -- the conversion of the model's value for this key to `int` is defined
    pub Predicts : Node → ℕ → Type 0
    pub view : Node → ℕ → Option ℕ
    pub first : Node → ℕ
    pub load : Node → ℕ
    pub make_law :
        (s : Segment F) (keys payloads : List ℕ) (start : ℕ)
        → IsSorted keys
        → length keys ≡ length payloads
        → Covers F m keys start s
        → Returns (make s keys payloads start) λ n.
          IsValid n
          × (load n < split_bound)
          × (first n ≡ keys ! start)
          × ((j : ℕ)
              → view n j
                ≡ lookup j (take s.number (drop start keys)) (take s.number (drop start payloads)))
    pub find_law :
        (n : Node) (key : ℕ)
        → IsValid n
        → Predicts n key
        → find n key ≡ some (payload_or_none (view n key))
    pub upsert_law :
        (n : Node) (key payload : ℕ)
        → IsValid n
        → Predicts n key
        → load n < split_bound
        → first n ≤ key
        → Returns (upsert n key payload) λ r.
          IsValid r.0
          × (r.1 ≡ load r.0)
          × (first r.0 ≡ first n)
          × ((j : ℕ) → Predicts n j → Predicts r.0 j)
          × ((j : ℕ) → view r.0 j ≡ (if key == j then some payload else view n j))
    pub settle_law :
        (n : Node)
        → IsValid n
        → Returns (settle n) λ r.
          (0 < length (get_keys r))
          × IsSorted (get_keys r)
          × (length (get_keys r) ≡ length (get_payloads r))
          × (length (get_keys r) ≡ get_number r)
          × (get_keys r ! 0 ≡ first n)
          × ((j : ℕ) → lookup j (get_keys r) (get_payloads r) ≡ view n j)
    -- the answers of a range query
    pub hits : ℕ → ℕ → Node → List (ℕ × ℕ)
    pub hits_law :
        (lower upper : ℕ) (n : Node) (j : ℕ)
        → IsValid n
        → answer j (hits lower upper n) ≡ (if in_bounds lower upper j then view n j else none)
    pub times_law :
        (lower upper : ℕ) (n : Node) (j : ℕ)
        → IsValid n
        → times j (hits lower upper n) ≡ copies (if in_bounds lower upper j then view n j else none)
    pub hits-eq-nil :
        (lower upper : ℕ) (n : Node)
        → IsValid n
        → ((j v : ℕ) → view n j ≡ some v → in_bounds lower upper j ≡ false)
        → hits lower upper n ≡ []
    pub range_law :
        (n : Node) (type : Bool) (lower upper : ℕ) (answers : List (ℕ × ℕ))
        → IsValid n
        → (type ≡ false → Predicts n lower)
        → (type ≡ true → (j v : ℕ) → view n j ≡ some v → lower ≤ j)
        → Returns (range_query n type lower upper answers) λ r.
          (r.0 ≡ answers ++ hits lower upper n)
          × ((r.1 ≡ true) ⊎ ((j : ℕ) × (v : ℕ) × (view n j ≡ some v) × (upper < j)))
