-- ===== src/FitingTree/Scan.antt =====
-- The two loops of a node's `range_query`: index/FITing-tree/inplace_node.h and buffer_node.h.
pub mod Count
pub mod Range
use viper_learned_index.Common.{
  ℕ, zero, suc, ◌+◌, Option, none, some, List, [], ◌∷◌, ◌++◌, ltb, if◌then◌else◌, get_elem?, ◌>>=◌,
}

-- `while (it < number && less_than(get_key(it), lower_bound)) ++it;` The fuel bounds the rounds.
unfoldable pub skip_below : ℕ → List ℕ → ℕ → ℕ → ℕ → Option ℕ
skip_below zero keys number lower it = none
skip_below (suc fuel) keys number lower it =
    let step = (do
      key ← get_elem? keys it
      let rest = skip_below fuel keys number lower (it + 1) in
          if ltb key lower then rest else some it) in
    if ltb it number then step else some it

-- `while (it < number && !greater_than(get_key(it), upper_bound)) { emplace_back; ++it; }`: the
-- answers and the last value of `it`.
unfoldable pub collect_upto :
    ℕ → List ℕ → List ℕ → ℕ → ℕ → ℕ → List (ℕ × ℕ) → Option (List (ℕ × ℕ) × ℕ)
collect_upto zero keys payloads number upper it answers = none
collect_upto (suc fuel) keys payloads number upper it answers =
    let step = (do
      key ← get_elem? keys it
      payload ← get_elem? payloads it
      let rest =
            collect_upto fuel keys payloads number upper (it + 1)
              (answers ++ (key, payload) ∷ []) in
          if ltb upper key then some (answers, it) else rest) in
    if ltb it number then step else some (answers, it)
