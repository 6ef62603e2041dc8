-- ===== src/FitingTree/Search.antt =====
-- The search that both kinds of node share: from a predicted position, with shrinking steps.
-- index/FITing-tree/inplace_node.h; buffer_node.h has the same text, with `size` for `number` and
-- `EPSILON` for `epsilon`.
pub mod Landing
pub mod Position
pub mod Prediction
pub mod Model
pub mod Start
use viper_learned_index.Common.{
  ℕ, zero, suc, ◌+◌, ◌-◌, ◌/◌, Bool, true, false, not, ◌&&◌, Option, none, some, List, ltb, leb,
  ◌==◌, if◌then◌else◌, sub_size, get_elem?, ◌>>=◌,
}
use viper_learned_index.Common.Int.{ℤ, pos, negsuc}
use viper_learned_index.FitingTree.Float.{Float}

-- `static_cast<int>(key * slope + intercept + 0.5)`
unfoldable pub predict_int : (F : Float) → F.Double → F.Double → ℕ → Option ℤ
predict_int F slope intercept key =
    F.to_int (F.fadd (F.fadd (F.fmul (F.of_size key) slope) intercept) F.half)

-- The clamp of `predict_pos`.
unfoldable pub clamp : ℕ → ℤ → ℕ
clamp number (pos p) = if leb number p then sub_size number 1 else p
clamp number (negsuc p) = 0

unfoldable pub predict_pos : (F : Float) → F.Double → F.Double → ℕ → ℕ → Option ℕ
unfolding predict_int clamp
predict_pos F slope intercept number key = do
  p ← predict_int F slope intercept key
  some (clamp number p)

-- Direction: `false` means left and `true` means right.
unfoldable pub init_step_len : ℕ → ℕ → ℕ → Bool → ℕ
init_step_len number epsilon position direction =
    let range = if not direction && ltb position epsilon then position else epsilon in
    let range' =
      if direction && leb number (position + epsilon)
      then sub_size (sub_size number position) 1
      else range in
    (range' + 2) / 2

unfoldable pub next_step : ℕ → ℕ
next_step step = if ltb 1 step then (step + 1) / 2 else 0

-- The two branches of the loop's body: the clamped step, and the new position.
unfoldable pub clamp_step : ℕ → ℕ → ℕ → ℕ → ℕ → ℕ
clamp_step number key current position step =
    if ltb key current
    then (if ltb position step then position else step)
    else if leb number (position + step)
    then sub_size (sub_size number position) 1
    else step

unfoldable pub move : ℕ → ℕ → ℕ → ℕ → ℕ
move key current position step = if ltb key current then position - step else position + step

-- The `while` loop of `find_precise_position`, on fuel: `none` if it runs out.
unfoldable pub search : ℕ → List ℕ → ℕ → ℕ → ℕ → ℕ → ℕ → Option ℕ
unfolding next_step clamp_step move
search zero keys number key position current step = none
search (suc fuel) keys number key position current step =
    let step' = clamp_step number key current position step in
    let position' = move key current position step' in
    let rest = (do
      current' ← get_elem? keys position'
      search fuel keys number key position' current' (next_step step')) in
    if not (current == key) && ltb 0 step then rest else some position

unfoldable pub find_precise_position : List ℕ → ℕ → ℕ → ℕ → Option ℕ → Option ℕ
unfolding init_step_len search
find_precise_position keys number epsilon key predicted = do
  position ← predicted
  current ← get_elem? keys position
  let step = init_step_len number epsilon position (not (ltb key current))
  search (suc step) keys number key position current step
