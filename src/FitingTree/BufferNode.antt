-- ===== src/FitingTree/BufferNode.antt =====
-- index/FITing-tree/buffer_node.h: `BufferNode`, a leaf whose array stays as it was built, with a
-- buffer for new records.
pub mod Merge
pub mod Point
pub mod Fresh
pub mod Range
pub mod Settle
pub mod Merged
use viper_learned_index.Common.{
  ℕ, zero, suc, ◌+◌, ◌-◌, ◌*◌, Bool, true, false, not, ◌||◌, Option, none, some, List, [], ◌∷◌,
  ◌++◌, ltb, ◌==◌, if◌then◌else◌, get_elem?, set, sub_size, ◌>>=◌,
}
use viper_learned_index.FitingTree.Float.{Float}
use viper_learned_index.FitingTree.Parameters.{epsilon_default, reserve}
use viper_learned_index.FitingTree.Search
use viper_learned_index.FitingTree.Scan.{skip_below, collect_upto}
use viper_learned_index.FitingTree.InplaceNode.{slice}
use viper_learned_index.FitingTree.Buffer
use viper_learned_index.FitingTree.Buffer.{Buffer}

pub record BufferNode (F : Float) : Type 0 where
  pub size : ℕ
  pub slope : F.Double
  pub intercept : F.Double
  pub keys : List ℕ
  pub payloads : List ℕ
  pub buffer : Buffer

-- The test of the loop of `merge_buffer`, which takes from the old array if it holds.
unfoldable pub take_old : List ℕ → List ℕ → ℕ → ℕ → ℕ → ℕ → Option Bool
take_old old_keys buffer_keys size buffered ito itb =
    if itb == buffered
    then some true
    else if ltb ito size
    then (do x ← get_elem? old_keys ito; y ← get_elem? buffer_keys itb; some (ltb x y))
    else some false

-- The loop of `merge_buffer`, on fuel. It writes cell `ito + itb`, the next one of the new arrays.
unfoldable pub merge_loop :
    ℕ → List ℕ → List ℕ → Buffer → ℕ → ℕ → ℕ → List ℕ → List ℕ → Option (List ℕ × List ℕ)
merge_loop zero old_keys old_payloads b size ito itb keys payloads = none
merge_loop (suc fuel) old_keys old_payloads b size ito itb keys payloads =
    let old = (do
      x ← get_elem? old_keys ito
      v ← get_elem? old_payloads ito
      merge_loop fuel old_keys old_payloads b size (ito + 1) itb (keys ++ x ∷ [])
          (payloads ++ v ∷ [])) in
    let buffered = (do
      y ← get_elem? b.keys itb
      w ← get_elem? b.payloads itb
      merge_loop fuel old_keys old_payloads b size ito (itb + 1) (keys ++ y ∷ [])
          (payloads ++ w ∷ [])) in
    let round = (do
      from_old ← take_old old_keys b.keys size b.number ito itb
      if from_old then old else buffered) in
    if ltb ito size || ltb itb b.number then round else some (keys, payloads)

module _ (F : Float) where
  -- The constructor.
  unfoldable pub new : ℕ → ℕ → F.Double → F.Double → List ℕ → List ℕ → ℕ → Option (BufferNode F)
  unfolding slice
  new number first_key slope intercept keys payloads start = do
    own_keys ← slice keys start number
    own_payloads ← slice payloads start number
    some (record {
      size = number;
      slope = slope;
      intercept = F.fsub (F.fsub intercept (F.of_size start)) (F.fmul (F.of_size first_key) slope);
      keys = own_keys;
      payloads = own_payloads;
      buffer = Buffer.empty;
    })

  abbrev pub predict_pos : BufferNode F → ℕ → Option ℕ
  predict_pos n key = Search.predict_pos F n.slope n.intercept n.size key

  abbrev pub init_step_len : BufferNode F → ℕ → Bool → ℕ
  init_step_len n = Search.init_step_len n.size epsilon_default

  abbrev pub find_precise_position : BufferNode F → ℕ → Option ℕ
  find_precise_position n key =
      Search.find_precise_position n.keys n.size epsilon_default key (predict_pos n key)

  unfoldable pub merge_buffer : BufferNode F → Option (BufferNode F)
  unfolding merge_loop
  merge_buffer n = do
    (keys, payloads) ←
        merge_loop (n.size + n.buffer.number + 1) n.keys n.payloads n.buffer n.size 0 0 [] []
    some (record n {
      size = n.size + n.buffer.number;
      keys = keys;
      payloads = payloads;
      buffer = Buffer.init n.buffer;
    })

  unfoldable pub find : BufferNode F → ℕ → Option ℕ
  find n key = do
    position ← find_precise_position n key
    current ← get_elem? n.keys position
    if current == key then get_elem? n.payloads position else Buffer.find n.buffer key

  -- The answers so far and the new ones, and whether the scan reached the end of the array.
  unfoldable pub range_query :
      BufferNode F → Bool → ℕ → ℕ → List (ℕ × ℕ) → Option (List (ℕ × ℕ) × Bool)
  unfolding skip_below collect_upto
  range_query n type lower upper answers = do
    buffered ← Buffer.range_query n.buffer lower upper answers
    it ←
        (if type then some 0 else do
          position ← find_precise_position n lower
          skip_below (n.size + 1) n.keys n.size lower position)
    (found, it') ← collect_upto (n.size + 1) n.keys n.payloads n.size upper it buffered
    some (found, not (ltb it' n.size))

  -- Returns the node and the number of records in its buffer.
  unfoldable pub upsert : BufferNode F → ℕ → ℕ → Option (BufferNode F × ℕ)
  upsert n key payload = do
    position ← find_precise_position n key
    current ← get_elem? n.keys position
    if current == key
        then some (record n { payloads = set n.payloads position payload }, n.buffer.number)
        else do
          (buffer, number) ← Buffer.upsert n.buffer key payload
          some (record n { buffer = buffer }, number)

  -- `header` is `sizeof(*this)`, the buffer's cells included; `cell` is `sizeof(K) + sizeof(P)`.
  unfoldable pub node_size : ℕ → ℕ → BufferNode F → ℕ × ℕ × ℕ → ℕ × ℕ × ℕ
  node_size header cell n (model, slot, payload) = (
    model + sub_size header (reserve * cell),
    slot + (n.size + reserve) * cell,
    payload + (n.size + n.buffer.number) * cell,
  )
