-- ===== src/FitingTree/InplaceNode.antt =====
-- index/FITing-tree/inplace_node.h: `InPlaceNode`, a leaf that inserts into its own array.
pub mod Model
pub mod Point
pub mod Fresh
pub mod Range
use viper_learned_index.Common.{
  ℕ, ◌+◌, ◌*◌, Bool, true, false, ◌==◌, Option, none, some, List, ltb, leb, not, if◌then◌else◌,
  length, get_elem?, set, take, drop, insert_at, ◌>>=◌,
}
use viper_learned_index.FitingTree.Float.{Float}
use viper_learned_index.FitingTree.Parameters.{epsilon_default, reserve, none_offset}
use viper_learned_index.FitingTree.Search
use viper_learned_index.FitingTree.Search.{predict_int}
use viper_learned_index.FitingTree.Scan.{skip_below, collect_upto}

-- The arrays hold the cells written so far: `number` of the `size` that are allocated.
pub record InplaceNode (F : Float) : Type 0 where
  pub size : ℕ
  pub epsilon : ℕ
  pub number : ℕ
  pub slope : F.Double
  pub intercept : F.Double
  pub keys : List ℕ
  pub payloads : List ℕ

-- `memcpy` of `number` cells from `start` on.
unfoldable pub slice : List ℕ → ℕ → ℕ → Option (List ℕ)
slice cells start number =
    if leb (start + number) (length cells) then some (take number (drop start cells)) else none

module _ (F : Float) where
  -- The constructor.
  unfoldable pub new : ℕ → ℕ → F.Double → F.Double → List ℕ → List ℕ → ℕ → Option (InplaceNode F)
  unfolding slice
  new number first_key slope intercept keys payloads start = do
    own_keys ← slice keys start number
    own_payloads ← slice payloads start number
    some (record {
      size = number + reserve;
      epsilon = epsilon_default;
      number = number;
      slope = slope;
      intercept = F.fsub (F.fsub intercept (F.of_size start)) (F.fmul (F.of_size first_key) slope);
      keys = own_keys;
      payloads = own_payloads;
    })

  abbrev pub predict_pos : InplaceNode F → ℕ → Option ℕ
  predict_pos n key = Search.predict_pos F n.slope n.intercept n.number key

  abbrev pub find_precise_position : InplaceNode F → ℕ → Option ℕ
  find_precise_position n key =
      Search.find_precise_position n.keys n.number n.epsilon key (predict_pos n key)

  unfoldable pub find : InplaceNode F → ℕ → Option ℕ
  find n key = do
    position ← find_precise_position n key
    current ← get_elem? n.keys position
    if current == key then get_elem? n.payloads position else some none_offset

  -- The answers so far and the new ones, and whether the scan reached the end of the node.
  unfoldable pub range_query :
      InplaceNode F → Bool → ℕ → ℕ → List (ℕ × ℕ) → Option (List (ℕ × ℕ) × Bool)
  unfolding skip_below collect_upto
  range_query n type lower upper answers = do
    it ←
        (if type then some 0 else do
          position ← find_precise_position n lower
          skip_below (n.number + 1) n.keys n.number lower position)
    (found, it') ← collect_upto (n.number + 1) n.keys n.payloads n.number upper it answers
    some (found, not (ltb it' n.number))

  -- The insertion of `upsert`; the `memmove` of a full node would write past its arrays.
  unfoldable pub insert_record : InplaceNode F → ℕ → ℕ → ℕ → Option (InplaceNode F × ℕ)
  insert_record n position key payload =
      if ltb n.number n.size
      then some (
        record n {
          number = n.number + 1;
          epsilon = n.epsilon + 1;
          keys = insert_at position key n.keys;
          payloads = insert_at position payload n.payloads;
        },
        n.epsilon + 1,
      )
      else none

  -- Returns the node and the error bound `epsilon`.
  unfoldable pub upsert : InplaceNode F → ℕ → ℕ → Option (InplaceNode F × ℕ)
  unfolding insert_record
  upsert n key payload = do
    position ← find_precise_position n key
    current ← get_elem? n.keys position
    if current == key
        then some (record n { payloads = set n.payloads position payload }, n.epsilon)
        else insert_record n (if ltb current key then position + 1 else position) key payload

  -- `header` is `sizeof(*this)`, `cell` is `sizeof(K) + sizeof(P)`.
  unfoldable pub node_size : ℕ → ℕ → InplaceNode F → ℕ × ℕ × ℕ → ℕ × ℕ × ℕ
  node_size header cell n (model, slot, payload) =
      (model + header, slot + n.size * cell, payload + n.number * cell)
