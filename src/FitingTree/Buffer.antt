-- ===== src/FitingTree/Buffer.antt =====
-- `InplaceIndex::Buffer` of index/FITing-tree/inplace_index.h: a sorted array of at most `RESERVE`
-- records, searched from the front. `BufferIndex::Buffer` (buffer_index.h) and `BufferNode::Buffer`
-- (buffer_node.h) have the same text.
pub mod Point
pub mod Range
use viper_learned_index.Common.{
  ℕ, zero, suc, ◌+◌, Option, none, some, List, [], ltb, ◌==◌, if◌then◌else◌, get_elem?, set,
  insert_at, ◌>>=◌,
}
use viper_learned_index.FitingTree.Parameters.{reserve, none_offset}
use viper_learned_index.FitingTree.Scan.{skip_below, collect_upto}

pub record Buffer : Type 0 where
  pub number : ℕ
  pub keys : List ℕ
  pub payloads : List ℕ

abbrev pub empty : Buffer
empty = record { number = 0; keys = []; payloads = [] }

-- `init`: the cells stay allocated, and none counts as written.
unfoldable pub init : Buffer → Buffer
init b = empty

-- The `for` loop of `find`, on the rounds that are left.
unfoldable pub find_loop : ℕ → List ℕ → List ℕ → ℕ → ℕ → Option ℕ
find_loop zero keys payloads key i = some none_offset
find_loop (suc rounds) keys payloads key i = do
  current ← get_elem? keys i
  let rest = find_loop rounds keys payloads key (i + 1) in
      if ltb current key
      then rest
      else if current == key
      then get_elem? payloads i
      else some none_offset

unfoldable pub find : Buffer → ℕ → Option ℕ
unfolding find_loop
find b key = find_loop b.number b.keys b.payloads key 0

unfoldable pub range_query : Buffer → ℕ → ℕ → List (ℕ × ℕ) → Option (List (ℕ × ℕ))
unfolding skip_below collect_upto
range_query b lower upper answers = do
  it ← skip_below (b.number + 1) b.keys b.number lower 0
  (found, it') ← collect_upto (b.number + 1) b.keys b.payloads b.number upper it answers
  some found

-- How the `for` loop of `upsert` ends: on the key, before a greater one, or behind all.
pub data Place : Type 0 where
  found : ℕ → Place
  shift : ℕ → Place
  append : Place

unfoldable pub place_loop : ℕ → List ℕ → ℕ → ℕ → Option Place
place_loop zero keys key i = some append
place_loop (suc rounds) keys key i = do
  current ← get_elem? keys i
  let rest = place_loop rounds keys key (i + 1) in
      if ltb current key then rest else if current == key then some (found i) else some (shift i)

-- The `memmove` and the writes at `pos`; a full buffer has no cell for them.
unfoldable pub insert_record : Buffer → ℕ → ℕ → ℕ → Option (Buffer × ℕ)
insert_record b pos key payload =
    if ltb b.number reserve
    then some (
      record {
        number = b.number + 1;
        keys = insert_at pos key b.keys;
        payloads = insert_at pos payload b.payloads;
      },
      b.number + 1,
    )
    else none

unfoldable pub store : Buffer → ℕ → ℕ → Place → Option (Buffer × ℕ)
unfolding insert_record
store b key payload (found i) = some (record b { payloads = set b.payloads i payload }, b.number)
store b key payload (shift i) = insert_record b i key payload
store b key payload append = insert_record b b.number key payload

-- Returns the buffer and its number of records.
unfoldable pub upsert : Buffer → ℕ → ℕ → Option (Buffer × ℕ)
unfolding place_loop store
upsert b key payload = do place ← place_loop b.number b.keys key 0; store b key payload place
