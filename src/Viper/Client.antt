-- ===== src/Viper/Client.antt =====
-- The operations of `Client`: put, get, update and remove, include/viper/viper.hpp. The overloads
-- with a key check or a thread number differ in the call of the index only. `none` is undefined
-- behaviour, an exception of the index, or a wait that does not end; persisting changes no value.
pub mod Free
pub mod Write
pub mod Written
pub mod Sync
pub mod Old
pub mod PutAt
pub mod Put
pub mod Get
pub mod Remove
pub mod Updated
pub mod Update
pub mod Deadlock
use Prim.Native.Nat.{bit_and}
use viper_learned_index.Common.{
  ℕ, zero, suc, ◌+◌, ◌-◌, ◌%◌, Bool, true, false, not, ◌&&◌, ◌||◌, Option, none, some, List, [],
  ◌∷◌, ◌++◌, ltb, leb, ◌==◌, if◌then◌else◌, ◌>>=◌,
}
use viper_learned_index.FitingTree.Parameters.{none_offset}
use viper_learned_index.Viper.Lock
use viper_learned_index.Viper.Page
use viper_learned_index.Viper.Page.{Page, find_first}
use viper_learned_index.Viper.Offset.{pack, block_number, page_number, data_offset, is_tombstone}
use viper_learned_index.Viper.Interface.{Env}
use viper_learned_index.Viper.State.{
  Viper, Client, increment, decrement, set_page, lock_page, unlock_page, invalidate_record,
  write_record, record_at, in_bounds,
}
use viper_learned_index.Viper.Access.{info_sync, update_access_information}

-- `deadlock_offsets.erase` of the first equal offset.
unfoldable pub erase : ℕ → List ℕ → List ℕ
erase offset [] = []
erase offset (o ∷ os) = let rest = erase offset os in if o == offset then os else o ∷ rest

unfoldable pub contains : ℕ → List ℕ → Bool
contains offset [] = false
contains offset (o ∷ os) = o == offset || contains offset os

unfoldable pub on_page : Client → ℕ → Bool
on_page c offset = block_number offset == c.v_block_number && page_number offset == c.v_page_number

-- How a round ends: with the lock, with the own offset in the list, or without it, since another
-- client has freed the record.
pub data Round : Type 0 where
  has_lock : Round
  waits : Round
  served : Round

module _ {I K V : Type 0} where
  -- The loop over the waiting offsets: those of the client's own page are freed, and the others
  -- are left.
  unfoldable pub clear_offsets : Viper I K V → Client → List ℕ → Viper I K V × List ℕ
  unfolding on_page
  clear_offsets s c [] = (s, [])
  clear_offsets s c (o ∷ os) =
      if on_page c o
      then clear_offsets (invalidate_record s c.v_block_number c.v_page_number (data_offset o)) c os
      else (let r = clear_offsets s c os in (r.0, o ∷ r.1))

  -- One pass of the deadlock check: the state, and whether the client's own offset was found.
  unfoldable pub deadlock_pass : Viper I K V → Client → ℕ → Bool → Viper I K V × Bool
  unfolding clear_offsets contains
  deadlock_pass s c offset inserted =
      let offsets = if inserted then s.deadlock_offsets else s.deadlock_offsets ++ (offset ∷ []) in
      let r = clear_offsets s c offsets in
      (record r.0 { deadlock_offsets = r.1 }, contains offset offsets)

  -- One round of the loop that takes the lock of the old record's page.
  unfoldable pub acquire_round : Viper I K V → Client → ℕ → Bool → Viper I K V × Round
  unfolding deadlock_pass
  acquire_round s c offset inserted =
      elim (lock_page s (block_number offset) (page_number offset)) [
        | some s' ↦ (
          invalidate_record s' (block_number offset) (page_number offset) (data_offset offset),
          has_lock,
        )
        | none ↦ let r = deadlock_pass s c offset inserted in (r.0, if r.1 then waits else served)
      ]

  -- The loop, on fuel. With the result: whether the lock is held, and whether the offset still waits
  -- in the list.
  unfoldable pub acquire : ℕ → Viper I K V → Client → ℕ → Bool → Option (Viper I K V × Bool × Bool)
  unfolding acquire_round
  acquire zero s c offset inserted = none
  acquire (suc fuel) s c offset inserted =
      let r = acquire_round s c offset inserted in
      elim r.1 [
        | has_lock ↦ some (r.0, true, inserted)
        | waits ↦ acquire fuel r.0 c offset true
        | served ↦ some (r.0, false, true)
      ]

module _ {I K V : Type 0} (E : Env I K V) where
  -- `map_->Insert(key, IndexV::NONE(), …)`, where the key is to be deleted.
  unfoldable pub delete_key : Viper I K V → K → Bool → Option (Viper I K V)
  delete_key s key delete_offset =
      if delete_offset
      then (do
        r ← E.index.insert s.map_ (E.get_key key) none_offset
        some (record s { map_ = r.0 }))
      else some s

  -- Behind the deadlock loop: the index, the list, the lock.
  unfoldable pub finish_free : Viper I K V → ℕ → K → Bool → Bool × Bool → Option (Viper I K V)
  unfolding delete_key erase
  finish_free s offset key delete_offset held = do
    s' ← delete_key s key delete_offset
    let s'' =
          if held.1
          then record s' { deadlock_offsets = erase offset s'.deadlock_offsets }
          else s' in
        some (if held.0 then unlock_page s'' (block_number offset) (page_number offset) else s')

  unfoldable pub free_occupied_slot :
      ℕ → Viper I K V → Client → ℕ → K → Bool → Option (Viper I K V × Client)
  unfolding on_page acquire finish_free
  free_occupied_slot fuel s c offset key delete_offset =
      if not (in_bounds E s offset)
      then none
      else if on_page c offset
      then (do
        s' ←
            delete_key (invalidate_record s c.v_block_number c.v_page_number (data_offset offset))
              key delete_offset
        some (s', record c { size_delta = decrement c.size_delta }))
      else (do
        r ← acquire fuel s c offset false
        s' ← finish_free r.0 offset key delete_offset (r.1, r.2)
        some (s', record c { size_delta = decrement c.size_delta }))

  -- `put` from the free slot on.
  unfoldable pub put_at :
      ℕ → Viper I K V → Client → K → V → Bool → ℕ → Option (Viper I K V × Client × Bool)
  unfolding free_occupied_slot is_tombstone
  put_at fuel s c key value delete_old slot = do
    let s1 = write_record s c.v_block_number c.v_page_number slot key value
    r ← E.index.insert s1.map_ (E.get_key key) (pack c.v_block_number c.v_page_number slot)
    let is_new_item = is_tombstone r.1
    let s2 = record s1 { map_ = r.0 }
    q ←
        (if not is_new_item && delete_old
          then free_occupied_slot fuel s2 c r.1 key false
          else some (s2, c))
    let s3 = unlock_page q.0 c.v_block_number c.v_page_number
    let z = info_sync E s3 (record q.1 { size_delta = increment q.1.size_delta }) false
    some (z.0, z.1, is_new_item)

  -- The tail call on a full page goes on with the next page, on fuel.
  unfoldable pub put_on :
      ℕ → Viper I K V → Client → K → V → Bool → Option (Viper I K V × Client × Bool)
  unfolding put_at
  put_on zero s c key value delete_old = none
  put_on (suc fuel) s c key value delete_old = do
    s1 ← lock_page s c.v_block_number c.v_page_number
    let page = s1.v_blocks c.v_block_number c.v_page_number
    let slot = find_first page.free_slots E.num_slots_per_page 0
    let full = leb E.num_slots_per_page slot
    if full
        then (do
          r ← update_access_information E (unlock_page s1 c.v_block_number c.v_page_number) c
          put_on fuel r.0 r.1 key value delete_old)
        else put_at (suc fuel) s1 c key value delete_old slot

  -- `put(key, value)`; two rounds are enough, since the page that follows a full one is empty.
  unfoldable pub put : Viper I K V → Client → K → V → Option (Viper I K V × Client × Bool)
  unfolding put_on
  put s c key value = put_on 2 s c key value true

  -- `none`: the page is locked.
  unfoldable pub get_value_from_offset : Viper I K V → ℕ → Option V
  get_value_from_offset s offset =
      let page = s.v_blocks (block_number offset) (page_number offset) in
      if Lock.is_locked page.version_lock then none else some (record_at s offset).1

  -- The loop of `get` repeats a read of a locked page; alone, it sees the same lock for ever.
  unfoldable pub get : Viper I K V → K → Option (Option V)
  unfolding get_value_from_offset is_tombstone
  get s key = do
    offset ← E.index.get s.map_ (E.get_key key)
    if is_tombstone offset
        then some none
        else if in_bounds E s offset
        then (do value ← get_value_from_offset s offset; some (some value))
        else none

  -- `update_fn` is a function on the value. The result says whether the key was found.
  unfoldable pub update : Viper I K V → K → (V → V) → Option (Viper I K V × Bool)
  unfolding is_tombstone
  update s key update_fn = do
    offset ← E.index.get s.map_ (E.get_key key)
    if is_tombstone offset
        then some (s, false)
        else if in_bounds E s offset
        then (do
          let b = block_number offset
          let p = page_number offset
          s1 ← lock_page s b p
          let e = record_at s1 offset
          let s2 =
              set_page s1 b p
                (Page.set_record (s1.v_blocks b p) (data_offset offset) (e.0, update_fn e.1))
          some (unlock_page s2 b p, true))
        else none

  unfoldable pub remove : Viper I K V → Client → K → Option (Viper I K V × Client × Bool)
  unfolding free_occupied_slot is_tombstone
  remove s c key = do
    offset ← E.index.get s.map_ (E.get_key key)
    if is_tombstone offset then some (s, c, false) else (do
      r ← free_occupied_slot 1 s c offset key true
      some (r.0, record r.1 { num_reclaimable_ops = increment r.1.num_reclaimable_ops }, true))
