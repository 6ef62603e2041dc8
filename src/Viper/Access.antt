-- ===== src/Viper/Access.antt =====
-- How a client gets the page that it writes to: include/viper/viper.hpp. `assert`s are off, as in a
-- release build. A thread that a call starts stands as pending (`is_resizing`, `is_reclaiming`).
pub mod Steps
pub mod Block
pub mod Fresh
pub mod Next
pub mod Move
use Prim.Native.Nat.{bit_and}
use viper_learned_index.Common.{
  ℕ, suc, ◌+◌, ◌-◌, ◌*◌, ◌/◌, ◌%◌, ◌^◌, Bool, true, false, ◌&&◌, ◌||◌, Option, none, some, List, [],
  ◌∷◌, ltb, leb, ◌==◌, word, if◌then◌else◌, ◌>>=◌,
}
use viper_learned_index.Viper.Lock.{set_client, clear_client}
use viper_learned_index.Viper.Page
use viper_learned_index.Viper.Page.{Page}
use viper_learned_index.Viper.Offset.{pack, block_number, page_number}
use viper_learned_index.Viper.Interface.{Env}
use viper_learned_index.Viper.State.{Viper, Client, PageStrategy, block_based, dimm_based, set_page}

-- The constructor of `Client`, which leaves `strategy_` and `num_reclaimable_ops_` as they are in
-- memory, and `get_client`.
unfoldable pub new_client : PageStrategy → ℕ → Client
new_client strategy num_reclaimable_ops = record {
  strategy = strategy;
  v_block_number = 0;
  v_page_number = 0;
  has_block = false;
  end_v_block_number = 0;
  num_v_pages_processed = 0;
  op_count = 0;
  num_reclaimable_ops = num_reclaimable_ops;
  size_delta = 0;
}

module _ {I K V : Type 0} where
  unfoldable pub trigger_resize : Viper I K V → Viper I K V
  trigger_resize s = record s { is_resizing = true }

  -- The flag and the count alone. The thread that the source starts here, which calls `reclaim` and
  -- then clears the flag, is not run; `reclaim` is a call of its own in this model.
  unfoldable pub trigger_reclaim : Viper I K V → ℕ → Viper I K V
  trigger_reclaim s num_reclaim_ops = if s.is_reclaiming then s else record s {
    is_reclaiming = true;
    reclaimable_ops = (s.reclaimable_ops + word - num_reclaim_ops) % word;
  }

  -- `v_pages[0].version_lock &= NO_CLIENT_BIT`, if the client has a block.
  unfoldable pub release_block : Viper I K V → Client → Viper I K V
  release_block s c =
      let page = s.v_blocks c.v_block_number 0 in
      if c.has_block
      then set_page s c.v_block_number 0
          (record page { version_lock = clear_client page.version_lock })
      else s

  unfoldable pub init_page : Viper I K V → ℕ → ℕ → Viper I K V
  init_page s b p = set_page s b p (Page.init (s.v_blocks b p))

  unfoldable pub own_block : Viper I K V → ℕ → Viper I K V
  own_block s b =
      let page = s.v_blocks b 0 in
      set_page s b 0 (record page { version_lock = set_client page.version_lock })

  unfoldable pub enter_block : Viper I K V → Client → ℕ → ℕ → Viper I K V × Client
  unfolding release_block init_page own_block
  enter_block s c client_block client_page =
      let s' = own_block (init_page (release_block s c) client_block client_page) client_block in
      (
        record s' { num_used_blocks = s'.num_used_blocks + 1 },
        record c {
          strategy = block_based;
          v_block_number = client_block;
          v_page_number = client_page;
          has_block = true;
          num_v_pages_processed = 0;
        },
      )

module _ {I K V : Type 0} (E : Env I K V) where
  -- The blocks of a mapping of `mapped_size` bytes.
  unfoldable pub add_v_page_blocks : Viper I K V → ℕ → Viper I K V
  add_v_page_blocks s mapped_size = record s {
    num_v_blocks = s.num_v_blocks + mapped_size / E.block_size;
  }

  -- The mapped memory and the two counts of the metadata; the size of the mapping is `alloc_size`.
  unfoldable pub allocate_v_page_blocks : Viper I K V → Viper I K V
  allocate_v_page_blocks s = record s {
    num_allocated_blocks = s.num_allocated_blocks + E.alloc_size / E.block_size;
    total_mapped_size = s.total_mapped_size + E.alloc_size;
  }

  -- The body of the thread that `trigger_resize` starts.
  unfoldable pub resize : Viper I K V → Viper I K V
  unfolding add_v_page_blocks allocate_v_page_blocks
  resize s =
      let s' = add_v_page_blocks (allocate_v_page_blocks s) E.alloc_size in
      record s' { is_resizing = false }

  unfoldable pub sync_reclaims : Viper I K V → ℕ → Viper I K V
  unfolding trigger_reclaim
  sync_reclaims s num_reclaimable_ops =
      let num_reclaims = (s.reclaimable_ops + num_reclaimable_ops) % word in
      let s' = record s { reclaimable_ops = num_reclaims } in
      if E.enable_reclamation
      then (if ltb E.reclaim_threshold num_reclaims then trigger_reclaim s' num_reclaims else s')
      else s

  unfoldable pub info_sync : Viper I K V → Client → Bool → Viper I K V × Client
  unfolding sync_reclaims
  info_sync s c force =
      let op_count = (c.op_count + 1) % 2 ^ 16 in
      if force || op_count == 10000
      then (
        sync_reclaims (record s { current_size = (s.current_size + c.size_delta) % word })
            c.num_reclaimable_ops,
        record c { op_count = 0; size_delta = 0; num_reclaimable_ops = 0 },
      )
      else (s, record c { op_count = op_count })

  -- `while (client_block >= num_v_blocks_)`: the wait ends when the thread that resizes is done,
  -- and never if none is on its way.
  unfoldable pub wait_for_block : Viper I K V → ℕ → Option (Viper I K V)
  unfolding resize
  wait_for_block s client_block =
      if ltb client_block s.num_v_blocks
      then some s
      else if s.is_resizing && ltb client_block (resize s).num_v_blocks
      then some (resize s)
      else none

  -- The new state, and the block and the page.
  unfoldable pub get_new_block : Viper I K V → Option (Viper I K V × ℕ × ℕ)
  unfolding wait_for_block
  get_new_block s = do
    let raw = s.current_block_page
    s' ← wait_for_block s (block_number raw)
    let r = E.rand s'.rand_state
    some (
      record s' {
        current_block_page = pack (block_number raw + 1) (r.0 % E.num_pages_per_block) 0;
        rand_state = r.1;
      },
      block_number raw,
      page_number raw,
    )

  unfoldable pub take_block : Viper I K V → Option (Viper I K V × ℕ × ℕ)
  unfolding get_new_block
  take_block s = elim s.free_blocks [
    | [] ↦ get_new_block s
    | b ∷ bs ↦ some (record s { free_blocks = bs }, b, 0)
  ]

  unfoldable pub get_block_based_access : Viper I K V → Client → Option (Viper I K V × Client)
  unfolding take_block enter_block
  get_block_based_access s c = do
    r ← take_block s
    if ltb r.1 r.0.num_v_blocks then some (enter_block r.0 c r.1 r.2) else none

  unfoldable pub get_new_access_information : Viper I K V → Client → Option (Viper I K V × Client)
  unfolding info_sync trigger_resize get_block_based_access
  get_new_access_information s c =
      let r = info_sync s c true in
      let block = block_number r.0.current_block_page in
      get_block_based_access
        (if E.past_resize_threshold block r.0.num_v_blocks then trigger_resize r.0 else r.0) r.1

  -- `update_access_information` without its last statement.
  unfoldable pub next_page : PageStrategy → Viper I K V → Client → Option (Viper I K V × Client)
  unfolding get_new_access_information
  next_page dimm_based s c =
      if c.v_block_number == c.end_v_block_number
      then get_new_access_information s c
      else if ltb (c.v_block_number + 1) s.num_v_blocks
      then some (s, record c { v_block_number = c.v_block_number + 1 })
      else none
  next_page block_based s c =
      let processed = (c.num_v_pages_processed + 1) % 2 ^ 8 in
      let c' = record c { num_v_pages_processed = processed } in
      if processed == E.num_pages_per_block
      then get_new_access_information s c'
      else some (s, record c' { v_page_number = (c.v_page_number + 1) % E.num_pages_per_block })

  unfoldable pub update_access_information : Viper I K V → Client → Option (Viper I K V × Client)
  unfolding next_page init_page
  update_access_information s c = do
    r ← next_page c.strategy s c
    some (init_page r.0 r.1.v_block_number r.1.v_page_number, r.1)

  unfoldable pub get_client : Viper I K V → PageStrategy → ℕ → Option (Viper I K V × Client)
  unfolding new_client get_new_access_information
  get_client s strategy num_reclaimable_ops =
      get_new_access_information
        (record s { num_active_clients = (s.num_active_clients + 1) % 2 ^ 8 })
        (new_client strategy num_reclaimable_ops)

  -- `remove_client` and the destructor of `Client`.
  unfoldable pub remove_client : Viper I K V → Client → Viper I K V
  unfolding info_sync release_block
  remove_client s c =
      let r = info_sync s c true in
      release_block (record r.0 { num_active_clients = (r.0.num_active_clients + 255) % 2 ^ 8 }) r.1
