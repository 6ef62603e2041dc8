-- ===== src/Viper/Valid.antt =====
-- When the state of the store is in order: each entry of the index leads to a used slot that holds
-- its key, no lock is left over, and the blocks that are to come are empty.
pub mod Live
pub mod Locks
pub mod Kept
use viper_learned_index.Common.{
  ℕ, ◌+◌, ◌-◌, ◌/◌, ◌^◌, ◌≤◌, ◌<◌, ◌≡◌, ◌≢◌, ◌⊎◌, Bool, true, false, Option, some, none, ◌==◌, List,
  [], leb, word, if◌then◌else◌,
}
use viper_learned_index.FitingTree.Parameters.{none_offset}
use viper_learned_index.Viper.Lock.Bits.{IsUnlocked, IsTaken}
use viper_learned_index.Viper.Page.{Page}
use viper_learned_index.Viper.Offset.{block_number, page_number, data_offset}
use viper_learned_index.Viper.Interface.{Env, IndexLaws}
use viper_learned_index.Viper.State.{Viper, Client, PageStrategy, block_based, record_at}

-- What the constants of a `Viper<K, V>` fulfil.
pub record Sizes {I K V : Type 0} (E : Env I K V) : Type 0 where
  pub some_page : 0 < E.num_pages_per_block
  pub few_pages : E.num_pages_per_block < 2 ^ 3
  pub few_slots : E.num_slots_per_page < 2 ^ 16 - 1
  pub some_slot : 0 < E.num_slots_per_page
  -- The pool grows by a block at least.
  pub chunk : 0 < E.alloc_size / E.block_size
  -- More than `resize_threshold_` of the blocks are in use when all are.
  pub threshold : (block n : ℕ) → 0 < n → n ≤ block → E.past_resize_threshold block n ≡ true

module _ {I K V : Type 0} (E : Env I K V) where
  -- The offset is that of a used slot whose record has the 64-bit key `n`.
  pub record IsLive (s : Viper I K V) (n o : ℕ) : Type 0 where
    pub packed : o < word
    pub block_lt : block_number o < s.num_v_blocks
    pub page_lt : page_number o < E.num_pages_per_block
    pub slot_lt : data_offset o < E.num_slots_per_page
    pub handed_out : block_number o < block_number s.current_block_page
    pub is_used : (s.v_blocks (block_number o) (page_number o)).free_slots (data_offset o) ≡ false
    pub keyed : E.get_key (record_at s o).0 ≡ n

  -- The index has `o` for the 64-bit key `n`.
  abbrev pub IsAt : Viper I K V → ℕ → ℕ → Type 0
  IsAt s n o = (E.index.get s.map_ n ≡ some o) × (o ≢ none_offset)

  -- What a result of the index stands for.
  abbrev pub read_entry : Viper I K V → Option ℕ → Option V
  read_entry s none = none
  read_entry s (some o) = if o == none_offset then none else some (record_at s o).1

  -- The store as a function from 64-bit keys to values.
  abbrev pub view : Viper I K V → ℕ → Option V
  view s n = read_entry s (E.index.get s.map_ n)

  abbrev pub Entries : Viper I K V → Type 0
  Entries s = (n o : ℕ) → IsAt s n o → IsLive s n o

  -- No entry of the index leads to the page.
  abbrev pub Untouched : Viper I K V → ℕ → ℕ → Type 0
  Untouched s b p = (n o : ℕ) → IsAt s n o → (block_number o ≢ b) ⊎ (page_number o ≢ p)

  -- How many pages after `v`, around the block, the page `p` comes.
  abbrev pub distance : ℕ → ℕ → ℕ
  distance v p = if leb v p then p - v else p + E.num_pages_per_block - v

  -- The client writes to a page of its own block, and its pages to come are empty.
  pub record Owns (s : Viper I K V) (c : Client) : Type 0 where
    pub based : c.strategy ≡ block_based
    pub placed : c.has_block ≡ true
    pub block_lt : c.v_block_number < s.num_v_blocks
    pub handed_out : c.v_block_number < block_number s.current_block_page
    pub page_lt : c.v_page_number < E.num_pages_per_block
    pub processed : c.num_v_pages_processed < E.num_pages_per_block
    pub fresh :
        (p : ℕ)
        → p < E.num_pages_per_block
        → p ≢ c.v_page_number
        → c.num_v_pages_processed + distance c.v_page_number p < E.num_pages_per_block
        → Untouched s c.v_block_number p

module _ {I K V : Type 0} where
  abbrev pub AllUnlocked : Viper I K V → Type 0
  AllUnlocked s = (b p : ℕ) → IsUnlocked (s.v_blocks b p).version_lock

  -- One page is locked.
  abbrev pub AllBut : Viper I K V → ℕ → ℕ → Type 0
  AllBut s b p =
      IsTaken (s.v_blocks b p).version_lock
      × ((b' p' : ℕ) → (b' ≢ b) ⊎ (p' ≢ p) → IsUnlocked (s.v_blocks b' p').version_lock)

module _ {I K V : Type 0} (E : Env I K V) (L : IndexLaws E.index) where
  -- The index and the pages agree.
  pub record IsSound (s : Viper I K V) : Type 0 where
    pub index_valid : L.IsValid s.map_
    pub entries : Entries E s
    pub no_free_blocks : s.free_blocks ≡ []
    pub some_block : 0 < s.num_v_blocks
    pub current_le : block_number s.current_block_page ≤ s.num_v_blocks
    pub current_page : page_number s.current_block_page < E.num_pages_per_block

  pub record IsValid (s : Viper I K V) : Type 0 where
    pub sound : IsSound s
    pub unlocked : AllUnlocked s
