-- ===== src/Lib.antt =====
-- A model of Viper, a key-value store in persistent memory, and of two of its learned indexes.
--
-- The store (include/viper/viper.hpp) keeps records in the slots of pages, pages in blocks, and in
-- a volatile index, which is exchangeable (index/common_index.hpp, BaseIndex), the offset of each
-- key's record. A client owns a block and writes to one page of it; it shares the store's blocks,
-- index and counters with the other clients, and locks the page it writes to. After a restart the
-- index is rebuilt from the pages.
--
-- The two indexes modelled are the FITing-tree and RadixSpline. The FITing-tree
-- (index/FITing-tree) is an index of leaves that are sorted arrays. A leaf predicts a position by
-- a linear model and searches exponentially from there. The leaves hang in a B+ tree by their
-- first keys; keys below min_key and above max_key wait in two buffers.
--
-- Files, under FitingTree:
--   Parameters, Float     parameters.h; `double` as a parameter, and its values (Rounding)
--   Search                predict_pos, init_step_len and find_precise_position of both kinds of node
--   Scan                  the loops of range_query
--   InplaceNode           inplace_node.h: a leaf that inserts into its own array
--   Buffer                the struct Buffer of buffer_node.h, inplace_index.h and buffer_index.h
--   BufferNode            buffer_node.h: a leaf with a fixed array and a buffer, and merge_buffer
--   Segment               the struct Segment, what make_segmentation promises, and how the
--                         constructor of a node moves a model (Rebase)
--   Tree, Entries         what the indexes use of stx::btree
--   Node                  the operations and laws that an index asks of its leaves
--   Index                 the text that inplace_index.h and buffer_index.h share, over Node and Tree
--   InplaceIndex          inplace_index.h: Index over InplaceNode
--   BufferIndex           buffer_index.h: Index over BufferNode
--   Tests                 the theorems at concrete inputs
-- Files, under RadixSpline (index/rs), a read-only index: a spline through the positions of sorted
-- keys, and a radix table that leads to the segment of a key:
--   Sorted                std::lower_bound on a sorted range
--   Spline                radix_spline.h: the estimate and the search bound
--   MultiMap              multi_map.h: lower_bound and find
--   Builder               builder.h: the corridor, the radix table
--   Tests                 the theorems at concrete inputs
--
-- Files, under Viper, the store for records of fixed size:
--   Offset                KeyValueOffset of common_index.hpp: fields packed in 64 bits
--   Lock, Page            version_lock and its bits; ViperPage, ViperPageBlock
--   Slots                 get_num_slots_per_page: the layout of a page
--   Interface             BaseIndex as operations and laws (IndexOps, IndexLaws); the
--                         configuration (Env)
--   State                 the records of Viper and Client, and their small steps
--   Access                blocks and pages for a client: get_client, resize, the move to the next
--                         page, info_sync, remove_client
--   Client                put, get, update, remove, free_occupied_slot
--   Valid                 the invariants of the store
--   System                runs of calls by several clients, and the map they refine (System/Spec)
--   Recovery              recover_database
--   Reclaim               compact and reclaim
--   Seqlock               get_value_from_offset beside the steps of other threads on the page
--   Tests                 the theorems at concrete inputs
--
-- The modules below a component hold its proofs, named for what they prove.
--
-- State is passed explicitly: an operation takes a record and returns Option of a record and its
-- result. `none` is undefined behaviour: a read of a cell that was not written, a write past the
-- end of an array, or a conversion to `int` out of range. An array is the list of the cells
-- written so far. A map is read through `lookup`, `view` or `answer`.
--
-- Numbers: keys, payloads and sizes are natural numbers. Keys and payloads are only compared and
-- copied. In the FITing-tree, sums of sizes stay far below 2^64 and are not wrapped. A subtraction
-- that can start below is sub_size, which wraps, and the spline's sums and its 32-bit counters are
-- written with their wrap-around. The payload none_offset is KeyValueOffset::NONE().
--
-- Parameters: Float (`double`, with IsMonotone: rounding keeps order; IsRounded: a result of a size
-- within `range` is off by at most `error`), Segmentation (make_segmentation of the PGM index: the
-- segments cover the array, and each model, taken from the first key of its segment on and without
-- rounding, misses no position by more than EPSILON). That the model a node's constructor computes
-- from it, moved to the node and rounded, still fits is proved (Segment/Rebase) where IsPrecise
-- holds: `double` holds the keys exactly, and key times slope, the intercept and the positions are
-- within an eighth of `range`. build has that condition for its keys, and upsert for arrays of keys
-- that the index holds. TreeOps and TreeLaws (stx::btree: the effect on the entries in order). Real
-- (`double` as the spline uses it). Predicted is the condition that the value of a leaf's model at
-- a key fits in `int`. The store takes its index as IndexOps, with the laws of a finite map
-- (IndexLaws), and as Env the sizes of blocks and pages, the thresholds of its configuration and
-- the random block that a client prefers. A call of a client runs to its end before the next one;
-- the locks that other clients hold are part of the state.
--
-- Fuel: search gets its first step length and one more, since each round makes the step smaller;
-- skip_below, collect_upto and linear_search get one round for each cell and one more, merge_loop
-- one for each record and one more, bit_length 64 rounds for a 64-bit number. put gets two rounds,
-- since a page that the client has just moved to has a free slot; grow_page gets 8, the page sizes
-- that it can try; acquire gets as many rounds as its caller gives it, and waits for no page that
-- the client holds itself; two clients that wait for each other leave the loop (Client/Deadlock).
-- The theorems that a run returns show that this is enough.
--
-- Not modelled: the lines that print; the timers; the release of memory; of the store, the making
-- of the pool, bulkload_index, ReadOnlyClient, the calls with a thread id, the records of variable
-- size (commented out in the source), the thread that trigger_reclaim starts (the flag is set; reclaim
-- is a call of its own), and the interleaving of single steps of two clients but for the read of a
-- value and the rounds of the deadlock check; the serializer and the constructor of the multimap
-- of RadixSpline; CCEH and the other indexes, which come from other projects.
pub mod Common
pub mod FitingTree
pub mod RadixSpline
pub mod Viper
