-- ===== src/Viper/Tests.antt =====
-- Concrete stores for include/viper/viper.hpp: two pages in a block, two slots on a page, and an
-- index that is a function.
mod Store
mod Runs
mod Sizes
mod Offsets
mod Restart
mod Threads
mod Stale
use viper_learned_index.Common.{
  ℕ, ◌+◌, ◌≡◌, refl, ◌≢◌, inr, Bool, true, false, Option, some, List, [], ◌∷◌, arith, ap, sym, ◌∙◌,
  leb, upd, upd_self, upd_other, some_inj, Returns,
}
use viper_learned_index.FitingTree.Parameters.{none_offset}
use viper_learned_index.Viper.Interface.{IndexOps, IndexLaws, IsTelling, Env}

unfoldable pub table : IndexOps (ℕ → ℕ)
table = record { insert = λ m n o. some (upd m n o, m n); get = λ m n. some (m n) }

unfoldable pub table_laws : IndexLaws table
unfolding table
table_laws = record {
  IsValid = λ m. Unit;
  get_total = λ m n v. (m n, refl);
  insert_total = λ m n o v. (
    (upd m n o, m n),
    refl,
    (tt, inr refl, ap some (upd_self m n o), λ q ne. ap some (upd_other m n q o ne)),
  );
}

pub table_tells : IsTelling table
unfolding table
table_tells m n o m' old e = ap some (ap (λ r. r.1) (some_inj (upd m n o, m n) (m', old) e))

abbrev pub env : Env (ℕ → ℕ) ℕ ℕ
env = record {
  index = table;
  get_key = λ k. k;
  num_pages_per_block = 2;
  num_slots_per_page = 2;
  block_size = 10;
  alloc_size = 20;
  past_resize_threshold = λ block n. leb n (block + 1);
  free_threshold = 1;
  enable_reclamation = false;
  reclaim_threshold = 0;
  rand = λ state. (state, state + 1);
}
