-- ===== src/Viper/Seqlock.antt =====
-- `Client::get_value_from_offset` of include/viper/viper.hpp beside other threads: the read of a
-- value between two loads of the page's version lock, and the steps of the other threads on the
-- page. Writers of records hold the lock; the client bit is set and cleared without it, and a page
-- is set up anew without it, by `init` or at the end of `reclaim`.
pub mod Counter
pub mod Reads
use viper_learned_index.Common.{
  ℕ, zero, suc, Bool, true, false, ◌≡◌, Option, none, some, ◌==◌, if◌then◌else◌,
}
use viper_learned_index.Viper.Lock
use viper_learned_index.Viper.Lock.{is_locked, set_client, clear_client}
use viper_learned_index.Viper.Page
use viper_learned_index.Viper.Page.{Page}

module _ {K V : Type 0} where
  -- One step of another thread.
  pub data Step : Page K V → Page K V → Type 0 where
    lock_step :
        {p : Page K V} (version : ℕ)
        → Lock.lock p.version_lock ≡ some version
        → Step p (record p { version_lock = version })
    write_step :
        {p : Page K V} (slot : ℕ) (key : K) (value : V)
        → is_locked p.version_lock ≡ true
        → Step p (Page.write_record p slot key value)
    set_step :
        {p : Page K V} (slot : ℕ) (entry : K × V)
        → is_locked p.version_lock ≡ true
        → Step p (Page.set_record p slot entry)
    invalidate_step : {p : Page K V} (slot : ℕ) → Step p (Page.invalidate_record p slot)
    own_step : {p : Page K V} → Step p (record p { version_lock = set_client p.version_lock })
    release_step : {p : Page K V} → Step p (record p { version_lock = clear_client p.version_lock })

  -- Steps of other threads, with the number of unlocks and the number of resets among them.
  pub data Steps : ℕ → ℕ → Page K V → Page K V → Type 0 where
    done : {p : Page K V} → Steps zero zero p p
    step : {n m : ℕ} {p q r : Page K V} → Steps n m p q → Step q r → Steps n m p r
    unlock_step :
        {n m : ℕ} {p q : Page K V}
        → Steps n m p q
        → is_locked q.version_lock ≡ true
        → Steps (suc n) m p (Page.unlock q)
    -- A client moves on to the page.
    init_step : {n m : ℕ} {p q : Page K V} → Steps n m p q → Steps n (suc m) p (Page.init q)
    -- `reclaim` frees the block whose first page it is.
    reclaim_step :
        {n m : ℕ} {p q : Page K V}
        → Steps n m p q
        → Steps n (suc m) p (record q { version_lock = 0 })

  -- `get_value_from_offset`, where the page is `first` at the load of the lock, `copied` when the
  -- value is read, and `last` at the second load. `none`: the caller tries again.
  unfoldable pub read_value : Page K V → Page K V → Page K V → ℕ → Option V
  read_value first copied last slot =
      if is_locked first.version_lock
      then none
      else if first.version_lock == last.version_lock
      then some (copied.records slot).1
      else none
