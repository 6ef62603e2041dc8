-- ===== src/Viper/Tests/Runs.antt =====
-- Calls on the new store, and recovery of a store with one record.
use viper_learned_index.Common.{
  ℕ, ◌+◌, ◌^◌, ◌<◌, ◌≡◌, refl, true, false, some, none, List, [], ◌∷◌, arith, length, Returns,
}
use viper_learned_index.Viper.Offset.{block_number}
use viper_learned_index.Viper.State.{block_based}
use viper_learned_index.Viper.Valid.{view}
use viper_learned_index.Viper.System.{
  Call, connect, put, get, update, remove, connected, answer, found, IsNamed, clients_after,
  AreNamed, run,
}
use viper_learned_index.Viper.System.Spec.{spec_step, spec_run}
use viper_learned_index.Viper.System.Steps.{IsReady}
use viper_learned_index.Viper.System.Refines.{run_lem}
use viper_learned_index.Viper.Tests.{table_laws, table_tells, env}
use viper_learned_index.Viper.Tests.Store.{env-Sizes, system, system-IsReady}

-- Two clients; the second one reads what the first one wrote.
abbrev calls : List (Call ℕ ℕ)
calls =
    connect block_based 0
    ∷ connect block_based 0
    ∷ put 0 5 50
    ∷ put 1 7 70
    ∷ put 0 5 51
    ∷ get 1 5
    ∷ update 1 7 (λ v. v + 1)
    ∷ get 0 7
    ∷ remove 0 5
    ∷ get 1 5
    ∷ []

spec_replies :
    (spec_run {K = ℕ} {V = ℕ} (λ k. k) (λ n. none) calls).1
    ≡ connected
      ∷ connected
      ∷ answer true
      ∷ answer true
      ∷ answer false
      ∷ found (some 51)
      ∷ answer true
      ∷ found (some 71)
      ∷ answer true
      ∷ found none
      ∷ []
unfolding spec_run spec_step
spec_replies = refl

calls_named : AreNamed 0 calls
unfolding AreNamed IsNamed clients_after
calls_named = (
  tt,
  (
    tt,
    (
      omega arith,
      (
        omega arith,
        (
          omega arith,
          (omega arith, (omega arith, (omega arith, (omega arith, (omega arith, tt))))),
        ),
      ),
    ),
  ),
)

room : block_number system.store.current_block_page + length calls < 2 ^ 45
unfolding block_number
room = omega arith

run_example : Returns (run env system calls) λ r.
    IsReady env table_laws r.0
    × (view env r.0.store ≡ (spec_run env.get_key (view env system.store) calls).0)
    × (r.1 ≡ (spec_run env.get_key (view env system.store) calls).1)
run_example =
    run_lem env table_laws env-Sizes table_tells system calls system-IsReady room calls_named
