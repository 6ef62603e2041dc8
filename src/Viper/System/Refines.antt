-- ===== src/Viper/System/Refines.antt =====
-- Sequences of calls by several clients refine a map.
use viper_learned_index.Common.{
  ◌+◌, ◌^◌, ◌<◌, ◌≡◌, refl, List, [], ◌∷◌, arith, ap, sym, subst, ◌∙◌, length, Returns,
}
use viper_learned_index.Viper.Offset.{block_number}
use viper_learned_index.Viper.Interface.{Env, IndexLaws, IsTelling}
use viper_learned_index.Viper.Valid.{Sizes, view}
use viper_learned_index.Viper.System.Spec.{spec_step, spec_run}
use viper_learned_index.Viper.System.{
  System, Call, connect, put, get, update, remove, IsNamed, AreNamed, step, run,
}
use viper_learned_index.Viper.System.Steps.{
  IsReady, Does, put-step, remove-step, update-step, get_step, connect_step,
}

module _ {I K V : Type 0} (E : Env I K V) (L : IndexLaws E.index) where
  -- Each call is right.
  pub step_lem :
      (z : Sizes E) (t : IsTelling E.index) (y : System I K V) (call : Call K V)
      → IsReady E L y
      → block_number y.store.current_block_page + 1 < 2 ^ 45
      → IsNamed y.num_clients call
      → Returns (step E y call) (Does E L y call)
  unfolding IsNamed
  step_lem z t y (connect p g) h room i = connect_step E L z y p g h room
  step_lem z t y (put i key value) h room lt = put-step E L z t y i key value h room lt
  step_lem z t y (get i key) h room lt = get_step E L y i key h
  step_lem z t y (update i key f) h room lt = update-step E L y i key f h
  step_lem z t y (remove i key) h room lt = remove-step E L y i key h lt

  -- From a ready system, with an index that tells the old offset, fewer than 2 ^ 45 blocks in all and
  -- calls by clients that are there, each sequence of calls ends, keeps the system ready, and gives the
  -- replies and the store of the same calls on a function from 64-bit keys to values.
  pub run_lem :
      (z : Sizes E) (t : IsTelling E.index) (y : System I K V) (calls : List (Call K V))
      → IsReady E L y
      → block_number y.store.current_block_page + length calls < 2 ^ 45
      → AreNamed y.num_clients calls
      → Returns (run E y calls) λ r.
        IsReady E L r.0
        × (view E r.0.store ≡ (spec_run E.get_key (view E y.store) calls).0)
        × (r.1 ≡ (spec_run E.get_key (view E y.store) calls).1)
  unfolding run spec_run AreNamed
  run_lem z t y [] h room n = ((y, []), refl, (h, refl, refl))
  run_lem z t y (call ∷ calls) h room n =
      let p = step_lem z t y call h (omega arith) n.0 in
      let x = p.2 in
      let l = x.current_le in
      let q =
        run_lem z t p.0.0 calls x.ready (omega arith)
          (subst (λ m. AreNamed m calls) (sym x.count) n.1) in
      (
        (q.0.0, p.0.1 ∷ q.0.1),
        rw (p.1, q.1) refl,
        (
          q.2.0,
          q.2.1 ∙ ap (λ f. (spec_run E.get_key f calls).0) x.reads,
          ap (λ a. a ∷ q.0.1) x.replies
              ∙ ap (λ b. (spec_step E.get_key (view E y.store) call).1 ∷ b)
                  (q.2.2 ∙ ap (λ f. (spec_run E.get_key f calls).1) x.reads),
        ),
      )
