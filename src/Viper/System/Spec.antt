-- ===== src/Viper/System/Spec.antt =====
-- What the store promises: the calls on a function from 64-bit keys to values.
use mathlib.Core.Option
use viper_learned_index.Common.{is_none, ℕ, not, Option, some, none, List, [], ◌∷◌, upd}
use viper_learned_index.Viper.System.{
  Call, connect, put, get, update, remove, Reply, connected, answer, found,
}

module _ {K V : Type 0} (get_key : K → ℕ) where
  -- The calls on a function.
  unfoldable pub spec_step : (ℕ → Option V) → Call K V → (ℕ → Option V) × Reply V
  spec_step f (connect p g) = (f, connected)
  spec_step f (put i key value) =
      (upd f (get_key key) (some value), answer (is_none (f (get_key key))))
  spec_step f (get i key) = (f, found (f (get_key key)))
  spec_step f (update i key g) = (
    upd f (get_key key) (Option.map g (f (get_key key))),
    answer (not (is_none (f (get_key key)))),
  )
  spec_step f (remove i key) = (upd f (get_key key) none, answer (not (is_none (f (get_key key)))))

  unfoldable pub spec_run : (ℕ → Option V) → List (Call K V) → (ℕ → Option V) × List (Reply V)
  unfolding spec_step
  spec_run f [] = (f, [])
  spec_run f (call ∷ calls) =
      let r = spec_step f call in let q = spec_run r.0 calls in (q.0, r.1 ∷ q.1)
