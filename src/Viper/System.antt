-- ===== src/Viper/System.antt =====
-- A store and its clients, and a sequence of calls by any of them: include/viper/viper.hpp. A call
-- runs as a whole; reclaiming is off, as it is by default.
pub mod Spec
pub mod Steps
pub mod Refines
use viper_learned_index.Common.{
  ℕ, suc, ◌+◌, ◌<◌, Bool, Option, none, some, List, [], ◌∷◌, ltb, upd, if◌then◌else◌, ◌>>=◌,
}
use mathlib.Core.Option
use viper_learned_index.Viper.Interface.{Env}
use viper_learned_index.Viper.State.{Viper, Client, PageStrategy}
use viper_learned_index.Viper.Access.{get_client}
use viper_learned_index.Viper.Client

-- The clients are those with a number below `num_clients`.
pub record System (I : Type 0) (K : Type 0) (V : Type 0) : Type 0 where
  pub store : Viper I K V
  pub clients : ℕ → Client
  pub num_clients : ℕ

-- `connect` is `get_client`, with what memory holds in the two fields that `Client` leaves unset.
pub data Call (K : Type 0) (V : Type 0) : Type 0 where
  connect : PageStrategy → ℕ → Call K V
  put : ℕ → K → V → Call K V
  get : ℕ → K → Call K V
  update : ℕ → K → (V → V) → Call K V
  remove : ℕ → K → Call K V

pub data Reply (V : Type 0) : Type 0 where
  connected : Reply V
  answer : Bool → Reply V
  found : Option V → Reply V

-- The call is by a client that is there.
unfoldable pub IsNamed : {K V : Type 0} → ℕ → Call K V → Type 0
IsNamed n (connect p g) = Unit
IsNamed n (put i key value) = i < n
IsNamed n (get i key) = i < n
IsNamed n (update i key f) = i < n
IsNamed n (remove i key) = i < n

-- The number of clients behind a call.
unfoldable pub clients_after : {K V : Type 0} → ℕ → Call K V → ℕ
clients_after n (connect p g) = suc n
clients_after n (put i key value) = n
clients_after n (get i key) = n
clients_after n (update i key f) = n
clients_after n (remove i key) = n

-- Each call is by a client that is there when it is made.
unfoldable pub AreNamed : {K V : Type 0} → ℕ → List (Call K V) → Type 0
unfolding IsNamed clients_after
AreNamed n [] = Unit
AreNamed n (call ∷ calls) = IsNamed n call × AreNamed (clients_after n call) calls

module _ {I K V : Type 0} (E : Env I K V) where
  unfoldable pub step : System I K V → Call K V → Option (System I K V × Reply V)
  step y (connect p g) = do
    r ← get_client E y.store p g
    some (
      record y {
        store = r.0;
        clients = upd y.clients y.num_clients r.1;
        num_clients = suc y.num_clients;
      },
      connected,
    )
  step y (put i key value) = do
    r ← Client.put E y.store (y.clients i) key value
    some (record y { store = r.0; clients = upd y.clients i r.1 }, answer r.2)
  step y (get i key) = do value ← Client.get E y.store key; some (y, found value)
  step y (update i key f) = do
    r ← Client.update E y.store key f
    some (record y { store = r.0 }, answer r.1)
  step y (remove i key) = do
    r ← Client.remove E y.store (y.clients i) key
    some (record y { store = r.0; clients = upd y.clients i r.1 }, answer r.2)

  unfoldable pub run : System I K V → List (Call K V) → Option (System I K V × List (Reply V))
  unfolding step
  run y [] = some (y, [])
  run y (call ∷ calls) = do r ← step y call; q ← run r.0 calls; some (q.0, r.1 ∷ q.1)
