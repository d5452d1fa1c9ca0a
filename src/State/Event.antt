-- ===== src/State/Event.antt =====
-- crates/tossinvest-state/src/core/event.rs: keys of orders and the deltas of the store.
use package.tossinvest_rust.Common.{String, ℕ, Option, none, some, Key, ℕ_discrete, String-discrete}
use package.tossinvest_rust.Model.Status.{OrderStatus}
use package.tossinvest_rust.Model.Orders.{OrderId}

pub data OrderKey : Type 0 where
  local : ℕ → OrderKey
  server : OrderId → OrderKey

unfoldable pub OrderKey-discrete : Discrete OrderKey
OrderKey-discrete = hlevel (ℕ_discrete, String-discrete)

instance abbrev pub order_key_key : Key OrderKey
order_key_key = record { eq_dec = OrderKey-discrete }

unfoldable pub server_id : OrderKey → Option OrderId
server_id (server id) = some id
server_id (local _) = none

pub data OpKind : Type 0 where
  cancel modify : OpKind

pub data Delta : Type 0 where
  order_upserted : OrderKey → Delta
  -- The key, the new quantity since the last observation, and the total.
  fill_added : OrderKey → String → String → Delta
  order_closed : OrderKey → OrderStatus → Delta
  order_submitted order_confirmed : OrderKey → Delta
  submit_failed : OrderKey → String → Delta
  op_submitted : OrderKey → OpKind → Delta
  holdings_updated : Delta
  price_updated : String → Delta
  stopped : Delta
