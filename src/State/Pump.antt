-- ===== src/State/Pump.antt =====
-- crates/tossinvest-state/src/runtime.rs: the handle's shared state and the pump's commands. A command
-- returns the new state and the detached tasks that it spawns. `none` is a panic in a mutation.
pub mod Cadence
pub mod Leases
pub mod Sweep
pub mod Invalidation
pub mod Refetch
pub mod Total
pub mod Kept
use package.tossinvest_rust.Common.{
  String, ℕ, zero, suc, ◌+◌, ◌-◌, Bool, true, false, ◌&&◌, ◌||◌, Option, none, some, List, [], ◌∷◌,
  ◌++◌, ltb, any, if◌then◌else◌, string_key,
}
use package.tossinvest_rust.Common.Result.{Result, ok, err}
use package.tossinvest_rust.Common.HashMap
use package.tossinvest_rust.Common.HashMap.{HashMap, keys}
use package.tossinvest_rust.Model.Scalar.{Scalars}
use package.tossinvest_rust.Model.Orders.{OrderId, Order, PriceResponse}
use package.tossinvest_rust.Model.Requests.{OrderCreateRequest, quantity_based, amount_based}
use package.tossinvest_rust.Model.Enums.{Currency}
use package.tossinvest_rust.State.Event.{OrderKey, local, Delta, cancel}
use package.tossinvest_rust.State.Rows.{OptimisticOrder}
use package.tossinvest_rust.State.Projection.{open_server_ids}
use package.tossinvest_rust.State.Ops.{Op, ◌>>=◌}
use package.tossinvest_rust.State.Store.{Store, apply}

pub data RefreshTarget : Type 0 where
  all_target orders_target holdings_target : RefreshTarget
  order_target : OrderId → RefreshTarget
  prices_target : List String → RefreshTarget

pub data Command (S : Scalars) : Type 0 where
  start_sweep : Command S
  sweep_done : List (Order S) → List (Order S) → Command S
  observed : Order S → Command S
  submit : ℕ → OptimisticOrder → OrderCreateRequest S → Command S
  submit_result : ℕ → Result OrderId String → Command S
  cancel_command : OrderId → Command S
  prices : List (PriceResponse S) → Command S
  refresh : RefreshTarget → Command S
  demand_changed wake : Command S

-- The detached tasks, with what they hold.
pub data Task (S : Scalars) : Type 0 where
  sweep_task : List OrderId → Task S
  prices_task : List String → Task S
  holdings_task : Task S
  create_task : ℕ → OrderCreateRequest S → Task S
  cancel_task : OrderId → Task S
  refresh_task : RefreshTarget → Task S

pub record Pump (S : Scalars) : Type 0 where
  pub store : Store S
  pub price_demand : HashMap String ℕ
  pub holdings_demand : ℕ
  pub holdings_dirty : Bool

unfoldable pub is_stale : Delta → Bool
is_stale (Delta.fill_added key added total) = true
is_stale (Delta.order_closed key status) = true
is_stale _ = false

module _ {S : Scalars} where
  unfoldable pub intent_of : OrderCreateRequest S → OptimisticOrder
  intent_of (quantity_based o) = record {
    symbol = o.symbol;
    side = o.side;
    quantity = S.to_string o.quantity.amount;
    price = elim o.price [ none ↦ none | some p ↦ some (S.to_string p) ];
    currency = Currency.krw;
  }
  intent_of (amount_based o) = record {
    symbol = o.symbol;
    side = o.side;
    quantity = "0";
    price = none;
    currency = Currency.usd;
  }

  unfoldable pub mark_invalidation : List Delta → Pump S → Pump S
  unfolding is_stale
  mark_invalidation deltas p = if any is_stale deltas then record p { holdings_dirty = true } else p

  -- A mutation whose deltas the pump does not read.
  unfoldable pub mutate : Op S → Pump S → Option (Pump S)
  unfolding apply
  mutate op p = do (store, deltas) ← apply p.store op; some (record p { store = store })

  -- An observation, and what it invalidates.
  unfoldable pub observe : Order S → Pump S → Option (Pump S)
  unfolding mark_invalidation
  observe o p = do
    (store, deltas) ← apply p.store (Op.observe_order o)
    some (mark_invalidation deltas (record p { store = store }))

  unfoldable pub observe_all : List (Order S) → Pump S → Option (Pump S)
  observe_all [] p = some p
  observe_all (o ∷ os) p = do p' ← observe o p; observe_all os p'

  unfoldable pub tick_all : List (PriceResponse S) → Pump S → Option (Pump S)
  tick_all [] p = some p
  tick_all (x ∷ xs) p = do p' ← mutate (Op.price_tick x) p; tick_all xs p'

  -- Only a watched symbol is polled.
  unfoldable pub spawn_prices : Pump S → List (Task S)
  spawn_prices p = elim (keys p.price_demand) [
    | [] ↦ []
    | s ∷ symbols ↦ Task.prices_task (s ∷ symbols) ∷ []
  ]

  -- `holdings_demand > 0 && holdings_dirty.swap(false)`: no swap without demand.
  unfoldable pub take_invalidation : Pump S → Pump S × List (Task S)
  take_invalidation p =
      if ltb 0 p.holdings_demand && p.holdings_dirty
      then (record p { holdings_dirty = false }, Task.holdings_task ∷ [])
      else (p, [])

  unfoldable pub start_sweeping : Pump S → Pump S × List (Task S)
  unfolding open_server_ids spawn_prices take_invalidation
  start_sweeping p =
      let (p', holdings) = take_invalidation p in
      (p', Task.sweep_task (open_server_ids p.store.state) ∷ (spawn_prices p ++ holdings))

  -- `some` of the state, with tasks that do not depend on it.
  abbrev pub spawning : Option (Pump S) → List (Task S) → Option (Pump S × List (Task S))
  spawning none ts = none
  spawning (some p) ts = some (p, ts)

  unfoldable pub handle_command : Command S → Pump S → Option (Pump S × List (Task S))
  unfolding start_sweeping observe observe_all mutate tick_all
  handle_command Command.start_sweep p = some (start_sweeping p)
  handle_command (Command.sweep_done orders dropped) p =
      spawning (observe_all orders p >>= observe_all dropped) []
  handle_command (Command.observed o) p = spawning (observe o p) []
  handle_command (Command.submit n intent req) p =
      spawning (mutate (Op.submit_optimistic n intent) p) (Task.create_task n req ∷ [])
  handle_command (Command.submit_result n (ok id)) p = spawning (mutate (Op.confirm n id) p) []
  handle_command (Command.submit_result n (err message)) p =
      spawning (mutate (Op.submit_failed (local n) message) p) []
  handle_command (Command.cancel_command id) p =
      spawning (mutate (Op.op_submitted id cancel) p) (Task.cancel_task id ∷ [])
  handle_command (Command.prices xs) p = spawning (tick_all xs p) []
  handle_command (Command.refresh target) p = some (p, Task.refresh_task target ∷ [])
  handle_command Command.demand_changed p = some (p, [])
  handle_command Command.wake p = some (p, [])
