-- ===== src/State/Projection.antt =====
-- crates/tossinvest-state/src/core/state.rs: the projected state and the operations that change it.
-- An operation returns the new state and the deltas that it emits. `none` is a panic.
pub mod Observe
use mathlib.Core.Option
use package.tossinvest_rust.Common.{
  String, ℕ, Bool, true, false, ◌||◌, Option, none, some, List, [], ◌∷◌, ◌++◌, if◌then◌else◌, ite,
  string_key,
}
use package.tossinvest_rust.Common.HashMap
use package.tossinvest_rust.Common.HashMap.{HashMap, values}
use package.tossinvest_rust.Model.Scalar.{Scalars}
use package.tossinvest_rust.Model.Status.{OrderStatus-discrete}
use package.tossinvest_rust.Model.Orders.{OrderId, Order, PriceResponse}
use package.tossinvest_rust.Model.Account.{HoldingsOverview}
use package.tossinvest_rust.State.Event.{
  OrderKey, local, server, order_key_key, OpKind, Delta, order_upserted, order_closed,
  order_confirmed, holdings_updated, price_updated, stopped,
}
use package.tossinvest_rust.State.View.{
  OrderView, ClosedReason, is_terminal, closed_reason, from_order,
}
use package.tossinvest_rust.State.Rows.{
  OptimisticOrder, next_u64, is_empty, open_ids, fill_deltas, fill_fits, close_deltas, absorbed,
  optimistic_view, confirmed_view, failed_view, closing_view,
}

pub record ProjectedState (S : Scalars) : Type 0 where
  pub orders : HashMap OrderKey OrderView
  pub holdings : Option (HoldingsOverview S)
  pub prices : HashMap String (PriceResponse S)
  pub generation : ℕ  -- u64
  pub is_stopped : Bool
  pub server_index : HashMap OrderId OrderKey

module _ {S : Scalars} where
  unfoldable pub open_server_ids : ProjectedState S → List OrderId
  unfolding open_ids
  open_server_ids s = open_ids (values s.orders)

  unfoldable pub bump : ProjectedState S → List Delta → ProjectedState S × List Delta
  bump s [] = (s, [])
  bump s (d ∷ ds) = (record s { generation = next_u64 s.generation }, d ∷ ds)

  -- `observe_order` where the id is indexed and its row is `view`.
  unfoldable pub observe_known :
      ProjectedState S → OrderKey → OrderView → Order S → ProjectedState S × List Delta
  unfolding fill_deltas close_deltas absorbed
  observe_known s key view order =
      let s' = record s { orders = HashMap.insert key (absorbed view order) s.orders } in
      let deltas = fill_deltas key view order in
      if is_terminal view
      then (s, [])
      else ite (OrderStatus-discrete order.status view.status)
          (if is_empty deltas then (s', []) else bump s' deltas)
          (bump s' (deltas ++ order_upserted key ∷ close_deltas key order.status))

  -- `observe_order` where the id is seen for the first time.
  unfoldable pub observe_new : ProjectedState S → Order S → ProjectedState S × List Delta
  observe_new s order =
      let key = server order.order_id in
      let view = from_order key order in
      bump
        (record s {
          server_index = HashMap.insert order.order_id key s.server_index;
          orders = HashMap.insert key view s.orders;
        })
        (order_upserted key ∷ (if is_terminal view then order_closed key order.status ∷ [] else []))

  -- An observation panics on an indexed key without a row, and on a fill whose difference does not fit.
  unfoldable pub observe_order : ProjectedState S → Order S → Option (ProjectedState S × List Delta)
  observe_order s order = elim (HashMap.get order.order_id s.server_index) [
    | none ↦ some (observe_new s order)
    | some key ↦ elim (HashMap.get key s.orders) [
      | none ↦ none
      | some view ↦
          if is_terminal view || fill_fits view order
          then some (observe_known s key view order)
          else none
    ]
  ]

  unfoldable pub submit_optimistic :
      ProjectedState S → ℕ → OptimisticOrder → OrderKey × (ProjectedState S × List Delta)
  unfolding optimistic_view
  submit_optimistic s local_id intent =
      let key = local local_id in
      let view = optimistic_view local_id intent in
      (
        key,
        bump (record s { orders = HashMap.insert key view s.orders })
            (Delta.order_submitted key ∷ []),
      )

  -- `confirm` where the server id is not tracked yet.
  unfoldable pub rekey : ProjectedState S → ℕ → OrderId → ProjectedState S × List Delta
  unfolding confirmed_view
  rekey s local_id server_id = elim (HashMap.get (local local_id) s.orders) [
    | none ↦ (s, [])
    | some view ↦
        let key = server server_id in
        let rest = HashMap.remove (local local_id) s.orders in
        bump
          (record s {
            server_index = HashMap.insert server_id key s.server_index;
            orders = HashMap.insert key (confirmed_view view server_id) rest;
          })
          (order_confirmed key ∷ [])
  ]

  unfoldable pub confirm : ProjectedState S → ℕ → OrderId → ProjectedState S × List Delta
  unfolding rekey
  confirm s local_id server_id = elim (HashMap.get server_id s.server_index) [
    | none ↦ rekey s local_id server_id
    | some _ ↦
        bump (record s { orders = HashMap.remove (local local_id) s.orders })
          (order_confirmed (server server_id) ∷ [])
  ]

  unfoldable pub submit_failed :
      ProjectedState S → OrderKey → String → ProjectedState S × List Delta
  unfolding failed_view
  submit_failed s key message =
      bump
        (elim (HashMap.get key s.orders) [
          | none ↦ s
          | some view ↦ record s { orders = HashMap.insert key (failed_view view message) s.orders }
        ])
        (Delta.submit_failed key message ∷ [])

  unfoldable pub op_submitted : ProjectedState S → OrderId → OpKind → ProjectedState S × List Delta
  unfolding closing_view
  op_submitted s server_id kind = elim (HashMap.get server_id s.server_index) [
    | none ↦ (s, [])
    | some key ↦
        bump
          (elim (HashMap.get key s.orders) [
            | none ↦ s
            | some view ↦
                if is_terminal view
                then s
                else record s { orders = HashMap.insert key (closing_view view kind) s.orders }
          ])
          (Delta.op_submitted key kind ∷ [])
  ]

  unfoldable pub update_holdings :
      ProjectedState S → HoldingsOverview S → ProjectedState S × List Delta
  update_holdings s overview = bump (record s { holdings = some overview }) (holdings_updated ∷ [])

  unfoldable pub price_tick : ProjectedState S → PriceResponse S → ProjectedState S × List Delta
  price_tick s price =
      bump (record s { prices = HashMap.insert price.symbol price s.prices })
        (price_updated price.symbol ∷ [])

  unfoldable pub stop : ProjectedState S → ProjectedState S × List Delta
  stop s = if s.is_stopped then (s, []) else bump (record s { is_stopped = true }) (stopped ∷ [])

  unfoldable pub closed_reason_of : ProjectedState S → OrderKey → Option ClosedReason
  closed_reason_of s key = elim (HashMap.get key s.orders) [
    | none ↦ none
    | some v ↦ if is_terminal v then some (closed_reason v.status) else none
  ]

module _ (S : Scalars) where
  unfoldable pub new : ProjectedState S
  new = record {
    orders = [];
    holdings = none;
    prices = [];
    generation = 0;
    is_stopped = false;
    server_index = [];
  }
