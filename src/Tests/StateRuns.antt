-- ===== src/Tests/StateRuns.antt =====
-- Runs of the projection, the store and the pump.
use package.tossinvest_rust.Common.{
  ℕ, ◌≤◌, ◌≡◌, refl, true, none, some, List, [], ◌∷◌, ℕ_discrete, String-discrete, if◌then◌else◌,
  string_key,
}
use package.tossinvest_rust.Common.HashMap.{get, insert, remove}
use package.tossinvest_rust.Model.Enums.{Currency, OrderType, TimeInForce, Side}
use package.tossinvest_rust.Model.Status.{OrderStatus, OrderStatus-discrete}
use package.tossinvest_rust.Model.Orders.{Order}
use package.tossinvest_rust.State.Event.{server, order_key_key, OrderKey-discrete, Delta, cancel}
use package.tossinvest_rust.State.View.{
  OrderView, is_terminal, is_closed, lifecycle_for, lifecycle_of_status, absorb, from_order,
}
use package.tossinvest_rust.State.Rows.{OptimisticOrder, parse_dec, is_empty, next_u64}
use package.tossinvest_rust.State.Projection.{
  ProjectedState, new, observe_order, observe_new, observe_known, submit_optimistic, confirm, rekey,
  op_submitted, bump,
}
use package.tossinvest_rust.State.Ops.{Op, step, run}
use package.tossinvest_rust.State.Invariant.{Inv}
use package.tossinvest_rust.State.Invariant.Runs.{step-Inv_at, new-Inv}
use package.tossinvest_rust.State.Fills.{run-Inv}
use package.tossinvest_rust.State.Rows.{fill_fits}
use package.tossinvest_rust.State.Latch.{run_latched}
use package.tossinvest_rust.State.Closing.{closes, closed_rows}
use package.tossinvest_rust.State.Closing.Runs.{closes-run}
use package.tossinvest_rust.State.Generation.{step-generation}
use package.tossinvest_rust.Tests.Worlds.{whole}

abbrev pub order_at : OrderStatus → ℕ → Order whole
order_at status filled = record {
  order_id = "o-1";
  symbol = "005930";
  side = Side.buy;
  order_type = OrderType.limit;
  time_in_force = TimeInForce.day;
  status = status;
  price = some 70;
  quantity = 10;
  order_amount = none;
  currency = Currency.krw;
  ordered_at = 0;
  canceled_at = none;
  execution = record {
    filled_quantity = filled;
    average_filled_price = none;
    filled_amount = none;
    commission = none;
    tax = none;
    filled_at = none;
    settlement_date = none;
  };
}

abbrev pub intent : OptimisticOrder
intent = record {
  symbol = "005930";
  side = Side.buy;
  quantity = "10";
  price = some "70";
  currency = Currency.krw;
}

-- Submit, confirm, a partial fill, a cancel, the fill of the rest, and a late observation.
abbrev session : List (Op whole)
session =
    Op.submit_optimistic 1 intent
    ∷ Op.confirm 1 "o-1"
    ∷ Op.observe_order (order_at OrderStatus.partial_filled 4)
    ∷ Op.op_submitted "o-1" cancel
    ∷ Op.observe_order (order_at OrderStatus.filled 10)
    ∷ Op.observe_order (order_at OrderStatus.partial_filled 4)
    ∷ []

-- The state and the deltas at the end of a run, and the fresh state if it panics.
unfoldable ended : List (Op whole) → ProjectedState whole × List Delta
ended ops = elim (run ops (new whole)) [ none ↦ (new whole, []) | some r ↦ r ]

session_returns : run session (new whole) ≡ some (ended session)
unfolding ended run step new get insert remove observe_order observe_new observe_known
    submit_optimistic confirm rekey op_submitted bump OrderKey-discrete ℕ_discrete String-discrete
    is_closed lifecycle_for lifecycle_of_status OrderStatus-discrete parse_dec absorb fill_fits
session_returns = refl

run-Inv_example :
    (r : ProjectedState whole × List Delta) × (run session (new whole) ≡ some r) × Inv r.0
run-Inv_example =
    run-Inv session (tt, (tt, (tt, (tt, (tt, (tt, tt))))))
      (tt, (tt, (refl, (tt, (refl, (refl, tt))))))

closes-run_example :
    (closes "o-1" (ended session).1 ≡ closed_rows "o-1" (ended session).0.orders)
    × (closes "o-1" (ended session).1 ≤ 1)
closes-run_example =
    closes-run session "o-1" (ended session) (tt, (tt, (tt, (tt, (tt, (tt, tt)))))) session_returns

-- The order's row once it is closed, and what may still arrive.
abbrev filled_row : OrderView
filled_row = from_order (server "o-1") (order_at OrderStatus.filled 10)

abbrev closed_state : ProjectedState whole
closed_state = (observe_new (new whole) (order_at OrderStatus.filled 10)).0

abbrev late : List (Op whole)
late = Op.observe_order (order_at OrderStatus.partial_filled 4) ∷ Op.op_submitted "o-1" cancel ∷ []

closed_Inv : Inv closed_state
unfolding step observe_order new get
closed_Inv =
    step-Inv_at (Op.observe_order (order_at OrderStatus.filled 10)) (new whole)
      (observe_new (new whole) (order_at OrderStatus.filled 10)) tt (new-Inv whole) refl

unfoldable late_run : ProjectedState whole × List Delta
late_run = elim (run late closed_state) [ none ↦ (new whole, []) | some r ↦ r ]

late_returns : run late closed_state ≡ some late_run
unfolding late_run run step new get insert remove observe_order observe_new observe_known
    submit_optimistic confirm rekey op_submitted bump OrderKey-discrete ℕ_discrete String-discrete
    is_closed lifecycle_for lifecycle_of_status OrderStatus-discrete parse_dec absorb from_order
late_returns = refl

filled_found : get (server "o-1") closed_state.orders ≡ some filled_row
unfolding run step new get insert remove observe_order observe_new observe_known submit_optimistic
    confirm rekey op_submitted bump OrderKey-discrete ℕ_discrete String-discrete is_closed
    lifecycle_for lifecycle_of_status OrderStatus-discrete parse_dec absorb from_order
filled_found = refl

filled_closed : is_terminal filled_row ≡ true
unfolding run step new get insert remove observe_order observe_new observe_known submit_optimistic
    confirm rekey op_submitted bump OrderKey-discrete ℕ_discrete String-discrete is_closed
    lifecycle_for lifecycle_of_status OrderStatus-discrete parse_dec absorb from_order
filled_closed = refl

run_latched_example : get (server "o-1") late_run.0.orders ≡ some filled_row
run_latched_example =
    run_latched late closed_state late_run "o-1" filled_row closed_Inv (tt, (tt, tt)) filled_found
      filled_closed late_returns

step-generation_example : closed_state.generation ≡ (
    if is_empty ((observe_new (new whole) (order_at OrderStatus.filled 10)).1)
    then (new whole).generation
    else next_u64 (new whole).generation)
unfolding step observe_order new get
step-generation_example =
    step-generation (Op.observe_order (order_at OrderStatus.filled 10)) (new whole)
      (observe_new (new whole) (order_at OrderStatus.filled 10)) refl
