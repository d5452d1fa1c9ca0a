-- ===== src/State/System/Mild.antt =====
-- crates/tossinvest-state/src/runtime.rs: what a task does when the network gives no order with a
-- negative filled quantity.
use package.tossinvest_rust.Common.{
  Option, none, some, List, [], ◌∷◌, map, if_rule, All, All-append,
}
use package.tossinvest_rust.Model.Scalar.{Scalars}
use package.tossinvest_rust.Model.Orders.{OrderId, Order}
use package.tossinvest_rust.State.Ops.{Op}
use package.tossinvest_rust.State.Fills.{IsMild, IsMildOp}
use package.tossinvest_rust.State.Pump.{
  Command, Task, RefreshTarget, all_target, orders_target, holdings_target, order_target,
  prices_target,
}
use package.tossinvest_rust.State.Pump.Sweep.{finish_sweep, fetch_all, difference}
use package.tossinvest_rust.State.Pump.Total.{IsMildCommand}
use package.tossinvest_rust.State.System.{Job, Network, listed, listing, refresh_ops, perform}

All-map :
    {A B : Type 0} (P : A → Type 0) (Q : B → Type 0) (f : A → B)
    → ((a : A) → P a → Q (f a))
    → (xs : List A) → All P xs
    → All Q (map f xs)
All-map P Q f h [] k = tt
All-map P Q f h (x ∷ xs) k = (h x k.0, All-map P Q f h xs k.1)

All-anything :
    {A B : Type 0} (Q : B → Type 0) (f : A → B)
    → ((a : A) → Q (f a))
    → (xs : List A) → All Q (map f xs)
All-anything Q f h [] = tt
All-anything Q f h (x ∷ xs) = (h x, All-anything Q f h xs)

module _ {S : Scalars} where
  -- No order that the network gives has a negative filled quantity.
  abbrev pub IsMildNetwork : Network S → Type 0
  IsMildNetwork net =
      ((id : OrderId) → All IsMild (listed (net.get_order id)))
      × All IsMild (listing net.open_orders)

  abbrev pub IsMildJob : Job S → Type 0
  IsMildJob job = All IsMildOp job.ops × All IsMildCommand job.sends

  observes-IsMild :
      (os : List (Order S)) → All IsMild os → All IsMildOp (map (λ o. Op.observe_order o) os)
  observes-IsMild os h = All-map IsMild IsMildOp (λ o. Op.observe_order o) (λ o k. k) os h

  refresh_ops-IsMild :
      (net : Network S) (target : RefreshTarget)
      → IsMildNetwork net
      → All IsMildOp (refresh_ops net target)
  unfolding refresh_ops
  refresh_ops-IsMild net all_target h =
      All-append IsMildOp _ _ (observes-IsMild (listing net.open_orders) h.1)
        (All-anything IsMildOp (λ x. Op.update_holdings x) (λ x. tt) (listed net.holdings))
  refresh_ops-IsMild net orders_target h = observes-IsMild (listing net.open_orders) h.1
  refresh_ops-IsMild net holdings_target h =
      All-anything IsMildOp (λ x. Op.update_holdings x) (λ x. tt) (listed net.holdings)
  refresh_ops-IsMild net (order_target id) h = observes-IsMild (listed (net.get_order id)) (h.0 id)
  refresh_ops-IsMild net (prices_target symbols) h =
      All-anything IsMildOp (λ x. Op.price_tick x) (λ x. tt) (listing (net.prices symbols))

  found-IsMild :
      (x : Option (Order S)) (rest : List (Order S))
      → All IsMild (listed x)
      → All IsMild rest
      → All IsMild (elim x [ none ↦ rest | some o ↦ o ∷ rest ])
  found-IsMild none rest h k = k
  found-IsMild (some o) rest h k = (h.0, k)

  fetch_all-IsMild :
      (get_order : OrderId → Option (Order S)) (ids : List OrderId)
      → ((id : OrderId) → All IsMild (listed (get_order id)))
      → All IsMild (fetch_all get_order ids)
  unfolding fetch_all
  fetch_all-IsMild get_order [] h = tt
  fetch_all-IsMild get_order (id ∷ ids) h =
      found-IsMild (get_order id) (fetch_all get_order ids) (h id)
        (fetch_all-IsMild get_order ids h)

  finish_sweep-IsMild :
      (before : List OrderId) (open_orders : Option (List (Order S)))
      (get_order : OrderId → Option (Order S))
      → ((id : OrderId) → All IsMild (listed (get_order id)))
      → All IsMild (listing open_orders)
      → All IsMildCommand (listed (finish_sweep before open_orders get_order))
  unfolding finish_sweep
  finish_sweep-IsMild before none get_order h k = tt
  finish_sweep-IsMild before (some orders) get_order h k =
      ((k, fetch_all-IsMild get_order (difference before (map (λ o. o.order_id) orders)) h), tt)

  pub perform-IsMildJob :
      (net : Network S) (task : Task S) → IsMildNetwork net → IsMildJob (perform net task)
  unfolding perform
  perform-IsMildJob net (Task.sweep_task before) h =
      (tt, finish_sweep-IsMild before net.open_orders net.get_order h.0 h.1)
  perform-IsMildJob net (Task.prices_task symbols) h = (
    tt,
    All-anything IsMildCommand (λ xs. Command.prices xs) (λ xs. tt) (listed (net.prices symbols)),
  )
  perform-IsMildJob net Task.holdings_task h =
      (All-anything IsMildOp (λ x. Op.update_holdings x) (λ x. tt) (listed net.holdings), tt)
  perform-IsMildJob net (Task.create_task n req) h = (tt, (tt, tt))
  perform-IsMildJob net (Task.cancel_task id) h = (
    tt,
    if_rule (All IsMildCommand) (net.cancel_order id)
        (λ _.
          All-map IsMild IsMildCommand (λ o. Command.observed o) (λ o k. k)
            (listed (net.get_order id)) (h.0 id))
        (λ _. tt),
  )
  perform-IsMildJob net (Task.refresh_task target) h = (refresh_ops-IsMild net target h, (tt, tt))
