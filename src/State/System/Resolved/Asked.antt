-- ===== src/State/System/Resolved/Asked.antt =====
-- crates/tossinvest-state/src/runtime.rs: no task sends a submission, so that its intent is the one that
-- `create_order` put into the queue.
use package.tossinvest_rust.Common.{ℕ, Option, none, some, List, [], ◌∷◌, All, map, if_rule}
use package.tossinvest_rust.Model.Scalar.{Scalars}
use package.tossinvest_rust.Model.Orders.{OrderId, Order}
use package.tossinvest_rust.State.Rows.{OptimisticOrder}
use package.tossinvest_rust.State.Pump.{Command, Task}
use package.tossinvest_rust.State.Pump.Sweep.{finish_sweep}
use package.tossinvest_rust.State.System.{System, Network, listed, perform, send, send_all}
use package.tossinvest_rust.State.System.Resolved.{
  IsAsked, IsAskedJob, send-IsAsked, send-IsAskedJob,
}

module _ {S : Scalars} (n : ℕ) (W : OptimisticOrder → Type 0) where
  pub send_all-IsAsked :
      (cs : List (Command S)) (s : System S)
      → All (IsAsked n W) cs
      → All (IsAsked n W) s.queue
      → All (IsAsked n W) (send_all cs s).queue
  unfolding send_all
  send_all-IsAsked [] s own h = h
  send_all-IsAsked (c ∷ cs) s own h =
      send_all-IsAsked cs (send c s) own.1 (send-IsAsked n W c s own.0 h)

  pub send_all-IsAskedJob :
      (cs : List (Command S)) (s : System S)
      → All (IsAskedJob n W) s.jobs
      → All (IsAskedJob n W) (send_all cs s).jobs
  unfolding send_all
  send_all-IsAskedJob [] s h = h
  send_all-IsAskedJob (c ∷ cs) s h = send_all-IsAskedJob cs (send c s) (send-IsAskedJob n W c s h)

  map-IsAsked :
      {A : Type 0} (f : A → Command S)
      → ((a : A) → IsAsked n W (f a))
      → (xs : List A) → All (IsAsked n W) (map f xs)
  map-IsAsked f h [] = tt
  map-IsAsked f h (x ∷ xs) = (h x, map-IsAsked f h xs)

  sweep-IsAsked :
      (before : List OrderId) (page : Option (List (Order S)))
      (get_order : OrderId → Option (Order S))
      → All (IsAsked n W) (listed (finish_sweep before page get_order))
  unfolding finish_sweep
  sweep-IsAsked before none get_order = tt
  sweep-IsAsked before (some orders) get_order = (tt, tt)

  -- No task submits an order.
  pub perform-IsAskedJob : (net : Network S) (task : Task S) → IsAskedJob n W (perform net task)
  unfolding perform
  perform-IsAskedJob net (Task.sweep_task before) =
      sweep-IsAsked before net.open_orders net.get_order
  perform-IsAskedJob net (Task.prices_task symbols) =
      map-IsAsked (λ xs. Command.prices xs) (λ xs. tt) (listed (net.prices symbols))
  perform-IsAskedJob net Task.holdings_task = tt
  perform-IsAskedJob net (Task.create_task m req) = (tt, tt)
  perform-IsAskedJob net (Task.cancel_task id) =
      if_rule (All (IsAsked n W)) (net.cancel_order id)
        (λ _. map-IsAsked (λ o. Command.observed o) (λ o. tt) (listed (net.get_order id))) (λ _. tt)
  perform-IsAskedJob net (Task.refresh_task target) = (tt, tt)
