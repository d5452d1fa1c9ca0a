-- ===== src/State/Invariant/RowChanges.antt =====
-- crates/tossinvest-state/src/core/state.rs: what each operation writes to a row keeps the row valid.
use mathlib.Core.Bool.{false≢true}
use package.tossinvest_rust.Common.{ℕ, String, ◌≡◌, refl, sym, ap, ◌∙◌, false, some}
use package.tossinvest_rust.Model.Scalar.{Scalars}
use package.tossinvest_rust.Model.Status
use package.tossinvest_rust.Model.Orders.{OrderId, Order}
use package.tossinvest_rust.State.Event.{OrderKey, local, server, OpKind}
use package.tossinvest_rust.State.View.{
  OrderView, is_terminal, is_closed, lifecycle_for, from_order, absorb,
}
use package.tossinvest_rust.State.Rows.{
  OptimisticOrder, absorbed, optimistic_view, confirmed_view, failed_view, closing_view,
}
use package.tossinvest_rust.State.Invariant.{
  RowIsValid, lifecycle_of_status-closed, local_ne_server, server_injective,
}

module _ {S : Scalars} where
  pub absorbed-RowIsValid :
      (k : OrderKey) (v : OrderView) (o : Order S)
      → k ≡ server o.order_id
      → RowIsValid k v
      → RowIsValid k (absorbed v o)
  unfolding absorbed absorb lifecycle_for
  absorbed-RowIsValid (local n) v o e valid = absurd (local_ne_server e)
  absorbed-RowIsValid (server id) v o e (own, named, fresh, latched, shown) = (
    own,
    ap some (sym (server_injective e)),
    refl,
    lifecycle_of_status-closed o.status,
    λ _. refl,
  )

  pub is_terminal-absorbed :
      (v : OrderView) (o : Order S) → is_terminal (absorbed v o) ≡ Status.is_terminal o.status
  unfolding absorbed absorb lifecycle_for
  is_terminal-absorbed v o = lifecycle_of_status-closed o.status

  pub from_order-RowIsValid :
      (o : Order S) → RowIsValid (server o.order_id) (from_order (server o.order_id) o)
  unfolding from_order lifecycle_for
  from_order-RowIsValid o = (refl, refl, refl, lifecycle_of_status-closed o.status, λ _. refl)

pub confirmed-RowIsValid :
    (v : OrderView) (id : OrderId) → RowIsValid (server id) (confirmed_view v id)
unfolding confirmed_view lifecycle_for
confirmed-RowIsValid v id = (refl, refl, refl, lifecycle_of_status-closed v.status, λ _. refl)

pub failed-RowIsValid :
    (n : ℕ) (v : OrderView) (message : String)
    → RowIsValid (local n) v
    → RowIsValid (local n) (failed_view v message)
unfolding failed_view is_closed
failed-RowIsValid n v message (own, unnamed, fresh, _, waits) = (own, unnamed, fresh, refl, waits)

pub closing-RowIsValid :
    (k : OrderKey) (v : OrderView) (kind : OpKind)
    → is_terminal v ≡ false
    → RowIsValid k v
    → RowIsValid k (closing_view v kind)
unfolding closing_view is_closed
closing-RowIsValid (local n) v kind open_row (own, unnamed, fresh, _, waits) =
    (own, unnamed, fresh, refl, waits)
closing-RowIsValid (server id) v kind open_row (own, named, fresh, latched, shown) =
    (own, named, fresh, sym open_row ∙ latched, λ e. absurd (false≢true e))

pub optimistic-RowIsValid :
    (n : ℕ) (intent : OptimisticOrder) → RowIsValid (local n) (optimistic_view n intent)
unfolding optimistic_view is_closed
optimistic-RowIsValid n intent = (refl, refl, refl, refl, refl)
