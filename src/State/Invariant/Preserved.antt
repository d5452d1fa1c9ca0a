-- ===== src/State/Invariant/Preserved.antt =====
-- crates/tossinvest-state/src/core/state.rs: each operation keeps the invariant.
use mathlib.Core.Path.{subst}
use package.tossinvest_rust.Common.{
  ℕ, String, ◌≡◌, sym, ◌∙◌, some_injective, some, List, [], ◌∷◌, inl, inr, Option-cases, Bool-cases,
  if_rule, string_key,
}
use package.tossinvest_rust.Common.HashMap.{get, insert, remove}
use package.tossinvest_rust.Model.Scalar.{Scalars}
use package.tossinvest_rust.Model.Orders.{OrderId, Order}
use package.tossinvest_rust.State.Event.{OrderKey, local, server, order_key_key, OpKind, Delta}
use package.tossinvest_rust.State.View.{OrderView, is_terminal, from_order}
use package.tossinvest_rust.State.Rows.{
  OptimisticOrder, absorbed, optimistic_view, confirmed_view, failed_view, closing_view,
}
use package.tossinvest_rust.State.Projection.{
  ProjectedState, bump, observe_known, observe_new, observe_order, submit_optimistic, rekey,
  confirm, submit_failed, op_submitted, stop,
}
use package.tossinvest_rust.State.Projection.Observe.{
  with_row, observe_known_closed, observe_known_open, observe_order_new, observe_order_returned,
}
use package.tossinvest_rust.State.Ops.{IsSubmission}
use package.tossinvest_rust.State.Invariant.{
  RowIsValid, Inv, Rows-insert, Rows-remove, Routes-update, Routes-new, Routes-remove_local,
  local_ne_server,
}
use package.tossinvest_rust.State.Invariant.RowChanges.{
  absorbed-RowIsValid, from_order-RowIsValid, confirmed-RowIsValid, failed-RowIsValid,
  closing-RowIsValid, optimistic-RowIsValid,
}

module _ {S : Scalars} where
  pub bump-Inv : (s : ProjectedState S) (ds : List Delta) → Inv s → Inv (bump s ds).0
  unfolding bump
  bump-Inv s [] i = i
  bump-Inv s (d ∷ ds) i = record { rows = i.rows; routes = i.routes }

  -- A new row at a routed or local key.
  update-Inv :
      (s : ProjectedState S) (k : OrderKey) (v : OrderView)
      → Inv s
      → RowIsValid k v
      → ((id : OrderId) → k ≡ server id → get id s.server_index ≡ some (server id))
      → Inv (record s { orders = insert k v s.orders })
  update-Inv s k v i valid routed = record {
    rows = Rows-insert k v s.orders i.rows valid;
    routes = Routes-update k v s.server_index s.orders i.routes routed;
  }

  routed_of_row :
      (s : ProjectedState S) (k : OrderKey) (v : OrderView)
      → Inv s
      → get k s.orders ≡ some v
      → (id : OrderId) → k ≡ server id
      → get id s.server_index ≡ some (server id)
  routed_of_row s k v i found id e = i.routes.2 id v (rw e at found)

  pub observe_known-Inv :
      (s : ProjectedState S) (k : OrderKey) (v : OrderView) (o : Order S)
      → Inv s
      → k ≡ server o.order_id
      → get k s.orders ≡ some v
      → Inv (observe_known s k v o).0
  observe_known-Inv s k v o i e found = elim (Bool-cases (is_terminal v)) [
    | inl shut ↦ rw (observe_known_closed s k v o shut) i
    | inr open_row ↦ rw (observe_known_open s k v o open_row) (bump-Inv _ _ changed)
  ]
    where
      changed : Inv (with_row s k (absorbed v o))
      changed =
          update-Inv s k (absorbed v o) i (absorbed-RowIsValid k v o e (i.rows k v found))
            (routed_of_row s k v i found)

  observe_new-Inv : (s : ProjectedState S) (o : Order S) → Inv s → Inv (observe_new s o).0
  unfolding observe_new
  observe_new-Inv s o i = bump-Inv _ _ (record {
    rows = Rows-insert key (from_order key o) s.orders i.rows (from_order-RowIsValid o);
    routes = Routes-new o.order_id (from_order key o) s.server_index s.orders i.routes;
  })
    where
      key : OrderKey
      key = server o.order_id

  pub observe_order-Inv :
      (s : ProjectedState S) (o : Order S) (r : ProjectedState S × List Delta)
      → Inv s
      → observe_order s o ≡ some r
      → Inv r.0
  observe_order-Inv s o r i e = elim (Option-cases (get o.order_id s.server_index)) [
    | inl new_id ↦
        subst (λ (x : ProjectedState S × List Delta). Inv x.0)
          (some_injective (sym (observe_order_new s o new_id) ∙ e)) (observe_new-Inv s o i)
    | inr (k, indexed) ↦
        let own = i.routes.0 o.order_id k indexed in
        let (v, found) = i.routes.1 o.order_id k indexed in
        let row : get k s.orders ≡ some v = rw own found in
        subst (λ (x : ProjectedState S × List Delta). Inv x.0)
          (observe_order_returned s o indexed row e) (observe_known-Inv s k v o i own row)
  ]

  pub submit_optimistic-Inv :
      (s : ProjectedState S) (n : ℕ) (intent : OptimisticOrder)
      → Inv s
      → Inv (submit_optimistic s n intent).1.0
  unfolding submit_optimistic
  submit_optimistic-Inv s n intent i = bump-Inv _ _ (
      update-Inv s (local n) (optimistic_view n intent) i (optimistic-RowIsValid n intent)
        (λ id e. absurd (local_ne_server e)))

  rekeyed-Inv :
      (s : ProjectedState S) (n : ℕ) (id : OrderId) (v : OrderView)
      → Inv s
      → Inv (record s {
        server_index = insert id (server id) s.server_index;
        orders = insert (server id) (confirmed_view v id) (remove (local n) s.orders);
      })
  rekeyed-Inv s n id v i =
      let kept = Rows-remove (local n) s.orders i.rows in
      let routed = Routes-remove_local n s.server_index s.orders i.routes in
      record {
        rows = Rows-insert (server id) (confirmed_view v id) _ kept (confirmed-RowIsValid v id);
        routes = Routes-new id (confirmed_view v id) s.server_index _ routed;
      }

  rekey-Inv : (s : ProjectedState S) (n : ℕ) (id : OrderId) → Inv s → Inv (rekey s n id).0
  unfolding rekey
  rekey-Inv s n id i = elim (Option-cases (get (local n) s.orders)) [
    | inl missing ↦ rw (missing, rekey) i
    | inr (v, found) ↦ rw (found, rekey) (bump-Inv _ _ (rekeyed-Inv s n id v i))
  ]

  pub confirm-Inv : (s : ProjectedState S) (n : ℕ) (id : OrderId) → Inv s → Inv (confirm s n id).0
  unfolding confirm
  confirm-Inv s n id i = elim (Option-cases (get id s.server_index)) [
    | inl unseen ↦ rw (unseen, confirm) (rekey-Inv s n id i)
    | inr (k, seen) ↦
        rw (seen, confirm)
          (bump-Inv _ _ (record {
            rows = Rows-remove (local n) s.orders i.rows;
            routes = Routes-remove_local n s.server_index s.orders i.routes;
          }))
  ]

  pub submit_failed-Inv :
      (s : ProjectedState S) (k : OrderKey) (message : String)
      → IsSubmission k
      → Inv s
      → Inv (submit_failed s k message).0
  unfolding submit_failed
  submit_failed-Inv s (server id) message sub i = absurd sub
  submit_failed-Inv s (local n) message sub i = elim (Option-cases (get (local n) s.orders)) [
    | inl missing ↦ rw (missing, submit_failed) (bump-Inv _ _ i)
    | inr (v, found) ↦
        rw (found, submit_failed)
          (bump-Inv _ _ (
            update-Inv s (local n) (failed_view v message) i
              (failed-RowIsValid n v message (i.rows (local n) v found))
              (λ id e. absurd (local_ne_server e))))
  ]

  pub op_submitted-Inv :
      (s : ProjectedState S) (id : OrderId) (kind : OpKind) → Inv s → Inv (op_submitted s id kind).0
  unfolding op_submitted
  op_submitted-Inv s id kind i = elim (Option-cases (get id s.server_index)) [
    | inl unseen ↦ rw (unseen, op_submitted) i
    | inr (k, seen) ↦
        let (v, present) = i.routes.1 id k seen in
        let row : get k s.orders ≡ some v = rw (i.routes.0 id k seen) present in
        rw (seen, op_submitted)
          (bump-Inv _ _ (
            rw row (
              if_rule Inv (is_terminal v) (λ _. i)
                λ open_row.
                  update-Inv s k (closing_view v kind) i
                    (closing-RowIsValid k v kind open_row (i.rows k v row))
                    (routed_of_row s k v i row))))
  ]

  pub stop-Inv : (s : ProjectedState S) → Inv s → Inv (stop s).0
  unfolding stop
  stop-Inv s i = elim (Bool-cases s.is_stopped) [
    | inl old ↦ simp old i
    | inr running ↦ simp running (bump-Inv _ _ (record { rows = i.rows; routes = i.routes }))
  ]
