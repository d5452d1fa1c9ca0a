-- ===== src/State/Closing/Steps.antt =====
-- crates/tossinvest-state/src/core/state.rs: every mutation reports the closes that it makes, once.
use mathlib.Core.Path.{subst}
use package.tossinvest_rust.Common.{
  none≢some, ℕ, String, ◌≡◌, ◌≢◌, sym, ap, ◌∙◌, false, none, some, List, ◌∷◌, ite, arith,
  string_key, some_injective, Bool-cases, Option-cases, inl, inr,
}
use package.tossinvest_rust.Common.HashMap.{get, remove}
use package.tossinvest_rust.Model.Scalar.{Scalars}
use package.tossinvest_rust.Model.Status
use package.tossinvest_rust.Model.Status.{OrderStatus, OrderStatus-discrete}
use package.tossinvest_rust.Model.Orders.{OrderId, Order}
use package.tossinvest_rust.State.Event.{
  OrderKey, local, server, OrderKey-discrete, order_key_key, Delta, order_upserted, OpKind,
}
use package.tossinvest_rust.State.View.{OrderView, is_terminal, is_closed, from_order}
use package.tossinvest_rust.State.Rows.{
  fill_deltas, close_deltas, absorbed, OptimisticOrder, optimistic_view, confirmed_view,
  failed_view, closing_view,
}
use package.tossinvest_rust.State.Projection.{
  ProjectedState, bump, observe_known, observe_new, observe_order, rekey, confirm,
  submit_optimistic, submit_failed, op_submitted,
}
use package.tossinvest_rust.State.Projection.Observe.{
  with_row, observed_deltas, observe_known_closed, observe_known_open, observe_order_new,
  observe_order_returned,
}
use package.tossinvest_rust.State.Ops.{IsSubmission}
use package.tossinvest_rust.State.Invariant.{Inv, server_injective}
use package.tossinvest_rust.State.Invariant.RowChanges.{is_terminal-absorbed, confirmed-RowIsValid}
use package.tossinvest_rust.State.Closing.{
  bit, is_close, closes, closed_rows, closes-append, closed_rows-none, closed_rows-some,
  closed_rows-insert, closed_rows-remove_local, closes-close_deltas, closes-fill_deltas,
  closed_rows-insert_local, closed_rows-insert_server, unchanged-Balanced, Balanced, bump-Balanced,
}

module _ {S : Scalars} (id : OrderId) where
  closes-observed_deltas :
      (k : OrderKey) (v : OrderView) (o : Order S)
      → Status.is_terminal v.status ≡ false
      → closes id (observed_deltas k v o)
        ≡ ite (OrderKey-discrete k (server id)) (bit (Status.is_terminal o.status)) 0
  unfolding observed_deltas closes is_close
  closes-observed_deltas k v o h = ground (
    arith,
    closes-fill_deltas id k v o,
    closes-append id (fill_deltas k v o) (order_upserted k ∷ close_deltas k o.status),
    closes-close_deltas id k o.status,
  )

  -- An open row that becomes closed exactly when the deltas report it.
  with_row-Balanced :
      (s : ProjectedState S) (k : OrderKey) (v w : OrderView) (ds : List Delta)
      → get k s.orders ≡ some v
      → is_terminal v ≡ false
      → closes id ds ≡ ite (OrderKey-discrete k (server id)) (bit (is_terminal w)) 0
      → Balanced id s (bump (with_row s k w) ds)
  with_row-Balanced s k v w ds found open_row reported =
      bump-Balanced id s (with_row s k w) ds (elim (OrderKey-discrete k (server id)) [
        | yes p ↦
            let before = closed_rows-some id s.orders {v = v} (rw p at found) in
            ground (arith, closed_rows-insert id k w s.orders, before)
        | no q ↦ ground (arith, closed_rows-insert id k w s.orders)
      ])

  observe_known-Balanced :
      (s : ProjectedState S) (v : OrderView) (o : Order S)
      → Inv s
      → get (server o.order_id) s.orders ≡ some v
      → Balanced id s (observe_known s (server o.order_id) v o)
  observe_known-Balanced s v o i found = elim (Bool-cases (is_terminal v)) [
    | inl shut ↦ rw (observe_known_closed s k v o shut) (unchanged-Balanced id s)
    | inr open_row ↦ rw (observe_known_open s k v o open_row) (
        with_row-Balanced s k v (absorbed v o) (observed_deltas k v o) found open_row (
          closes-observed_deltas k v o (sym (i.rows k v found).3 ∙ open_row)
          ∙ ap (λ b. ite (OrderKey-discrete k (server id)) (bit b) 0)
              (sym (is_terminal-absorbed v o))))
  ]
    where
      k : OrderKey
      k = server o.order_id

  -- A new row that is closed exactly when the deltas report it.
  fresh_row-Balanced :
      (s t : ProjectedState S) (oid : OrderId) (w : OrderView) (ds : List Delta)
      → get (server oid) s.orders ≡ none
      → ((oid ≢ id → closed_rows id t.orders ≡ closed_rows id s.orders)
          × (oid ≡ id → closed_rows id t.orders ≡ bit (is_terminal w)))
      → closes id ds ≡ ite (OrderKey-discrete (server oid) (server id)) (bit (is_terminal w)) 0
      → Balanced id s (bump t ds)
  fresh_row-Balanced s t oid w ds missing after reported =
      bump-Balanced id s t ds (elim (OrderKey-discrete (server oid) (server id)) [
        | yes p ↦
            let before = closed_rows-none id s.orders (rw p at missing) in
            ground (arith, after.1 (server_injective p))
        | no q ↦ ground (arith, after.0 (λ e. q (ap server e)))
      ])

  row_of_unseen :
      (s : ProjectedState S) (oid : OrderId)
      → Inv s
      → get oid s.server_index ≡ none
      → get (server oid) s.orders ≡ none
  row_of_unseen s oid i unseen = elim (Option-cases (get (server oid) s.orders)) [
    | inl e ↦ e
    | inr (v, e) ↦ absurd (none≢some (sym unseen ∙ i.routes.2 oid v e))
  ]

  observe_new-Balanced :
      (s : ProjectedState S) (o : Order S)
      → Inv s
      → get o.order_id s.server_index ≡ none
      → Balanced id s (observe_new s o)
  unfolding observe_new closes is_close
  observe_new-Balanced s o i unseen =
      let key = server o.order_id in
      let view = from_order key o in
      fresh_row-Balanced s _ o.order_id view _ (row_of_unseen s o.order_id i unseen)
        (closed_rows-insert_server id o.order_id view s.orders) (ground arith)

  pub observe_order-Balanced :
      (s : ProjectedState S) (o : Order S) {r : ProjectedState S × List Delta}
      → Inv s
      → observe_order s o ≡ some r
      → Balanced id s r
  observe_order-Balanced s o i e = elim (Option-cases (get o.order_id s.server_index)) [
    | inl unseen ↦
        subst (Balanced id s) (some_injective (sym (observe_order_new s o unseen) ∙ e))
          (observe_new-Balanced s o i unseen)
    | inr (k, seen) ↦
        let own = i.routes.0 o.order_id k seen in
        let (v, found) = i.routes.1 o.order_id k seen in
        subst (Balanced id s) (observe_order_returned s o (seen ∙ ap some own) found e)
          (observe_known-Balanced s v o i found)
  ]

  rekey-Balanced :
      (s : ProjectedState S) (n : ℕ) (sid : OrderId)
      → Inv s
      → get sid s.server_index ≡ none
      → Balanced id s (rekey s n sid)
  unfolding rekey closes is_close Status.is_terminal
  rekey-Balanced s n sid i unseen = elim (Option-cases (get (local n) s.orders)) [
    | inl missing ↦ rw (missing, rekey) (unchanged-Balanced id s)
    | inr (v, found) ↦
        let view = confirmed_view v sid in
        let after = closed_rows-insert_server id sid view (remove (local n) s.orders) in
        let waits : is_terminal view ≡ false =
          (confirmed-RowIsValid v sid).3 ∙ ap Status.is_terminal (i.rows (local n) v found).4 in
        rw (found, rekey)
          (fresh_row-Balanced s _ sid view _ (row_of_unseen s sid i unseen)
            (λ ne. after.0 ne ∙ closed_rows-remove_local id n s.orders, after.1) (ground arith))
  ]

  pub confirm-Balanced :
      (s : ProjectedState S) (n : ℕ) (sid : OrderId) → Inv s → Balanced id s (confirm s n sid)
  unfolding confirm closes is_close
  confirm-Balanced s n sid i = elim (Option-cases (get sid s.server_index)) [
    | inl unseen ↦ rw (unseen, confirm) (rekey-Balanced s n sid i unseen)
    | inr (k, seen) ↦
        rw (seen, confirm)
          (bump-Balanced id s _ _ (closed_rows-remove_local id n s.orders ∙ sym (omega arith)))
  ]

  pub submit_optimistic-Balanced :
      (s : ProjectedState S) (n : ℕ) (intent : OptimisticOrder)
      → Balanced id s (submit_optimistic s n intent).1
  unfolding submit_optimistic closes is_close
  submit_optimistic-Balanced s n intent =
      bump-Balanced id s _ _
        (closed_rows-insert_local id n (optimistic_view n intent) s.orders ∙ sym (omega arith))

  pub submit_failed-Balanced :
      (s : ProjectedState S) (k : OrderKey) (message : String)
      → IsSubmission k
      → Balanced id s (submit_failed s k message)
  unfolding submit_failed closes is_close
  submit_failed-Balanced s (server sid) message sub = absurd sub
  submit_failed-Balanced s (local n) message sub = elim (Option-cases (get (local n) s.orders)) [
    | inl missing ↦ rw (missing, submit_failed) (bump-Balanced id s s _ (omega arith))
    | inr (v, found) ↦
        rw (found, submit_failed)
          (bump-Balanced id s _ _
            (closed_rows-insert_local id n (failed_view v message) s.orders ∙ sym (omega arith)))
  ]

  pub op_submitted-Balanced :
      (s : ProjectedState S) (sid : OrderId) (kind : OpKind)
      → Inv s
      → Balanced id s (op_submitted s sid kind)
  unfolding op_submitted closes is_close closing_view is_closed
  op_submitted-Balanced s sid kind i = elim (Option-cases (get sid s.server_index)) [
    | inl unseen ↦ rw (unseen, op_submitted) (unchanged-Balanced id s)
    | inr (k, seen) ↦
        let (v, present) = i.routes.1 sid k seen in
        let row : get k s.orders ≡ some v = rw (i.routes.0 sid k seen) present in
        elim (Bool-cases (is_terminal v)) [
          | inl shut ↦
              rw (seen, op_submitted)
                (rw (row, op_submitted) (rw shut (bump-Balanced id s s _ (omega arith))))
          | inr open_row ↦
              rw (seen, op_submitted)
                (rw (row, op_submitted)
                  (rw open_row
                    (with_row-Balanced s k v (closing_view v kind) _ row open_row (ground arith))))
        ]
  ]
