-- ===== src/State/Latch.antt =====
-- crates/tossinvest-state/src/core/state.rs: a closed row stays as it is, whatever arrives later.
use package.tossinvest_rust.Common.{
  none≢some, ℕ, String, ◌≡◌, ◌≢◌, sym, ◌∙◌, true, false, none, some, List, [], ◌∷◌, All, arith, inl,
  inr, Option-cases, Bool-cases, some_injective, string_key,
}
use mathlib.Core.Path.{subst}
use package.tossinvest_rust.Common.HashMap
use package.tossinvest_rust.Common.HashMap.{get}
use package.tossinvest_rust.Model.Scalar.{Scalars}
use package.tossinvest_rust.Model.Orders.{OrderId, Order}
use package.tossinvest_rust.State.Event.{OrderKey, local, server, order_key_key, OpKind, Delta}
use package.tossinvest_rust.State.View.{OrderView, is_terminal}
use package.tossinvest_rust.State.Rows.{absorbed, optimistic_view, failed_view, closing_view}
use package.tossinvest_rust.State.Projection.{
  ProjectedState, bump, observe_new, observe_order, submit_optimistic, rekey, confirm,
  submit_failed, op_submitted, update_holdings, price_tick, stop,
}
use package.tossinvest_rust.State.Projection.Observe.{
  with_row, observed_deltas, observe_known_closed, observe_known_open, observe_order_new,
  observe_order_returned,
}
use package.tossinvest_rust.State.Ops.{Op, step, run, run_cons, IsRuntimeOp, IsSubmission}
use package.tossinvest_rust.State.Invariant.{Inv, local_ne_server, server_injective}
use package.tossinvest_rust.State.Invariant.Runs.{step-Inv_at}
use package.tossinvest_rust.State.Closing.{bump-orders}

module _ {S : Scalars} (id : OrderId) (v : OrderView) where
  abbrev Holds : ProjectedState S × List Delta → Type 0
  Holds r = get (server id) r.0.orders ≡ some v

  bump-Holds :
      (s : ProjectedState S) (ds : List Delta)
      → get (server id) s.orders ≡ some v
      → Holds (bump s ds)
  bump-Holds s ds h = rw (bump-orders s ds) h

  -- A write at another key.
  with_row-Holds :
      (s : ProjectedState S) (k : OrderKey) (w : OrderView) (ds : List Delta)
      → k ≢ server id
      → get (server id) s.orders ≡ some v
      → Holds (bump (with_row s k w) ds)
  with_row-Holds s k w ds ne h =
      bump-Holds (with_row s k w) ds (HashMap.get-insert_ne k (server id) w s.orders ne ∙ h)

  -- A row that is still open is another row.
  ne_of_open :
      (s : ProjectedState S) (k : OrderKey) (w : OrderView)
      → is_terminal v ≡ true
      → get (server id) s.orders ≡ some v
      → get k s.orders ≡ some w
      → is_terminal w ≡ false
      → k ≢ server id
  ne_of_open s k w shut h found open_row e =
      let same : v ≡ w = some_injective (sym h ∙ rw (← e) found) in ground arith

  module _ (s : ProjectedState S) (i : Inv s) (shut : is_terminal v ≡ true)
      (h : get (server id) s.orders ≡ some v) where
    ne_of_unseen : (oid : OrderId) → get oid s.server_index ≡ none → server oid ≢ server id
    ne_of_unseen oid unseen e =
        let routed : get oid s.server_index ≡ some (server id) =
          rw (server_injective e) (i.routes.2 id v h) in
        none≢some (sym unseen ∙ routed)

    observe_order-Holds :
        (o : Order S) (r : ProjectedState S × List Delta) → observe_order s o ≡ some r → Holds r
    unfolding observe_new
    observe_order-Holds o r e = elim (Option-cases (get o.order_id s.server_index)) [
      | inl unseen ↦ subst Holds (some_injective (sym (observe_order_new s o unseen) ∙ e)) (
          bump-Holds _ _ (
            HashMap.get-insert_ne (server o.order_id) (server id) _ s.orders
              (ne_of_unseen o.order_id unseen)
            ∙ h))
      | inr (k, seen) ↦
          let (w, present) = i.routes.1 o.order_id k seen in
          let row : get k s.orders ≡ some w = rw (i.routes.0 o.order_id k seen) present in
          subst Holds (observe_order_returned s o seen row e) (elim (Bool-cases (is_terminal w)) [
            | inl closed_row ↦ rw (observe_known_closed s k w o closed_row) h
            | inr open_row ↦ rw (observe_known_open s k w o open_row) (
                with_row-Holds s k (absorbed w o) (observed_deltas k w o)
                  (ne_of_open s k w shut h row open_row) h)
          ])
    ]

    rekey-Holds : (n : ℕ) (sid : OrderId) → get sid s.server_index ≡ none → Holds (rekey s n sid)
    unfolding rekey
    rekey-Holds n sid unseen = elim (Option-cases (get (local n) s.orders)) [
      | inl missing ↦ rw (missing, rekey) h
      | inr (w, found) ↦
          rw (found, rekey)
            (bump-Holds _ _ (
              HashMap.get-insert_ne (server sid) (server id) _ _ (ne_of_unseen sid unseen)
              ∙ HashMap.get-remove_ne (local n) (server id) s.orders local_ne_server
              ∙ h))
    ]

    confirm-Holds : (n : ℕ) (sid : OrderId) → Holds (confirm s n sid)
    unfolding confirm
    confirm-Holds n sid = elim (Option-cases (get sid s.server_index)) [
      | inl unseen ↦ rw (unseen, confirm) (rekey-Holds n sid unseen)
      | inr (k, seen) ↦
          rw (seen, confirm)
            (bump-Holds _ _
              (HashMap.get-remove_ne (local n) (server id) s.orders local_ne_server ∙ h))
    ]

    submit_failed-Holds :
        (k : OrderKey) (message : String) → IsSubmission k → Holds (submit_failed s k message)
    unfolding submit_failed
    submit_failed-Holds (server sid) message sub = absurd sub
    submit_failed-Holds (local n) message sub = elim (Option-cases (get (local n) s.orders)) [
      | inl missing ↦ rw (missing, submit_failed) (bump-Holds s _ h)
      | inr (w, found) ↦
          rw (found, submit_failed)
            (with_row-Holds s (local n) (failed_view w message) _ local_ne_server h)
    ]

    op_submitted-Holds : (sid : OrderId) (kind : OpKind) → Holds (op_submitted s sid kind)
    unfolding op_submitted
    op_submitted-Holds sid kind = elim (Option-cases (get sid s.server_index)) [
      | inl unseen ↦ rw (unseen, op_submitted) h
      | inr (k, seen) ↦
          let (w, present) = i.routes.1 sid k seen in
          let row : get k s.orders ≡ some w = rw (i.routes.0 sid k seen) present in
          elim (Bool-cases (is_terminal w)) [
            | inl closed_row ↦
                rw (seen, op_submitted) (rw (row, op_submitted) (rw closed_row (bump-Holds s _ h)))
            | inr open_row ↦
                rw (seen, op_submitted)
                  (rw (row, op_submitted)
                    (rw open_row (
                      with_row-Holds s k (closing_view w kind) _
                        (ne_of_open s k w shut h row open_row) h)))
          ]
    ]

    stop-Holds : Holds (stop s)
    unfolding stop
    stop-Holds = elim (Bool-cases s.is_stopped) [
      | inl old ↦ simp old h
      | inr running ↦ simp running (bump-Holds _ _ h)
    ]

    step-Holds :
        (op : Op S) (r : ProjectedState S × List Delta)
        → IsRuntimeOp op
        → step op s ≡ some r
        → Holds r
    unfolding step update_holdings price_tick submit_optimistic
    step-Holds (Op.observe_order o) r sub e = observe_order-Holds o r e
    step-Holds (Op.submit_optimistic n intent) r sub e =
        subst Holds (some_injective e)
          (with_row-Holds s (local n) (optimistic_view n intent) _ local_ne_server h)
    step-Holds (Op.confirm n sid) r sub e = subst Holds (some_injective e) (confirm-Holds n sid)
    step-Holds (Op.submit_failed k message) r sub e =
        subst Holds (some_injective e) (submit_failed-Holds k message sub)
    step-Holds (Op.op_submitted sid kind) r sub e =
        subst Holds (some_injective e) (op_submitted-Holds sid kind)
    step-Holds (Op.update_holdings x) r sub e = subst Holds (some_injective e) (bump-Holds _ _ h)
    step-Holds (Op.price_tick p) r sub e = subst Holds (some_injective e) (bump-Holds _ _ h)
    step-Holds Op.stop r sub e = subst Holds (some_injective e) stop-Holds

-- Once the row of a server id is closed, every run of runtime mutations from a state that keeps
-- the invariant leaves it exactly as it is: no field changes, whatever is observed late or twice.
pub run_latched :
    {S : Scalars} (ops : List (Op S)) (s : ProjectedState S) (r : ProjectedState S × List Delta)
    (id : OrderId) (v : OrderView)
    → Inv s
    → All IsRuntimeOp ops
    → get (server id) s.orders ≡ some v
    → is_terminal v ≡ true
    → run ops s ≡ some r
    → get (server id) r.0.orders ≡ some v
unfolding run
run_latched [] s r id v i sub h shut e = subst (Holds id v) (some_injective e) h
run_latched (op ∷ ops) s r id v i sub h shut e =
    let (q, p, stepped, ran, joined) = run_cons op ops s e in
    subst (Holds id v) joined (
      run_latched ops q.0 p id v (step-Inv_at op s q sub.0 i stepped) sub.1
        (step-Holds id v s i shut h op q sub.0 stepped) shut ran)
