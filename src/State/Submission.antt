-- ===== src/State/Submission.antt =====
-- crates/tossinvest-state/src/core/state.rs: the row of a submission that waits for its answer, under
-- the mutations that are not about it.
use mathlib.Core.Path.{subst}
use package.tossinvest_rust.Common.{
  ℕ, String, ◌≡◌, ◌≢◌, sym, ◌∙◌, some, List, inl, inr, Option-cases, Bool-cases, some_injective,
  string_key,
}
use package.tossinvest_rust.Common.HashMap
use package.tossinvest_rust.Common.HashMap.{get}
use package.tossinvest_rust.Model.Scalar.{Scalars}
use package.tossinvest_rust.Model.Orders.{OrderId, Order}
use package.tossinvest_rust.State.Event.{OrderKey, local, server, order_key_key, OpKind, Delta}
use package.tossinvest_rust.State.View.{OrderView, is_terminal}
use package.tossinvest_rust.State.Rows.{absorbed, failed_view, closing_view, optimistic_view}
use package.tossinvest_rust.State.Projection.{
  ProjectedState, bump, observe_new, observe_order, submit_optimistic, rekey, confirm,
  submit_failed, op_submitted, update_holdings, price_tick, stop,
}
use package.tossinvest_rust.State.Projection.Observe.{
  with_row, observed_deltas, observe_known_closed, observe_known_open, observe_order_new,
  observe_order_returned,
}
use package.tossinvest_rust.State.Ops.{Op, step}
use package.tossinvest_rust.State.Invariant.{Inv}
use package.tossinvest_rust.State.Closing.{bump-orders}

pub server_ne_local : {id : OrderId} {n : ℕ} → server id ≢ local n
server_ne_local e = cc

local_injective : {m n : ℕ} → local m ≡ local n → m ≡ n
local_injective e = cc

-- The mutations of other submissions and of orders that have a server id.
abbrev pub IsElsewhere : {S : Scalars} → ℕ → Op S → Type 0
IsElsewhere n (Op.submit_optimistic m intent) = m ≢ n
IsElsewhere n (Op.confirm m sid) = m ≢ n
IsElsewhere n (Op.submit_failed (local m) message) = m ≢ n
IsElsewhere n (Op.submit_failed (server sid) message) = ⊥
IsElsewhere n _ = Unit

module _ {S : Scalars} (n : ℕ) (v : OrderView) (s : ProjectedState S) (i : Inv s)
    (h : get (local n) s.orders ≡ some v) where
  abbrev Holds : ProjectedState S × List Delta → Type 0
  Holds r = get (local n) r.0.orders ≡ some v

  bump-Holds :
      (t : ProjectedState S) (ds : List Delta) → get (local n) t.orders ≡ some v → Holds (bump t ds)
  bump-Holds t ds held = rw (bump-orders t ds) held

  with_row-Holds :
      (k : OrderKey) (w : OrderView) (ds : List Delta)
      → k ≢ local n
      → Holds (bump (with_row s k w) ds)
  with_row-Holds k w ds ne =
      bump-Holds (with_row s k w) ds (HashMap.get-insert_ne k (local n) w s.orders ne ∙ h)

  -- The index leads to rows of server ids.
  routed_ne : (oid : OrderId) (k : OrderKey) → get oid s.server_index ≡ some k → k ≢ local n
  routed_ne oid k seen e = server_ne_local (sym (i.routes.0 oid k seen) ∙ e)

  observe_order-Holds :
      (o : Order S) (r : ProjectedState S × List Delta) → observe_order s o ≡ some r → Holds r
  unfolding observe_new
  observe_order-Holds o r e = elim (Option-cases (get o.order_id s.server_index)) [
    | inl unseen ↦ subst Holds (some_injective (sym (observe_order_new s o unseen) ∙ e)) (
        bump-Holds _ _
          (HashMap.get-insert_ne (server o.order_id) (local n) _ s.orders server_ne_local ∙ h))
    | inr (k, seen) ↦
        let (w, present) = i.routes.1 o.order_id k seen in
        let row : get k s.orders ≡ some w = rw (i.routes.0 o.order_id k seen) present in
        subst Holds (observe_order_returned s o seen row e) (elim (Bool-cases (is_terminal w)) [
          | inl closed_row ↦ rw (observe_known_closed s k w o closed_row) h
          | inr open_row ↦ rw (observe_known_open s k w o open_row) (
              with_row-Holds k (absorbed w o) (observed_deltas k w o) (routed_ne o.order_id k seen))
        ])
  ]

  rekey-Holds : (m : ℕ) (sid : OrderId) → m ≢ n → Holds (rekey s m sid)
  unfolding rekey
  rekey-Holds m sid other = elim (Option-cases (get (local m) s.orders)) [
    | inl missing ↦ rw (missing, rekey) h
    | inr (w, found) ↦
        rw (found, rekey)
          (bump-Holds _ _ (
            HashMap.get-insert_ne (server sid) (local n) _ _ server_ne_local
            ∙ HashMap.get-remove_ne (local m) (local n) s.orders (λ e. other (local_injective e))
            ∙ h))
  ]

  confirm-Holds : (m : ℕ) (sid : OrderId) → m ≢ n → Holds (confirm s m sid)
  unfolding confirm
  confirm-Holds m sid other = elim (Option-cases (get sid s.server_index)) [
    | inl unseen ↦ rw (unseen, confirm) (rekey-Holds m sid other)
    | inr (k, seen) ↦
        rw (seen, confirm)
          (bump-Holds _ _ (
            HashMap.get-remove_ne (local m) (local n) s.orders (λ e. other (local_injective e))
            ∙ h))
  ]

  submit_failed-Holds :
      (m : ℕ) (message : String) → m ≢ n → Holds (submit_failed s (local m) message)
  unfolding submit_failed
  submit_failed-Holds m message other = elim (Option-cases (get (local m) s.orders)) [
    | inl missing ↦ rw (missing, submit_failed) (bump-Holds s _ h)
    | inr (w, found) ↦
        rw (found, submit_failed)
          (with_row-Holds (local m) (failed_view w message) _ (λ e. other (local_injective e)))
  ]

  op_submitted-Holds : (sid : OrderId) (kind : OpKind) → Holds (op_submitted s sid kind)
  unfolding op_submitted
  op_submitted-Holds sid kind = elim (Option-cases (get sid s.server_index)) [
    | inl unseen ↦ rw (unseen, op_submitted) h
    | inr (k, seen) ↦
        let (w, present) = i.routes.1 sid k seen in
        let row : get k s.orders ≡ some w = rw (i.routes.0 sid k seen) present in
        elim (Bool-cases (is_terminal w)) [
          | inl closed_row ↦
              rw (seen, op_submitted) (rw (row, op_submitted) (rw closed_row (bump-Holds s _ h)))
          | inr open_row ↦
              rw (seen, op_submitted)
                (rw (row, op_submitted)
                  (rw open_row (with_row-Holds k (closing_view w kind) _ (routed_ne sid k seen))))
        ]
  ]

  stop-Holds : Holds (stop s)
  unfolding stop
  stop-Holds = elim (Bool-cases s.is_stopped) [
    | inl old ↦ simp old h
    | inr running ↦ simp running (bump-Holds _ _ h)
  ]

  -- A mutation elsewhere leaves the row as it is.
  pub step-Holds :
      (op : Op S) (r : ProjectedState S × List Delta)
      → IsElsewhere n op
      → step op s ≡ some r
      → get (local n) r.0.orders ≡ some v
  unfolding step update_holdings price_tick submit_optimistic
  step-Holds (Op.observe_order o) r other e = observe_order-Holds o r e
  step-Holds (Op.submit_optimistic m intent) r other e =
      subst Holds (some_injective e)
        (with_row-Holds (local m) (optimistic_view m intent) _ (λ e'. other (local_injective e')))
  step-Holds (Op.confirm m sid) r other e =
      subst Holds (some_injective e) (confirm-Holds m sid other)
  step-Holds (Op.submit_failed (local m) message) r other e =
      subst Holds (some_injective e) (submit_failed-Holds m message other)
  step-Holds (Op.submit_failed (server sid) message) r other e = absurd other
  step-Holds (Op.op_submitted sid kind) r other e =
      subst Holds (some_injective e) (op_submitted-Holds sid kind)
  step-Holds (Op.update_holdings x) r other e = subst Holds (some_injective e) (bump-Holds _ _ h)
  step-Holds (Op.price_tick p) r other e = subst Holds (some_injective e) (bump-Holds _ _ h)
  step-Holds Op.stop r other e = subst Holds (some_injective e) stop-Holds
