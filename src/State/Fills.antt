-- ===== src/State/Fills.antt =====
-- crates/tossinvest-state/src/core/state.rs: when the difference of two filled quantities is in range,
-- and that no mutation panics then. `Decimal`'s operator `-` panics where it is not.
use mathlib.Core.Path.{subst}
use package.tossinvest_rust.Common.{
  ℕ, String, Bool, ◌≡◌, refl, ap, ◌∙◌, true, false, some, List, [], ◌∷◌, ◌++◌, inl, inr, ◌||◌,
  Option-cases, Bool-cases, if_rule, All, string_key,
}
use package.tossinvest_rust.Common.HashMap
use package.tossinvest_rust.Common.HashMap.{get, insert, remove, HashMap}
use package.tossinvest_rust.Model.Scalar.{Scalars}
use package.tossinvest_rust.Model.Orders.{OrderId, Order}
use package.tossinvest_rust.State.Event.{OrderKey, local, server, order_key_key, OpKind, Delta}
use package.tossinvest_rust.State.View.{OrderView, is_terminal, from_order, absorb}
use package.tossinvest_rust.State.Rows.{
  parse_dec, fill_fits, OptimisticOrder, absorbed, optimistic_view, confirmed_view, failed_view,
  closing_view,
}
use package.tossinvest_rust.State.Projection.{
  ProjectedState, new, bump, observe_known, observe_new, observe_order, submit_optimistic, rekey,
  confirm, submit_failed, op_submitted, update_holdings, price_tick, stop,
}
use package.tossinvest_rust.State.Projection.Observe.{
  observe_known_closed, observe_known_open, observe_order_new, observe_order_known,
}
use package.tossinvest_rust.State.Ops.{Op, step, run, IsRuntimeOp}
use package.tossinvest_rust.State.Invariant.{Inv}
use package.tossinvest_rust.State.Invariant.Runs.{step-Inv_at, new-Inv}

-- The filled quantity of an order is not negative.
abbrev pub IsMild : {S : Scalars} → Order S → Type 0
IsMild {S} o = S.ltb o.execution.filled_quantity S.zero ≡ false

-- A mutation observes only such orders.
abbrev pub IsMildOp : {S : Scalars} → Op S → Type 0
IsMildOp (Op.observe_order o) = IsMild o
IsMildOp _ = Unit

module _ (S : Scalars) where
  abbrev pub HasFill : OrderView → Type 0
  HasFill v = S.ltb (parse_dec S v.filled) S.zero ≡ false

  -- No row has a negative filled quantity.
  abbrev pub Fills : HashMap OrderKey OrderView → Type 0
  Fills orders = (k : OrderKey) (v : OrderView) → get k orders ≡ some v → HasFill v

  Fills-insert :
      (k : OrderKey) (v : OrderView) (m : HashMap OrderKey OrderView)
      → Fills m
      → HasFill v
      → Fills (insert k v m)
  Fills-insert k v m h own j w e = elim (HashMap.get-insert-cases k j v w m e) [
    | inl (p, q) ↦ subst HasFill q own
    | inr (p, q) ↦ h j w q
  ]

  Fills-remove : (k : OrderKey) (m : HashMap OrderKey OrderView) → Fills m → Fills (remove k m)
  Fills-remove k m h j w e = h j w (HashMap.get-remove-cases k j w m e).1

  optimistic-HasFill : (n : ℕ) (intent : OptimisticOrder) → HasFill (optimistic_view n intent)
  unfolding optimistic_view parse_dec
  optimistic-HasFill n intent = rw (S.parse-zero) (S.ltb_irrefl S.zero)

or_true : (b : Bool) → (b || true) ≡ true
or_true true = refl
or_true false = refl

module _ {S : Scalars} where
  absorbed-HasFill : (v : OrderView) (o : Order S) → IsMild o → HasFill S (absorbed v o)
  unfolding absorbed absorb parse_dec
  absorbed-HasFill v o h = rw (S.parse-to_string o.execution.filled_quantity) h

  from_order-HasFill : (k : OrderKey) (o : Order S) → IsMild o → HasFill S (from_order k o)
  unfolding from_order parse_dec
  from_order-HasFill k o h = rw (S.parse-to_string o.execution.filled_quantity) h

  bump-Fills :
      (s : ProjectedState S) (ds : List Delta) → Fills S s.orders → Fills S (bump s ds).0.orders
  unfolding bump
  bump-Fills s [] h = h
  bump-Fills s (d ∷ ds) h = h

  pub fill_fits-IsMild :
      (v : OrderView) (o : Order S) → HasFill S v → IsMild o → fill_fits v o ≡ true
  unfolding fill_fits
  fill_fits-IsMild v o had mild =
      elim (Bool-cases (S.ltb (parse_dec S v.filled) o.execution.filled_quantity)) [
        | inl more ↦
            rw more (S.sub_fits_nonneg o.execution.filled_quantity (parse_dec S v.filled) mild had)
        | inr less ↦ rw less refl
      ]

  observe_known-Fills :
      (s : ProjectedState S) (k : OrderKey) (v : OrderView) (o : Order S)
      → IsMild o
      → Fills S s.orders
      → Fills S (observe_known s k v o).0.orders
  observe_known-Fills s k v o mild h = elim (Bool-cases (is_terminal v)) [
    | inl shut ↦ rw (observe_known_closed s k v o shut) h
    | inr open_row ↦
        rw (observe_known_open s k v o open_row)
          (bump-Fills _ _ (Fills-insert S k (absorbed v o) s.orders h (absorbed-HasFill v o mild)))
  ]

  -- An observation of an order whose filled quantity is not negative returns.
  observe_order-Fills :
      (s : ProjectedState S) (o : Order S)
      → Inv s
      → IsMild o
      → Fills S s.orders
      → (r : ProjectedState S × List Delta) × (observe_order s o ≡ some r) × Fills S r.0.orders
  unfolding observe_new
  observe_order-Fills s o i mild h = elim (Option-cases (get o.order_id s.server_index)) [
    | inl new_id ↦ (
      observe_new s o,
      observe_order_new s o new_id,
      bump-Fills _ _ (
          Fills-insert S (server o.order_id) (from_order (server o.order_id) o) s.orders h
            (from_order-HasFill (server o.order_id) o mild)),
    )
    | inr (k, indexed) ↦
        let (v, found) = i.routes.1 o.order_id k indexed in
        let row : get k s.orders ≡ some v = rw (i.routes.0 o.order_id k indexed) found in
        (
          observe_known s k v o,
          observe_order_known s o indexed row (
              ap (λ b. is_terminal v || b) (fill_fits-IsMild v o (h k v row) mild)
              ∙ or_true (is_terminal v)),
          observe_known-Fills s k v o mild h,
        )
  ]

  rekey-Fills :
      (s : ProjectedState S) (n : ℕ) (id : OrderId)
      → Fills S s.orders
      → Fills S (rekey s n id).0.orders
  unfolding rekey confirmed_view
  rekey-Fills s n id h = elim (Option-cases (get (local n) s.orders)) [
    | inl missing ↦ rw (missing, rekey) h
    | inr (v, found) ↦
        rw (found, rekey)
          (bump-Fills _ _ (
            Fills-insert S (server id) (confirmed_view v id) (remove (local n) s.orders)
              (Fills-remove S (local n) s.orders h) (h (local n) v found)))
  ]

  confirm-Fills :
      (s : ProjectedState S) (n : ℕ) (id : OrderId)
      → Fills S s.orders
      → Fills S (confirm s n id).0.orders
  unfolding confirm
  confirm-Fills s n id h = elim (Option-cases (get id s.server_index)) [
    | inl unseen ↦ rw (unseen, confirm) (rekey-Fills s n id h)
    | inr (k, seen) ↦ rw (seen, confirm) (bump-Fills _ _ (Fills-remove S (local n) s.orders h))
  ]

  submit_failed-Fills :
      (s : ProjectedState S) (k : OrderKey) (message : String)
      → Fills S s.orders
      → Fills S (submit_failed s k message).0.orders
  unfolding submit_failed failed_view
  submit_failed-Fills s k message h = elim (Option-cases (get k s.orders)) [
    | inl missing ↦ rw (missing, submit_failed) (bump-Fills _ _ h)
    | inr (v, found) ↦
        rw (found, submit_failed)
          (bump-Fills _ _ (Fills-insert S k (failed_view v message) s.orders h (h k v found)))
  ]

  op_submitted-Fills :
      (s : ProjectedState S) (id : OrderId) (kind : OpKind)
      → Fills S s.orders
      → Fills S (op_submitted s id kind).0.orders
  unfolding op_submitted closing_view
  op_submitted-Fills s id kind h = elim (Option-cases (get id s.server_index)) [
    | inl unseen ↦ rw (unseen, op_submitted) h
    | inr (k, seen) ↦ elim (Option-cases (get k s.orders)) [
      | inl missing ↦ rw (seen, op_submitted) (bump-Fills _ _ (rw missing h))
      | inr (v, found) ↦
          rw (seen, op_submitted)
            (bump-Fills _ _ (
              rw found (
                if_rule (λ (x : ProjectedState S). Fills S x.orders) (is_terminal v) (λ _. h)
                  λ _. Fills-insert S k (closing_view v kind) s.orders h (h k v found))))
    ]
  ]

  stop-Fills : (s : ProjectedState S) → Fills S s.orders → Fills S (stop s).0.orders
  unfolding stop
  stop-Fills s h = elim (Bool-cases s.is_stopped) [
    | inl old ↦ simp old h
    | inr running ↦ simp running (bump-Fills _ _ h)
  ]

  -- From a state that keeps the invariant, and whose rows have no negative filled quantity, a mutation
  -- of the runtime that observes no such quantity returns, and keeps both.
  pub step-Fills :
      (op : Op S) (s : ProjectedState S)
      → IsMildOp op
      → Inv s
      → Fills S s.orders
      → (r : ProjectedState S × List Delta) × (step op s ≡ some r) × Fills S r.0.orders
  unfolding step update_holdings price_tick submit_optimistic
  step-Fills (Op.observe_order o) s mild i h = observe_order-Fills s o i mild h
  step-Fills (Op.submit_optimistic n intent) s mild i h = (
    _,
    refl,
    bump-Fills _ _ (
        Fills-insert S (local n) (optimistic_view n intent) s.orders h
          (optimistic-HasFill S n intent)),
  )
  step-Fills (Op.confirm n id) s mild i h = (_, refl, confirm-Fills s n id h)
  step-Fills (Op.submit_failed k message) s mild i h = (_, refl, submit_failed-Fills s k message h)
  step-Fills (Op.op_submitted id kind) s mild i h = (_, refl, op_submitted-Fills s id kind h)
  step-Fills (Op.update_holdings x) s mild i h = (_, refl, bump-Fills _ _ h)
  step-Fills (Op.price_tick p) s mild i h = (_, refl, bump-Fills _ _ h)
  step-Fills Op.stop s mild i h = (_, refl, stop-Fills s h)

  run-Fills_from :
      (ops : List (Op S)) (s : ProjectedState S)
      → All IsRuntimeOp ops
      → All IsMildOp ops
      → Inv s
      → Fills S s.orders
      → (r : ProjectedState S × List Delta) × (run ops s ≡ some r) × Inv r.0
  unfolding run
  run-Fills_from [] s own mild i h = ((s, []), refl, i)
  run-Fills_from (op ∷ ops) s own mild i h =
      let (r, stepped, h') = step-Fills op s mild.0 i h in
      let (q, ran, last) =
        run-Fills_from ops r.0 own.1 mild.1 (step-Inv_at op s r own.0 i stepped) h' in
      ((q.0, r.1 ++ q.1), rw (stepped, ran), last)

pub new-Fills : (S : Scalars) → Fills S (new S).orders
unfolding new get
new-Fills S k v e = cc

-- From the fresh state every list of mutations that the runtime makes, and in which no observed order
-- has a negative filled quantity, runs to its end without a panic, and the state reached keeps the
-- invariant.
pub run-Inv :
    {S : Scalars} (ops : List (Op S))
    → All IsRuntimeOp ops
    → All IsMildOp ops
    → (r : ProjectedState S × List Delta) × (run ops (new S) ≡ some r) × Inv r.0
run-Inv {S} ops own mild = run-Fills_from ops (new S) own mild (new-Inv S) (new-Fills S)
