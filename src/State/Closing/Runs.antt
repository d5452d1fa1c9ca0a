-- ===== src/State/Closing/Runs.antt =====
-- crates/tossinvest-state/src/core/state.rs: closes reported and rows closed, along runs.
use package.tossinvest_rust.Common.{
  ◌≤◌, ◌≡◌, some, List, [], ◌∷◌, All, arith, inl, inr, Bool-cases, some_injective,
}
use mathlib.Core.Path.{subst}
use package.tossinvest_rust.Common.HashMap.{HashMap}
use package.tossinvest_rust.Model.Scalar.{Scalars}
use package.tossinvest_rust.Model.Orders.{OrderId}
use package.tossinvest_rust.State.Event.{OrderKey, server, Delta}
use package.tossinvest_rust.State.View.{OrderView}
use package.tossinvest_rust.State.Projection.{
  ProjectedState, new, update_holdings, price_tick, stop,
}
use package.tossinvest_rust.State.Ops.{Op, step, run, run_cons, IsRuntimeOp}
use package.tossinvest_rust.State.Invariant.{Inv}
use package.tossinvest_rust.State.Invariant.Runs.{step-Inv_at, new-Inv, new-orders}
use package.tossinvest_rust.State.Closing.{
  is_close, closes, closed_rows, closes-append, closed_rows-none, bump-Balanced, unchanged-Balanced,
  Balanced,
}
use package.tossinvest_rust.State.Closing.Steps.{
  observe_order-Balanced, confirm-Balanced, submit_optimistic-Balanced, submit_failed-Balanced,
  op_submitted-Balanced,
}

module _ {S : Scalars} (id : OrderId) where
  stop-Balanced : (s : ProjectedState S) → Balanced id s (stop s)
  unfolding stop closes is_close
  stop-Balanced s = elim (Bool-cases s.is_stopped) [
    | inl old ↦ simp old (unchanged-Balanced id s)
    | inr running ↦ simp running (bump-Balanced id s _ _ (omega arith))
  ]

  step-Balanced :
      (op : Op S) (s : ProjectedState S) (r : ProjectedState S × List Delta)
      → IsRuntimeOp op
      → Inv s
      → step op s ≡ some r
      → Balanced id s r
  unfolding step update_holdings price_tick closes is_close
  step-Balanced (Op.observe_order o) s r h i e = observe_order-Balanced id s o i e
  step-Balanced (Op.submit_optimistic n intent) s r h i e =
      subst (Balanced id s) (some_injective e) (submit_optimistic-Balanced id s n intent)
  step-Balanced (Op.confirm n sid) s r h i e =
      subst (Balanced id s) (some_injective e) (confirm-Balanced id s n sid i)
  step-Balanced (Op.submit_failed k message) s r h i e =
      subst (Balanced id s) (some_injective e) (submit_failed-Balanced id s k message h)
  step-Balanced (Op.op_submitted sid kind) s r h i e =
      subst (Balanced id s) (some_injective e) (op_submitted-Balanced id s sid kind i)
  step-Balanced (Op.update_holdings x) s r h i e =
      subst (Balanced id s) (some_injective e) (bump-Balanced id s _ _ (omega arith))
  step-Balanced (Op.price_tick p) s r h i e =
      subst (Balanced id s) (some_injective e) (bump-Balanced id s _ _ (omega arith))
  step-Balanced Op.stop s r h i e = subst (Balanced id s) (some_injective e) (stop-Balanced s)

  pub run-Balanced :
      (ops : List (Op S)) (s : ProjectedState S) (r : ProjectedState S × List Delta)
      → All IsRuntimeOp ops
      → Inv s
      → run ops s ≡ some r
      → Balanced id s r
  unfolding run
  run-Balanced [] s r h i e = subst (Balanced id s) (some_injective e) (unchanged-Balanced id s)
  run-Balanced (op ∷ ops) s r h i e =
      let (q, p, stepped, ran, joined) = run_cons op ops s e in
      let first = step-Balanced op s q h.0 i stepped in
      let rest = run-Balanced ops q.0 p h.1 (step-Inv_at op s q h.0 i stepped) ran in
      subst (Balanced id s) joined (omega (arith, closes-append id q.1 p.1, first, rest))

closed_rows-le-one :
    (id : OrderId) (orders : HashMap OrderKey OrderView) → closed_rows id orders ≤ 1
unfolding closed_rows
closed_rows-le-one id orders = ground arith

-- In every run of runtime mutations from the fresh state, the number of `OrderClosed` deltas sent
-- for an order is 1 if the order's row is closed at the end and 0 if it is not, or has no row: a
-- close is reported exactly once.
pub closes-run :
    {S : Scalars} (ops : List (Op S)) (id : OrderId) (r : ProjectedState S × List Delta)
    → All IsRuntimeOp ops
    → run ops (new S) ≡ some r
    → (closes id r.1 ≡ closed_rows id r.0.orders) × (closes id r.1 ≤ 1)
closes-run {S} ops id r h e =
    let balance = run-Balanced id ops (new S) r h (new-Inv S) e in
    let start = closed_rows-none id (new S).orders (new-orders S (server id)) in
    (omega (arith, balance, start), omega (arith, balance, start, closed_rows-le-one id r.0.orders))
