-- ===== src/State/Invariant/Runs.antt =====
-- crates/tossinvest-state/src/core/state.rs: the invariant along the runs of the mutations that the
-- runtime makes.
use mathlib.Core.Path.{subst}
use package.tossinvest_rust.Common.{◌≡◌, refl, some, none, some_injective, List}
use package.tossinvest_rust.Common.HashMap.{get}
use package.tossinvest_rust.Model.Scalar.{Scalars}
use package.tossinvest_rust.State.Event.{OrderKey, order_key_key, Delta}
use package.tossinvest_rust.State.Projection.{ProjectedState, new, update_holdings, price_tick}
use package.tossinvest_rust.State.Ops.{Op, step, IsRuntimeOp}
use package.tossinvest_rust.State.Invariant.{Inv}
use package.tossinvest_rust.State.Invariant.Preserved.{
  bump-Inv, observe_order-Inv, submit_optimistic-Inv, confirm-Inv, submit_failed-Inv,
  op_submitted-Inv, stop-Inv,
}

-- A mutation of the runtime that returns keeps the invariant.
pub step-Inv_at :
    {S : Scalars} (op : Op S) (s : ProjectedState S) (r : ProjectedState S × List Delta)
    → IsRuntimeOp op
    → Inv s
    → step op s ≡ some r
    → Inv r.0
unfolding step update_holdings price_tick
step-Inv_at (Op.observe_order o) s r h i e = observe_order-Inv s o r i e
step-Inv_at (Op.submit_optimistic n intent) s r h i e =
    subst (λ (x : ProjectedState _ × List Delta). Inv x.0) (some_injective e)
      (submit_optimistic-Inv s n intent i)
step-Inv_at (Op.confirm n id) s r h i e =
    subst (λ (x : ProjectedState _ × List Delta). Inv x.0) (some_injective e) (confirm-Inv s n id i)
step-Inv_at (Op.submit_failed k message) s r h i e =
    subst (λ (x : ProjectedState _ × List Delta). Inv x.0) (some_injective e)
      (submit_failed-Inv s k message h i)
step-Inv_at (Op.op_submitted id kind) s r h i e =
    subst (λ (x : ProjectedState _ × List Delta). Inv x.0) (some_injective e)
      (op_submitted-Inv s id kind i)
step-Inv_at (Op.update_holdings x) s r h i e =
    subst (λ (x : ProjectedState _ × List Delta). Inv x.0) (some_injective e)
      (bump-Inv _ _ (record { rows = i.rows; routes = i.routes }))
step-Inv_at (Op.price_tick p) s r h i e =
    subst (λ (x : ProjectedState _ × List Delta). Inv x.0) (some_injective e)
      (bump-Inv _ _ (record { rows = i.rows; routes = i.routes }))
step-Inv_at Op.stop s r h i e =
    subst (λ (x : ProjectedState _ × List Delta). Inv x.0) (some_injective e) (stop-Inv s i)

pub new-Inv : (S : Scalars) → Inv (new S)
unfolding new get
new-Inv S = record { rows = λ k v e. cc; routes = (λ id k e. cc, λ id k e. cc, λ id v e. cc) }

pub new-orders : (S : Scalars) (k : OrderKey) → get k (new S).orders ≡ none
unfolding new get
new-orders S k = refl
