-- ===== src/State/Ops.antt =====
-- crates/tossinvest-state/src/core/state.rs: the mutations of the projected state as one type, and
-- their runs. The store applies them one after the other.
use package.tossinvest_rust.Common.{
  ℕ, String, Option, some_injective, ◌≡◌, refl, none, some, List, [], ◌∷◌, ◌++◌,
}
use package.tossinvest_rust.Model.Scalar.{Scalars}
use package.tossinvest_rust.Model.Orders.{OrderId, Order, PriceResponse}
use package.tossinvest_rust.Model.Account.{HoldingsOverview}
use package.tossinvest_rust.State.Event.{OrderKey, local, server, OpKind, Delta}
use package.tossinvest_rust.State.Rows.{OptimisticOrder}
use package.tossinvest_rust.State.Projection
use package.tossinvest_rust.State.Projection.{ProjectedState}

pub data Op (S : Scalars) : Type 0 where
  observe_order : Order S → Op S
  submit_optimistic : ℕ → OptimisticOrder → Op S
  confirm : ℕ → OrderId → Op S
  submit_failed : OrderKey → String → Op S
  op_submitted : OrderId → OpKind → Op S
  update_holdings : HoldingsOverview S → Op S
  price_tick : PriceResponse S → Op S
  stop : Op S

infixl 5 ◌>>=◌
abbrev pub ◌>>=◌ {ℓ κ} : {A : Type ℓ} {B : Type κ} → Option A → (A → Option B) → Option B
none >>= f = none
some a >>= f = f a

-- A failed submission is reported under its local key, as the runtime does.
abbrev pub IsSubmission : OrderKey → Type 0
IsSubmission (local _) = Unit
IsSubmission (server _) = ⊥

pub >>=-eq-some {ℓ κ} :
    {A : Type ℓ} {B : Type κ} (m : Option A) (f : A → Option B) {b : B}
    → (m >>= f) ≡ some b
    → (a : A) × (m ≡ some a) × (f a ≡ some b)
>>=-eq-some none f h = cc
>>=-eq-some (some a) f h = (a, refl, h)

module _ {S : Scalars} where
  unfoldable pub step : Op S → ProjectedState S → Option (ProjectedState S × List Delta)
  step (observe_order o) s = Projection.observe_order s o
  step (submit_optimistic n intent) s = some ((Projection.submit_optimistic s n intent).1)
  step (confirm n id) s = some (Projection.confirm s n id)
  step (submit_failed key message) s = some (Projection.submit_failed s key message)
  step (op_submitted id kind) s = some (Projection.op_submitted s id kind)
  step (update_holdings h) s = some (Projection.update_holdings s h)
  step (price_tick p) s = some (Projection.price_tick s p)
  step stop s = some (Projection.stop s)

  -- The state after a list of mutations, and the deltas of all of them in order.
  unfoldable pub run : List (Op S) → ProjectedState S → Option (ProjectedState S × List Delta)
  run [] s = some (s, [])
  run (op ∷ ops) s = do (s', ds) ← step op s; (s'', es) ← run ops s'; some (s'', ds ++ es)

  abbrev pub IsRuntimeOp : Op S → Type 0
  IsRuntimeOp (submit_failed key _) = IsSubmission key
  IsRuntimeOp _ = Unit

module _ {S : Scalars} where
  -- A run that returns is its first mutation and the run of the others.
  pub run_cons :
      (op : Op S) (ops : List (Op S)) (s : ProjectedState S) {r : ProjectedState S × List Delta}
      → run (op ∷ ops) s ≡ some r
      → (q p : ProjectedState S × List Delta) × (step op s ≡ some q)
        × (run ops q.0 ≡ some p)
        × ((p.0, q.1 ++ p.1) ≡ r)
  unfolding run
  run_cons op ops s h =
      let (q, stepped, rest) = >>=-eq-some (step op s) _ h in
      let (p, ran, joined) = >>=-eq-some (run ops q.0) _ rest in
      (q, p, stepped, ran, some_injective joined)
