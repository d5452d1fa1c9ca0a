-- ===== src/State/Pump/Kept.antt =====
-- crates/tossinvest-state/src/runtime.rs, `handle_command`: a command that is handled leaves the store
-- consistent and its snapshot current.
use mathlib.Core.Path.{subst}
use package.tossinvest_rust.Common.{
  ◌≡◌, sym, ap, Option, none, some, List, [], ◌∷◌, any, if_rule, some_injective, none≢some,
}
use package.tossinvest_rust.Common.Result.{ok, err}
use package.tossinvest_rust.Model.Scalar.{Scalars}
use package.tossinvest_rust.Model.Orders.{Order, PriceResponse}
use package.tossinvest_rust.State.Event.{local, cancel}
use package.tossinvest_rust.State.Ops.{Op, IsRuntimeOp, >>=-eq-some}
use package.tossinvest_rust.State.Store.{apply}
use package.tossinvest_rust.State.Store.Laws.{InStep, apply-InStep}
use package.tossinvest_rust.State.Pump.{
  Pump, Command, Task, is_stale, mark_invalidation, mutate, observe, observe_all, tick_all,
  handle_command, spawning,
}
use package.tossinvest_rust.State.Pump.Total.{start_sweeping-store}

pub spawning-some :
    {S : Scalars} (m : Option (Pump S)) (ts : List (Task S)) (p' : Pump S) (ts' : List (Task S))
    → spawning m ts ≡ some (p', ts')
    → (m ≡ some p') × (ts ≡ ts')
spawning-some none ts p' ts' h = absurd (none≢some h)
spawning-some (some p) ts p' ts' h =
    (ap (λ r. some r.0) (some_injective h), ap (λ r. r.1) (some_injective h))

module _ {S : Scalars} where
  pub mutate-InStep :
      (op : Op S) (p p' : Pump S)
      → IsRuntimeOp op
      → InStep p.store
      → mutate op p ≡ some p'
      → InStep p'.store
  unfolding mutate
  mutate-InStep op p p' own h ran =
      let (q, applied, rest) = >>=-eq-some (apply p.store op) _ ran in
      subst (λ (x : Pump S). InStep x.store) (some_injective rest)
        (apply-InStep op p.store q h own applied)

  pub observe-InStep :
      (o : Order S) (p p' : Pump S) → InStep p.store → observe o p ≡ some p' → InStep p'.store
  unfolding observe mark_invalidation
  observe-InStep o p p' h ran =
      let (q, applied, rest) = >>=-eq-some (apply p.store (Op.observe_order o)) _ ran in
      let kept = apply-InStep (Op.observe_order o) p.store q h tt applied in
      subst (λ (x : Pump S). InStep x.store) (some_injective rest)
        (if_rule (λ (x : Pump S). InStep x.store) (any is_stale q.1) (λ _. kept) (λ _. kept))

  observe_all-InStep :
      (os : List (Order S)) (p p' : Pump S)
      → InStep p.store
      → observe_all os p ≡ some p'
      → InStep p'.store
  unfolding observe_all
  observe_all-InStep [] p p' h ran = subst (λ (x : Pump S). InStep x.store) (some_injective ran) h
  observe_all-InStep (o ∷ os) p p' h ran =
      let (q, first, rest) = >>=-eq-some (observe o p) _ ran in
      observe_all-InStep os q p' (observe-InStep o p q h first) rest

  tick_all-InStep :
      (xs : List (PriceResponse S)) (p p' : Pump S)
      → InStep p.store
      → tick_all xs p ≡ some p'
      → InStep p'.store
  unfolding tick_all
  tick_all-InStep [] p p' h ran = subst (λ (x : Pump S). InStep x.store) (some_injective ran) h
  tick_all-InStep (x ∷ xs) p p' h ran =
      let (q, first, rest) = >>=-eq-some (mutate (Op.price_tick x) p) _ ran in
      tick_all-InStep xs q p' (mutate-InStep (Op.price_tick x) p q tt h first) rest

  pub handle_command-InStep :
      (c : Command S) (p p' : Pump S) (ts : List (Task S))
      → InStep p.store
      → handle_command c p ≡ some (p', ts)
      → InStep p'.store
  unfolding handle_command
  handle_command-InStep Command.start_sweep p p' ts h ran =
      subst (λ (r : Pump S × List (Task S)). InStep r.0.store) (some_injective ran)
        (subst InStep (sym (start_sweeping-store p)) h)
  handle_command-InStep (Command.sweep_done orders dropped) p p' ts h ran =
      let (q, first, rest) =
        >>=-eq-some (observe_all orders p) _ (spawning-some _ [] p' ts ran).0 in
      observe_all-InStep dropped q p' (observe_all-InStep orders p q h first) rest
  handle_command-InStep (Command.observed o) p p' ts h ran =
      observe-InStep o p p' h (spawning-some _ [] p' ts ran).0
  handle_command-InStep (Command.submit n intent req) p p' ts h ran =
      mutate-InStep (Op.submit_optimistic n intent) p p' tt h (spawning-some _ _ p' ts ran).0
  handle_command-InStep (Command.submit_result n (ok id)) p p' ts h ran =
      mutate-InStep (Op.confirm n id) p p' tt h (spawning-some _ [] p' ts ran).0
  handle_command-InStep (Command.submit_result n (err message)) p p' ts h ran =
      mutate-InStep (Op.submit_failed (local n) message) p p' tt h (spawning-some _ [] p' ts ran).0
  handle_command-InStep (Command.cancel_command id) p p' ts h ran =
      mutate-InStep (Op.op_submitted id cancel) p p' tt h (spawning-some _ _ p' ts ran).0
  handle_command-InStep (Command.prices xs) p p' ts h ran =
      tick_all-InStep xs p p' h (spawning-some _ [] p' ts ran).0
  handle_command-InStep (Command.refresh target) p p' ts h ran =
      subst (λ (r : Pump S × List (Task S)). InStep r.0.store) (some_injective ran) h
  handle_command-InStep Command.demand_changed p p' ts h ran =
      subst (λ (r : Pump S × List (Task S)). InStep r.0.store) (some_injective ran) h
  handle_command-InStep Command.wake p p' ts h ran =
      subst (λ (r : Pump S × List (Task S)). InStep r.0.store) (some_injective ran) h
