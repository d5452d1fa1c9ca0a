-- ===== src/State/System/Commands.antt =====
-- crates/tossinvest-state/src/runtime.rs, `handle_command`: what a command does to the row of a
-- submission that waits for its answer.
use mathlib.Core.Path.{subst}
use package.tossinvest_rust.Common.{
  ℕ, ◌+◌, ◌≡◌, ◌≢◌, refl, sym, ap, true, false, ◌&&◌, some, List, [], ◌∷◌, any, ltb, arith, sum,
  sum-append, if_rule, some_injective, string_key,
}
use package.tossinvest_rust.Common.Result.{ok, err}
use package.tossinvest_rust.Common.HashMap
use package.tossinvest_rust.Common.HashMap.{get, keys}
use package.tossinvest_rust.Model.Scalar.{Scalars}
use package.tossinvest_rust.Model.Orders.{Order, PriceResponse}
use package.tossinvest_rust.Model.Requests.{OrderCreateRequest}
use package.tossinvest_rust.State.Event.{local, cancel, order_key_key}
use package.tossinvest_rust.State.View.{OrderView}
use package.tossinvest_rust.State.Rows.{OptimisticOrder, optimistic_view}
use package.tossinvest_rust.State.Projection.{submit_optimistic, bump}
use package.tossinvest_rust.State.Ops.{Op, step, >>=-eq-some}
use package.tossinvest_rust.State.Submission.{IsElsewhere, step-Holds}
use package.tossinvest_rust.State.Store.{Store, apply}
use package.tossinvest_rust.State.Store.Laws.{InStep}
use package.tossinvest_rust.State.Pump.{
  Pump, Command, Task, is_stale, mark_invalidation, mutate, observe, observe_all, tick_all,
  handle_command, start_sweeping, take_invalidation, spawn_prices,
}
use package.tossinvest_rust.State.Pump.Invalidation.{apply-sent}
use package.tossinvest_rust.State.Pump.Kept.{observe-InStep, mutate-InStep, spawning-some}
use package.tossinvest_rust.State.System.Places.{hit, touches, creates}

module _ {S : Scalars} (n : ℕ) (v : OrderView) where
  -- The row of submission n in the canonical copy.
  abbrev pub Shows : Store S → Type 0
  Shows st = get (local n) st.write.orders ≡ some v

  pub apply-Shows :
      (op : Op S) (st : Store S) (q : _)
      → IsElsewhere n op
      → InStep st
      → apply st op ≡ some q
      → Shows st
      → Shows q.0
  apply-Shows op st q other i ran h =
      step-Holds n v st.write i.valid h op (q.0.write, q.1) other (apply-sent st op q ran).0

  mutate-Shows :
      (op : Op S) (p p' : Pump S)
      → IsElsewhere n op
      → InStep p.store
      → mutate op p ≡ some p'
      → Shows p.store
      → Shows p'.store
  unfolding mutate
  mutate-Shows op p p' other i ran h =
      let (q, applied, rest) = >>=-eq-some (apply p.store op) _ ran in
      subst (λ (x : Pump S). Shows x.store) (some_injective rest)
        (apply-Shows op p.store q other i applied h)

  marked-Shows : (ds : _) (p : Pump S) → Shows p.store → Shows (mark_invalidation ds p).store
  unfolding mark_invalidation
  marked-Shows ds p h = if_rule (λ (x : Pump S). Shows x.store) (any is_stale ds) (λ _. h) (λ _. h)

  observe-Shows :
      (o : Order S) (p p' : Pump S)
      → InStep p.store
      → observe o p ≡ some p'
      → Shows p.store
      → Shows p'.store
  unfolding observe
  observe-Shows o p p' i ran h =
      let (q, applied, rest) = >>=-eq-some (apply p.store (Op.observe_order o)) _ ran in
      subst (λ (x : Pump S). Shows x.store) (some_injective rest)
        (marked-Shows q.1 (record p { store = q.0 })
          (apply-Shows (Op.observe_order o) p.store q tt i applied h))

  observe_all-Shows :
      (os : List (Order S)) (p p' : Pump S)
      → InStep p.store
      → observe_all os p ≡ some p'
      → Shows p.store
      → Shows p'.store × InStep p'.store
  unfolding observe_all
  observe_all-Shows [] p p' i ran h =
      subst (λ (x : Pump S). Shows x.store × InStep x.store) (some_injective ran) (h, i)
  observe_all-Shows (o ∷ os) p p' i ran h =
      let (q, first, rest) = >>=-eq-some (observe o p) _ ran in
      observe_all-Shows os q p' (observe-InStep o p q i first) rest (observe-Shows o p q i first h)

  tick_all-Shows :
      (xs : List (PriceResponse S)) (p p' : Pump S)
      → InStep p.store
      → tick_all xs p ≡ some p'
      → Shows p.store
      → Shows p'.store
  unfolding tick_all
  tick_all-Shows [] p p' i ran h = subst (λ (x : Pump S). Shows x.store) (some_injective ran) h
  tick_all-Shows (x ∷ xs) p p' i ran h =
      let (q, first, rest) = >>=-eq-some (mutate (Op.price_tick x) p) _ ran in
      tick_all-Shows xs q p' (mutate-InStep (Op.price_tick x) p q tt i first) rest
        (mutate-Shows (Op.price_tick x) p q tt i first h)

pub hit-zero : (m n : ℕ) → hit m n ≡ 0 → m ≢ n
hit-zero m n h e = ground (arith, h, e)

module _ {S : Scalars} (n : ℕ) where
  take_invalidation-store : (p : Pump S) → (take_invalidation p).0.store ≡ p.store
  unfolding take_invalidation
  take_invalidation-store p =
      if_rule (λ (r : Pump S × List (Task S)). r.0.store ≡ p.store)
        (ltb 0 p.holdings_demand && p.holdings_dirty) (λ _. refl) (λ _. refl)

  take_invalidation-tasks : (p : Pump S) → sum (creates n) ((take_invalidation p).1) ≡ 0
  unfolding take_invalidation
  take_invalidation-tasks p =
      if_rule (λ (r : Pump S × List (Task S)). sum (creates n) r.1 ≡ 0)
        (ltb 0 p.holdings_demand && p.holdings_dirty) (λ _. refl) (λ _. refl)

  spawn_prices-tasks : (p : Pump S) → sum (creates n) (spawn_prices p) ≡ 0
  unfolding spawn_prices
  spawn_prices-tasks p =
      elim (keys p.price_demand)
        as (λ ks.
          sum (creates {S = S} n)
            (elim ks [ [] ↦ [] | s ∷ symbols ↦ Task.prices_task (s ∷ symbols) ∷ [] ])
          ≡ 0) [ [] ↦ refl | s ∷ symbols ↦ refl ]

  -- A command that is not about submission n leaves its row.
  pub command-Shows :
      (v : OrderView) (c : Command S) (p p' : Pump S) (ts : List (Task S))
      → InStep p.store
      → touches true n c ≡ 0
      → handle_command c p ≡ some (p', ts)
      → Shows n v p.store
      → Shows n v p'.store
  unfolding handle_command start_sweeping
  command-Shows v Command.start_sweep p p' ts i other ran h =
      subst (λ (x : Pump S). Shows n v x.store) (ap (λ r. r.0) (some_injective ran))
        (subst (Shows n v) (sym (take_invalidation-store p)) h)
  command-Shows v (Command.sweep_done orders dropped) p p' ts i other ran h =
      let (done, _) = spawning-some _ [] p' ts ran in
      let (q, first, rest) = >>=-eq-some (observe_all orders p) _ done in
      let (h', i') = observe_all-Shows n v orders p q i first h in
      (observe_all-Shows n v dropped q p' i' rest h').0
  command-Shows v (Command.observed o) p p' ts i other ran h =
      observe-Shows n v o p p' i (spawning-some _ [] p' ts ran).0 h
  command-Shows v (Command.submit m intent req) p p' ts i other ran h =
      mutate-Shows n v (Op.submit_optimistic m intent) p p' (hit-zero m n other) i
        (spawning-some _ _ p' ts ran).0 h
  command-Shows v (Command.submit_result m (ok id)) p p' ts i other ran h =
      mutate-Shows n v (Op.confirm m id) p p' (hit-zero m n other) i
        (spawning-some _ [] p' ts ran).0 h
  command-Shows v (Command.submit_result m (err message)) p p' ts i other ran h =
      mutate-Shows n v (Op.submit_failed (local m) message) p p' (hit-zero m n other) i
        (spawning-some _ [] p' ts ran).0 h
  command-Shows v (Command.cancel_command id) p p' ts i other ran h =
      mutate-Shows n v (Op.op_submitted id cancel) p p' tt i (spawning-some _ _ p' ts ran).0 h
  command-Shows v (Command.prices xs) p p' ts i other ran h =
      tick_all-Shows n v xs p p' i (spawning-some _ [] p' ts ran).0 h
  command-Shows v (Command.refresh target) p p' ts i other ran h =
      subst (λ r. Shows n v r.0.store) (some_injective ran) h
  command-Shows v Command.demand_changed p p' ts i other ran h =
      subst (λ r. Shows n v r.0.store) (some_injective ran) h
  command-Shows v Command.wake p p' ts i other ran h =
      subst (λ r. Shows n v r.0.store) (some_injective ran) h

  -- A command spawns the task that creates order n exactly if it is submission n.
  pub command-tasks :
      (c : Command S) (p p' : Pump S) (ts : List (Task S))
      → handle_command c p ≡ some (p', ts)
      → sum (creates n) ts + touches false n c ≡ touches true n c
  unfolding handle_command start_sweeping
  command-tasks Command.start_sweep p p' ts ran = omega (
    arith,
    ap (λ r. sum (creates n) r.1) (some_injective ran),
    sum-append (creates n) (spawn_prices p) (take_invalidation p).1,
    spawn_prices-tasks p,
    take_invalidation-tasks p,
  )
  command-tasks (Command.sweep_done orders dropped) p p' ts ran =
      subst (λ us. sum (creates n) us + 0 ≡ 0) (spawning-some _ [] p' ts ran).1 refl
  command-tasks (Command.observed o) p p' ts ran =
      subst (λ us. sum (creates n) us + 0 ≡ 0) (spawning-some _ [] p' ts ran).1 refl
  command-tasks (Command.submit m intent req) p p' ts ran =
      subst (λ us. sum (creates n) us + 0 ≡ hit m n) (spawning-some _ _ p' ts ran).1 (omega arith)
  command-tasks (Command.submit_result m (ok id)) p p' ts ran =
      subst (λ us. sum (creates n) us + hit m n ≡ hit m n) (spawning-some _ [] p' ts ran).1
        (omega arith)
  command-tasks (Command.submit_result m (err message)) p p' ts ran =
      subst (λ us. sum (creates n) us + hit m n ≡ hit m n) (spawning-some _ [] p' ts ran).1
        (omega arith)
  command-tasks (Command.cancel_command id) p p' ts ran =
      subst (λ us. sum (creates n) us + 0 ≡ 0) (spawning-some _ _ p' ts ran).1 refl
  command-tasks (Command.prices xs) p p' ts ran =
      subst (λ us. sum (creates n) us + 0 ≡ 0) (spawning-some _ [] p' ts ran).1 refl
  command-tasks (Command.refresh target) p p' ts ran =
      subst (λ r. sum (creates n) r.1 + 0 ≡ 0) (some_injective ran) refl
  command-tasks Command.demand_changed p p' ts ran =
      subst (λ r. sum (creates n) r.1 + 0 ≡ 0) (some_injective ran) refl
  command-tasks Command.wake p p' ts ran =
      subst (λ r. sum (creates n) r.1 + 0 ≡ 0) (some_injective ran) refl

  applied-Shows :
      (intent : OptimisticOrder) (st : Store S) (q : _)
      → apply st (Op.submit_optimistic n intent) ≡ some q
      → Shows n (optimistic_view n intent) q.0
  unfolding step submit_optimistic bump
  applied-Shows intent st q ran =
      subst (λ r. get (local n) r.0.orders ≡ some (optimistic_view n intent))
        (some_injective (apply-sent st (Op.submit_optimistic n intent) q ran).0)
        (HashMap.get-insert_self (local n) (optimistic_view n intent) st.write.orders)

  submitted-Shows :
      (intent : OptimisticOrder) (p p' : Pump S)
      → mutate (Op.submit_optimistic n intent) p ≡ some p'
      → Shows n (optimistic_view n intent) p'.store
  unfolding mutate
  submitted-Shows intent p p' ran =
      let (q, applied, rest) = >>=-eq-some (apply p.store (Op.submit_optimistic n intent)) _ ran in
      subst (λ (x : Pump S). Shows n (optimistic_view n intent) x.store) (some_injective rest)
        (applied-Shows intent p.store q applied)

  -- The submission's command shows its row.
  pub submit-Shows :
      (intent : OptimisticOrder) (req : OrderCreateRequest S) (p p' : Pump S) (ts : List (Task S))
      → handle_command (Command.submit n intent req) p ≡ some (p', ts)
      → Shows n (optimistic_view n intent) p'.store
  unfolding handle_command
  submit-Shows intent req p p' ts ran = submitted-Shows intent p p' (spawning-some _ _ p' ts ran).0
