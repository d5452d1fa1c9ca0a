-- ===== src/State/System/Safe.antt =====
-- crates/tossinvest-state/src/runtime.rs: what the runtime keeps in every state that it reaches.
use mathlib.Core.Path.{subst}
use package.tossinvest_rust.Common.{
  ◌≡◌, refl, Bool, some, List, [], ◌∷◌, ◌++◌, map, inl, inr, some_injective, Bool-cases,
  if◌then◌else◌, if_rule, All, All-append, All-split,
}
use package.tossinvest_rust.Model.Scalar.{Scalars}
use package.tossinvest_rust.State.Event.{Delta}
use package.tossinvest_rust.State.Ops.{Op, IsRuntimeOp, >>=-eq-some}
use package.tossinvest_rust.State.Invariant.Runs.{new-Inv}
use package.tossinvest_rust.State.Store.{Store, new_store, apply}
use package.tossinvest_rust.State.Store.Laws.{InStep, apply-InStep}
use package.tossinvest_rust.State.Pump.{
  Command, Task, RefreshTarget, all_target, orders_target, holdings_target, order_target,
  prices_target, handle_command,
}
use package.tossinvest_rust.State.Pump.Leases
use package.tossinvest_rust.State.Pump.Kept.{handle_command-InStep}
use package.tossinvest_rust.State.System.{
  System, Job, Network, listed, listing, refresh_ops, perform, spawn, send, send_all, create_order,
  cancel_order, refresh, watch_price, watch_holdings, clone_handle, release, drop_price_lease,
  drop_holdings_lease, shutdown, stop_turn, command_turn, open_turn, turn,
}
use package.tossinvest_rust.State.System.Steps.{
  Step, creates, cancels, refreshes, watches_price, watches_holdings, clones, drops_handle,
  drops_price, drops_holdings, shuts_down, turns, answers, applies, ends, Reach, start, step,
}

module _ {S : Scalars} where
  -- The mutations that a task applies to the store itself.
  abbrev pub IsBackground : Op S → Type 0
  IsBackground (Op.observe_order o) = Unit
  IsBackground (Op.update_holdings h) = Unit
  IsBackground (Op.price_tick x) = Unit
  IsBackground _ = ⊥

  pub background-runtime : (op : Op S) → IsBackground op → IsRuntimeOp op
  background-runtime (Op.observe_order o) h = tt
  background-runtime (Op.update_holdings x) h = tt
  background-runtime (Op.price_tick x) h = tt
  background-runtime (Op.submit_optimistic n intent) h = absurd h
  background-runtime (Op.confirm n id) h = absurd h
  background-runtime (Op.submit_failed key message) h = absurd h
  background-runtime (Op.op_submitted id kind) h = absurd h
  background-runtime Op.stop h = absurd h

  abbrev pub IsFit : Job S → Type 0
  IsFit job = All IsBackground job.ops

  -- The store is consistent and published, and the tasks hold background mutations.
  pub record IsSafe (s : System S) : Type 0 where
    pub stored : InStep s.pump.store
    pub fit : All IsFit s.jobs

  map-IsBackground :
      {A : Type 0} (f : A → Op S)
      → ((a : A) → IsBackground (f a))
      → (xs : List A) → All IsBackground (map f xs)
  map-IsBackground f h [] = tt
  map-IsBackground f h (x ∷ xs) = (h x, map-IsBackground f h xs)

  refresh_ops-IsBackground :
      (net : Network S) (target : RefreshTarget) → All IsBackground (refresh_ops net target)
  unfolding refresh_ops
  refresh_ops-IsBackground net all_target =
      All-append IsBackground _ _
        (map-IsBackground (λ o. Op.observe_order o) (λ o. tt) (listing net.open_orders))
        (map-IsBackground (λ h. Op.update_holdings h) (λ h. tt) (listed net.holdings))
  refresh_ops-IsBackground net orders_target =
      map-IsBackground (λ o. Op.observe_order o) (λ o. tt) (listing net.open_orders)
  refresh_ops-IsBackground net holdings_target =
      map-IsBackground (λ h. Op.update_holdings h) (λ h. tt) (listed net.holdings)
  refresh_ops-IsBackground net (order_target id) =
      map-IsBackground (λ o. Op.observe_order o) (λ o. tt) (listed (net.get_order id))
  refresh_ops-IsBackground net (prices_target symbols) =
      map-IsBackground (λ x. Op.price_tick x) (λ x. tt) (listing (net.prices symbols))

  perform-IsFit : (net : Network S) (task : Task S) → IsFit (perform net task)
  unfolding perform
  perform-IsFit net (Task.sweep_task before) = tt
  perform-IsFit net (Task.prices_task symbols) = tt
  perform-IsFit net Task.holdings_task =
      map-IsBackground (λ h. Op.update_holdings h) (λ h. tt) (listed net.holdings)
  perform-IsFit net (Task.create_task n req) = tt
  perform-IsFit net (Task.cancel_task id) = tt
  perform-IsFit net (Task.refresh_task target) = refresh_ops-IsBackground net target

  send-IsSafe : (c : Command S) (s : System S) → IsSafe s → IsSafe (send c s)
  unfolding send
  send-IsSafe c s h =
      if_rule IsSafe s.exited (λ _. h) (λ _. record { stored = h.stored; fit = h.fit })

  send_all-IsSafe : (cs : List (Command S)) (s : System S) → IsSafe s → IsSafe (send_all cs s)
  unfolding send_all
  send_all-IsSafe [] s h = h
  send_all-IsSafe (c ∷ cs) s h = send_all-IsSafe cs (send c s) (send-IsSafe c s h)

  command_turn-IsSafe :
      (c : Command S) (cs : List (Command S)) (s t : System S)
      → command_turn c cs s ≡ some t
      → IsSafe s
      → IsSafe t
  unfolding command_turn
  command_turn-IsSafe c cs s t ran h =
      let (r, handled, rest) = >>=-eq-some (handle_command c s.pump) _ ran in
      subst IsSafe (some_injective rest)
        (record { stored = handle_command-InStep c s.pump r.0 r.1 h.stored handled; fit = h.fit })

  stop_turn-IsSafe : (s t : System S) → stop_turn s ≡ some t → IsSafe s → IsSafe t
  unfolding stop_turn
  stop_turn-IsSafe s t ran h =
      let (q, stopped, rest) = >>=-eq-some (apply s.pump.store Op.stop) _ ran in
      subst IsSafe (some_injective rest)
        (record { stored = apply-InStep Op.stop s.pump.store q h.stored tt stopped; fit = h.fit })

  open_turn-IsSafe :
      (timer : Bool) (queue : List (Command S)) (s t : System S)
      → open_turn timer queue s ≡ some t
      → IsSafe s
      → IsSafe t
  unfolding open_turn
  open_turn-IsSafe timer [] s t ran h =
      subst IsSafe (some_injective ran)
        (if_rule IsSafe timer (λ _. send-IsSafe Command.start_sweep s h) (λ _. h))
  open_turn-IsSafe timer (c ∷ cs) s t ran h = command_turn-IsSafe c cs s t ran h

  turn-IsSafe : (timer : Bool) (s t : System S) → turn timer s ≡ some t → IsSafe s → IsSafe t
  unfolding turn
  turn-IsSafe timer s t ran h = elim (Bool-cases s.cancelled) [
    | inl over ↦
        stop_turn-IsSafe s t
          (subst (λ b. (if b then stop_turn s else open_turn timer s.queue s) ≡ some t) over ran) h
    | inr on ↦
        open_turn-IsSafe timer s.queue s t
          (subst (λ b. (if b then stop_turn s else open_turn timer s.queue s) ≡ some t) on ran) h
  ]

  applies-IsSafe :
      (s : System S) (before : List (Job S)) (op : Op S) (job : Job S) (after : List (Job S))
      (p : Store S × List Delta)
      → s.jobs ≡ before ++ (record job { ops = op ∷ job.ops } ∷ after)
      → apply s.pump.store op ≡ some p
      → IsSafe s
      → InStep p.0 × All IsFit (before ++ (job ∷ after))
  applies-IsSafe s before op job after p e ran h =
      let (left, (own, right)) = All-split IsFit before _ (subst (All IsFit) e h.fit) in
      (
        apply-InStep op s.pump.store p h.stored (background-runtime op own.0) ran,
        All-append IsFit before (job ∷ after) left (own.1, right),
      )

  pub Step-IsSafe : {s t : System S} → Step s t → IsSafe s → IsSafe t
  unfolding create_order cancel_order refresh watch_price watch_holdings clone_handle release
      drop_price_lease drop_holdings_lease shutdown
  Step-IsSafe {s} (creates req alive room) h =
      send-IsSafe _ _ (record { stored = h.stored; fit = h.fit })
  Step-IsSafe {s} (cancels id alive) h = send-IsSafe _ s h
  Step-IsSafe {s} (refreshes target alive) h = send-IsSafe _ s h
  Step-IsSafe {s} (watches_price symbol alive) h =
      send-IsSafe _ _ (record { stored = h.stored; fit = h.fit })
  Step-IsSafe {s} (watches_holdings alive) h =
      send-IsSafe _ _ (record { stored = h.stored; fit = h.fit })
  Step-IsSafe {s} (clones alive) h = record { stored = h.stored; fit = h.fit }
  Step-IsSafe {s} (drops_handle alive) h = record { stored = h.stored; fit = h.fit }
  Step-IsSafe {s} (drops_price symbol alive) h =
      let k =
        send-IsSafe Command.demand_changed
          (record s {
            pump = record (s.pump) { price_demand = Leases.drop_lease symbol s.pump.price_demand };
          })
          (record { stored = h.stored; fit = h.fit }) in
      record { stored = k.stored; fit = k.fit }
  Step-IsSafe {s} (drops_holdings alive) h = record { stored = h.stored; fit = h.fit }
  Step-IsSafe {s} (shuts_down alive) h = record { stored = h.stored; fit = h.fit }
  Step-IsSafe {s} {t} (turns timer t' inside ran) h = turn-IsSafe timer s t ran h
  Step-IsSafe {s} (answers net before task after e) h = record {
    stored = h.stored;
    fit = All-append IsFit s.jobs _ h.fit (perform-IsFit net task, tt);
  }
  Step-IsSafe {s} (applies before op job after p e ran) h =
      let (kept, fit) = applies-IsSafe s before op job after p e ran h in
      record { stored = kept; fit = fit }
  Step-IsSafe {s} (ends before job after e done) h =
      let (left, (own, right)) = All-split IsFit before _ (subst (All IsFit) e h.fit) in
      send_all-IsSafe job.sends _
        (record { stored = h.stored; fit = All-append IsFit before after left right })

  pub Reach-IsSafe : {s t : System S} → Reach s t → IsSafe s → IsSafe t
  Reach-IsSafe start h = h
  Reach-IsSafe (step r m) h = Step-IsSafe m (Reach-IsSafe r h)

pub spawn-IsSafe : (S : Scalars) → IsSafe (spawn S)
unfolding spawn new_store
spawn-IsSafe S = record { stored = record { valid = new-Inv S; published = refl }; fit = tt }
