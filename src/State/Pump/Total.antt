-- ===== src/State/Pump/Total.antt =====
-- crates/tossinvest-state/src/runtime.rs, `handle_command`: every command is handled.
use mathlib.Core.Path.{subst}
use package.tossinvest_rust.Common.{
  ◌≡◌, refl, sym, Option, some, List, [], ◌∷◌, any, All, if_rule, Bool-cases, inl, inr, ltb, ◌&&◌,
}
use package.tossinvest_rust.Common.Result.{ok, err}
use package.tossinvest_rust.Model.Scalar.{Scalars}
use package.tossinvest_rust.Model.Orders.{Order, PriceResponse}
use package.tossinvest_rust.State.Event.{local, cancel}
use package.tossinvest_rust.State.Ops.{Op, IsRuntimeOp}
use package.tossinvest_rust.State.Store.Laws.{Ready, apply-Ready}
use package.tossinvest_rust.State.Fills.{IsMild, IsMildOp}
use package.tossinvest_rust.State.Pump.{
  Pump, Command, Task, is_stale, mark_invalidation, mutate, observe, observe_all, tick_all,
  handle_command, start_sweeping, take_invalidation, spawning,
}

module _ {S : Scalars} where
  pub mutate-Ready :
      (op : Op S) (p : Pump S)
      → IsRuntimeOp op
      → IsMildOp op
      → Ready p.store
      → (p' : Pump S) × (mutate op p ≡ some p') × Ready p'.store
  unfolding mutate
  mutate-Ready op p own mild h =
      let (q, applied, kept) = apply-Ready op p.store own mild h in
      (record p { store = q.0 }, rw (applied, mutate), kept)

  pub observe-Ready :
      (o : Order S) (p : Pump S)
      → IsMild o
      → Ready p.store
      → (p' : Pump S) × (observe o p ≡ some p') × Ready p'.store
  unfolding observe mark_invalidation
  observe-Ready o p mild h =
      let (q, applied, kept) = apply-Ready (Op.observe_order o) p.store tt mild h in
      let p' = record p { store = q.0 } in
      (
        mark_invalidation q.1 p',
        rw (applied, observe),
        if_rule (λ (x : Pump S). Ready x.store) (any is_stale q.1) (λ _. kept) (λ _. kept),
      )

  observe_all-Ready :
      (os : List (Order S)) (p : Pump S)
      → All IsMild os
      → Ready p.store
      → (p' : Pump S) × (observe_all os p ≡ some p') × Ready p'.store
  unfolding observe_all
  observe_all-Ready [] p mild h = (p, refl, h)
  observe_all-Ready (o ∷ os) p mild h =
      let (q, first, kept) = observe-Ready o p mild.0 h in
      let (r, rest, last) = observe_all-Ready os q mild.1 kept in
      (r, rw (first, observe_all) rest, last)

  tick_all-Ready :
      (xs : List (PriceResponse S)) (p : Pump S)
      → Ready p.store
      → (p' : Pump S) × (tick_all xs p ≡ some p') × Ready p'.store
  unfolding tick_all
  tick_all-Ready [] p h = (p, refl, h)
  tick_all-Ready (x ∷ xs) p h =
      let (q, first, kept) = mutate-Ready (Op.price_tick x) p tt tt h in
      let (r, rest, last) = tick_all-Ready xs q kept in (r, rw (first, tick_all) rest, last)

  abbrev Handled : Option (Pump S × List (Task S)) → Type 0
  Handled m = (p' : Pump S) × (ts : List (Task S)) × (m ≡ some (p', ts)) × Ready p'.store

  spawning-Handled :
      (m : Option (Pump S)) (ts : List (Task S))
      → (p' : Pump S) × (m ≡ some p') × Ready p'.store
      → Handled (spawning m ts)
  spawning-Handled m ts (p', ran, kept) = (p', ts, rw ran, kept)

  pub start_sweeping-store : (p : Pump S) → (start_sweeping p).0.store ≡ p.store
  unfolding start_sweeping take_invalidation
  start_sweeping-store p = elim (Bool-cases (ltb 0 p.holdings_demand && p.holdings_dirty)) [
    | inl due ↦ rw due
    | inr quiet ↦ rw quiet
  ]

  -- The command brings no order with a negative filled quantity.
  abbrev pub IsMildCommand : Command S → Type 0
  IsMildCommand (Command.sweep_done orders dropped) = All IsMild orders × All IsMild dropped
  IsMildCommand (Command.observed o) = IsMild o
  IsMildCommand _ = Unit

  -- From a store whose canonical copy keeps the invariant and has no negative filled quantity, and
  -- whose snapshot is current, the pump handles every command that brings no such quantity without a
  -- panic, and leaves such a store.
  pub handle_command-Ready :
      (c : Command S) (p : Pump S)
      → IsMildCommand c
      → Ready p.store
      → (p' : Pump S) × (ts : List (Task S)) × (handle_command c p ≡ some (p', ts)) × Ready p'.store
  unfolding handle_command
  handle_command-Ready Command.start_sweep p mild h =
      (_, _, refl, subst Ready (sym (start_sweeping-store p)) h)
  handle_command-Ready (Command.sweep_done orders dropped) p mild h =
      let (q, first, kept) = observe_all-Ready orders p mild.0 h in
      let (r, rest, last) = observe_all-Ready dropped q mild.1 kept in
      spawning-Handled _ [] (r, rw (first) rest, last)
  handle_command-Ready (Command.observed o) p mild h =
      spawning-Handled _ [] (observe-Ready o p mild h)
  handle_command-Ready (Command.submit n intent req) p mild h =
      spawning-Handled _ _ (mutate-Ready (Op.submit_optimistic n intent) p tt tt h)
  handle_command-Ready (Command.submit_result n (ok id)) p mild h =
      spawning-Handled _ [] (mutate-Ready (Op.confirm n id) p tt tt h)
  handle_command-Ready (Command.submit_result n (err message)) p mild h =
      spawning-Handled _ [] (mutate-Ready (Op.submit_failed (local n) message) p tt tt h)
  handle_command-Ready (Command.cancel_command id) p mild h =
      spawning-Handled _ _ (mutate-Ready (Op.op_submitted id cancel) p tt tt h)
  handle_command-Ready (Command.prices xs) p mild h = spawning-Handled _ [] (tick_all-Ready xs p h)
  handle_command-Ready (Command.refresh target) p mild h = (p, _, refl, h)
  handle_command-Ready Command.demand_changed p mild h = (p, [], refl, h)
  handle_command-Ready Command.wake p mild h = (p, [], refl, h)
