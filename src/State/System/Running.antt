-- ===== src/State/System/Running.antt =====
-- crates/tossinvest-state/src/runtime.rs: what ends the pump. The pump's `PumpCtx` holds a clone of
-- `Arc<Shared>`.
use mathlib.Core.Path.{subst}
use package.tossinvest_rust.Common.{
  ◌-◌, ◌≡◌, refl, Bool, false, some, List, [], ◌∷◌, some_injective, if_rule, arith,
}
use package.tossinvest_rust.Model.Scalar.{Scalars}
use package.tossinvest_rust.State.Ops.{>>=-eq-some}
use package.tossinvest_rust.State.Pump.{Command, handle_command}
use package.tossinvest_rust.State.Pump.Leases
use package.tossinvest_rust.State.System.{
  System, spawn, send, send_all, create_order, cancel_order, refresh, watch_price, watch_holdings,
  clone_handle, release, drop_price_lease, drop_holdings_lease, command_turn, open_turn, turn,
}
use package.tossinvest_rust.State.System.Steps.{
  Step, creates, cancels, refreshes, watches_price, watches_holdings, clones, drops_handle,
  drops_price, drops_holdings, shuts_down, turns, answers, applies, ends, Reach, start, step,
}

module _ {S : Scalars} where
  -- The pump is in its loop and nothing asks it to leave.
  abbrev pub IsRunning : System S → Type 0
  IsRunning s = (s.cancelled ≡ false) × (s.exited ≡ false)

  abbrev IsNotShutdown : {s t : System S} → Step s t → Type 0
  IsNotShutdown (shuts_down h) = ⊥
  IsNotShutdown _ = Unit

  -- A run in which `shutdown` is not called.
  abbrev pub IsUnstopped : {s t : System S} → Reach s t → Type 0
  IsUnstopped start = Unit
  IsUnstopped (step r m) = IsUnstopped r × IsNotShutdown m

  pub send-IsRunning : (c : Command S) (s : System S) → IsRunning s → IsRunning (send c s)
  unfolding send
  send-IsRunning c s h = if_rule IsRunning s.exited (λ _. h) (λ _. h)

  send_all-IsRunning :
      (cs : List (Command S)) (s : System S) → IsRunning s → IsRunning (send_all cs s)
  unfolding send_all
  send_all-IsRunning [] s h = h
  send_all-IsRunning (c ∷ cs) s h = send_all-IsRunning cs (send c s) (send-IsRunning c s h)

  release-IsRunning : (s : System S) → IsRunning s → IsRunning (release s)
  unfolding release
  release-IsRunning s (going, inside) = (ground (arith, going, inside), inside)

  pub command_turn-IsRunning :
      (c : Command S) (cs : List (Command S)) (s t : System S)
      → command_turn c cs s ≡ some t
      → IsRunning s
      → IsRunning t
  unfolding command_turn
  command_turn-IsRunning c cs s t h running =
      let (r, handled, rest) = >>=-eq-some (handle_command c s.pump) _ h in
      subst IsRunning (some_injective rest) running

  pub open_turn-IsRunning :
      (timer : Bool) (queue : List (Command S)) (s t : System S)
      → open_turn timer queue s ≡ some t
      → IsRunning s
      → IsRunning t
  unfolding open_turn
  open_turn-IsRunning timer [] s t h running =
      subst IsRunning (some_injective h)
        (if_rule IsRunning timer (λ _. send-IsRunning Command.start_sweep s running) (λ _. running))
  open_turn-IsRunning timer (c ∷ cs) s t h running = command_turn-IsRunning c cs s t h running

  turn-IsRunning :
      (timer : Bool) (s t : System S) → turn timer s ≡ some t → IsRunning s → IsRunning t
  unfolding turn
  turn-IsRunning timer s t h running =
      open_turn-IsRunning timer s.queue s t (simp running.0 at h) running

  Step-IsRunning : {s t : System S} (m : Step s t) → IsNotShutdown m → IsRunning s → IsRunning t
  unfolding create_order cancel_order refresh watch_price watch_holdings clone_handle
      drop_price_lease drop_holdings_lease
  Step-IsRunning {s} (creates req alive room) u h = send-IsRunning _ _ h
  Step-IsRunning {s} (cancels id alive) u h = send-IsRunning _ s h
  Step-IsRunning {s} (refreshes target alive) u h = send-IsRunning _ s h
  Step-IsRunning {s} (watches_price symbol alive) u h = send-IsRunning _ _ h
  Step-IsRunning {s} (watches_holdings alive) u h = send-IsRunning _ _ h
  Step-IsRunning {s} (clones alive) u h = h
  Step-IsRunning {s} (drops_handle alive) u h = release-IsRunning s h
  Step-IsRunning {s} (drops_price symbol alive) u h =
      release-IsRunning
        (send Command.demand_changed (record s {
          pump = record (s.pump) { price_demand = Leases.drop_lease symbol s.pump.price_demand };
        }))
        (send-IsRunning _ _ h)
  Step-IsRunning {s} (drops_holdings alive) u h =
      release-IsRunning
        (record s { pump = record (s.pump) { holdings_demand = s.pump.holdings_demand - 1 } }) h
  Step-IsRunning {s} (shuts_down alive) u h = absurd u
  Step-IsRunning {s} {t} (turns timer t' inside ran) u h = turn-IsRunning timer s t ran h
  Step-IsRunning {s} (answers net before task after e) u h = h
  Step-IsRunning {s} (applies before op job after p e ran) u h = h
  Step-IsRunning {s} (ends before job after e done) u h = send_all-IsRunning job.sends _ h

  unstopped-IsRunning : {s t : System S} (r : Reach s t) → IsUnstopped r → IsRunning s → IsRunning t
  unstopped-IsRunning start u h = h
  unstopped-IsRunning (step r m) (u, v) h = Step-IsRunning m v (unstopped-IsRunning r u h)

-- As long as `shutdown` is not called, the pump neither leaves its loop nor is asked to: not even when
-- every handle and every lease has been dropped, for the pump's own clone keeps the shared state
-- alive, and with it the token that only the drop of that state would cancel.
pub unstopped-runs :
    {S : Scalars} (s : System S) (r : Reach (spawn S) s)
    → IsUnstopped r
    → (s.cancelled ≡ false) × (s.exited ≡ false)
unfolding spawn
unstopped-runs s r u = unstopped-IsRunning r u (refl, refl)
