-- ===== src/Tests/SystemRuns.antt =====
-- Runs of the whole runtime: an order is submitted, and the handle is dropped.
use package.tossinvest_rust.Common.{
  ◌+◌, ◌<◌, ◌^◌, ◌≡◌, refl, true, false, none, some, [], ◌∷◌, ◌++◌, arith, ℕ_discrete,
}
use package.tossinvest_rust.Common.HashMap.{get}
use package.tossinvest_rust.Common.Result.{ok, err}
use package.tossinvest_rust.State.Event.{local, order_key_key}
use package.tossinvest_rust.State.Rows.{optimistic_view}
use package.tossinvest_rust.State.Invariant.{Inv}
use package.tossinvest_rust.State.Ops.{step as mutation}
use package.tossinvest_rust.State.Store.{new_store, apply, commit}
use package.tossinvest_rust.State.Pump.{Task, intent_of, mutate, handle_command}
use package.tossinvest_rust.State.System.{
  System, Network, spawn, send, create_order, release, command_turn, open_turn, turn,
}
use package.tossinvest_rust.State.System.Steps.{Reach, start, step, creates, drops_handle, turns}
use package.tossinvest_rust.State.System.Running.{unstopped-runs}
use package.tossinvest_rust.State.System.Ready.{IsMildRun, reach-safe}
use package.tossinvest_rust.State.System.Places.{places}
use package.tossinvest_rust.State.System.Resolved.Answer.{provisional-stands, IsResolved}
use package.tossinvest_rust.State.System.Resolved.Arrives.{submission-resolves}
use package.tossinvest_rust.Tests.ClientRuns.{keyless}
use package.tossinvest_rust.Tests.Worlds.{whole}

abbrev at_spawn : System whole
at_spawn = spawn whole

abbrev submitted : System whole
submitted = (create_order keyless at_spawn).1

one_handle : 0 < at_spawn.handles
unfolding spawn
one_handle = omega arith

ids_left : at_spawn.local_seq + 1 < 2 ^ 64
unfolding spawn
ids_left = omega arith

submits : Reach at_spawn submitted
submits = step start (creates keyless one_handle ids_left)

-- The pump takes the submission.
unfoldable running : System whole
unfolding turn
running = elim (turn false submitted) [ none ↦ submitted | some t ↦ t ]

turn_ran : turn false submitted ≡ some running
unfolding running turn open_turn command_turn create_order spawn send handle_command mutate apply
    commit mutation new_store intent_of
turn_ran = refl

abbrev offline : Network whole
offline = record {
  create_order = λ req. err "offline";
  cancel_order = λ id. false;
  get_order = λ id. none;
  open_orders = none;
  holdings = none;
  prices = λ symbols. none;
}

abbrev accepting : Network whole
accepting = record offline { create_order = λ req. ok "o-1" }

stays_in : submitted.exited ≡ false
unfolding create_order spawn send
stays_in = refl

taken : Reach at_spawn running
taken = step submits (turns false running stays_in turn_ran)

mild_run : IsMildRun taken
unfolding taken submits
mild_run = ((tt, tt), tt)

running_task : running.tasks ≡ [] ++ (Task.create_task 1 keyless ∷ [])
unfolding running turn open_turn command_turn create_order spawn send handle_command mutate apply
    commit mutation new_store intent_of
running_task = refl

task_waits : 0 < places false 1 running
unfolding running turn open_turn command_turn create_order spawn send handle_command mutate apply
    commit mutation new_store intent_of ℕ_discrete
task_waits = omega arith

goes_on : (running.cancelled ≡ false) × (running.exited ≡ false)
unfolding running turn open_turn command_turn create_order spawn send handle_command mutate apply
    commit mutation new_store intent_of
goes_on = (refl, refl)

provisional-stands_example :
    (places true 1 running ≡ 1)
    × (get (local 1) running.pump.store.write.orders ≡ some (optimistic_view 1 (intent_of keyless)))
unfolding spawn
provisional-stands_example =
    provisional-stands at_spawn running keyless start one_handle (omega arith)
      (step start (turns false running stays_in turn_ran)) task_waits

submission-resolves_example :
    (t : System whole) × Reach running t × IsResolved 1 (ok "o-1") t.pump.store.write
submission-resolves_example =
    submission-resolves running 1 keyless [] [] accepting taken mild_run goes_on running_task

reach-safe_example :
    Inv running.pump.store.write × ((t : System whole) × (turn true running ≡ some t))
reach-safe_example = reach-safe running true taken mild_run

-- The only handle is dropped while nothing else has happened.
abbrev abandoned : System whole
abandoned = release at_spawn

unstopped-runs_example : (abandoned.cancelled ≡ false) × (abandoned.exited ≡ false)
unstopped-runs_example = unstopped-runs abandoned (step start (drops_handle one_handle)) (tt, tt)
