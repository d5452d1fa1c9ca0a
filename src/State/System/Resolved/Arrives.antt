-- ===== src/State/System/Resolved/Arrives.antt =====
-- crates/tossinvest-state/src/runtime.rs: the answer to a submission comes through the queue.
use mathlib.Core.Path.{subst}
use package.tossinvest_rust.Common.{
  String, ℕ, ◌<◌, ◌≡◌, refl, ap, ◌∙◌, false, some, List, [], ◌∷◌, ◌++◌, arith, sum, All, All-append,
  if◌then◌else◌,
}
use package.tossinvest_rust.Common.Result.{Result}
use package.tossinvest_rust.Model.Scalar.{Scalars}
use package.tossinvest_rust.Model.Orders.{OrderId}
use package.tossinvest_rust.Model.Requests.{OrderCreateRequest}
use package.tossinvest_rust.State.Pump.{Pump, Command, Task, handle_command}
use package.tossinvest_rust.State.Pump.Total.{IsMildCommand, handle_command-Ready}
use package.tossinvest_rust.State.System.{
  System, Network, spawn, send, send_all, perform, command_turn, open_turn, turn,
}
use package.tossinvest_rust.State.System.Steps.{
  Step, turns, answers, ends, Reach, start, step as next,
}
use package.tossinvest_rust.State.System.Running.{IsRunning, send-IsRunning}
use package.tossinvest_rust.State.System.Mild.{IsMildJob}
use package.tossinvest_rust.State.System.Ready.{IsReady, IsMildRun, reached-IsReady, send-IsReady}
use package.tossinvest_rust.State.System.Places.{hit_self, touches, places}
use package.tossinvest_rust.State.System.Resolved.Answer.{
  IsResolved, result-resolves, waiting-stands,
}

module _ {S : Scalars} where
  Reach-trans : {s t u : System S} → Reach s t → Reach t u → Reach s u
  Reach-trans m start = m
  Reach-trans m (next n move) = next (Reach-trans m n) move

  -- A running pump whose queue begins with c takes it.
  takes :
      (c : Command S) (cs : List (Command S)) (s : System S)
      → IsRunning s
      → IsReady s
      → s.queue ≡ c ∷ cs
      → (p : Pump S) × (ts : List (Task S)) × (handle_command c s.pump ≡ some (p, ts))
        × Step s (record s { pump = p; queue = cs; tasks = s.tasks ++ ts })
        × IsReady (record s { pump = p; queue = cs; tasks = s.tasks ++ ts })
  unfolding turn open_turn command_turn
  takes c cs s running ready q =
      let mild : All IsMildCommand (c ∷ cs) = subst (All IsMildCommand) q ready.queued in
      let (p, ts, handled, kept) = handle_command-Ready c s.pump mild.0 ready.stored in
      let goes : turn false s ≡ open_turn false s.queue s = simp running.0 refl in
      (
        p,
        ts,
        handled,
        turns false _ running.1 (goes ∙ ap (λ cs'. open_turn false cs' s) q ∙ rw handled refl),
        record { stored = kept; queued = mild.1; jobs = ready.jobs },
      )

  -- It comes to the last command of the queue.
  drains :
      (queue : List (Command S)) (c : Command S) (s : System S)
      → IsRunning s
      → IsReady s
      → s.queue ≡ queue ++ c ∷ []
      → (t : System S) × Reach s t × IsRunning t × (t.queue ≡ c ∷ []) × IsReady t
  drains [] c s running ready q = (s, start, running, q, ready)
  drains (d ∷ queue) c s running ready q =
      let (p, ts, handled, move, kept) = takes d (queue ++ c ∷ []) s running ready q in
      let s' : System S = record s { pump = p; queue = queue ++ c ∷ []; tasks = s.tasks ++ ts } in
      let (t, r, on, last, ready') = drains queue c s' running kept refl in
      (t, Reach-trans (next start move) r, on, last, ready')

  send-queue :
      (c : Command S) (s : System S) → s.exited ≡ false → (send c s).queue ≡ s.queue ++ c ∷ []
  unfolding send
  send-queue c s inside =
      ap (λ b. (if b then s else record s { queue = s.queue ++ c ∷ [] }).queue) inside

  waits_last :
      (n : ℕ) (r : Result OrderId String) (s : System S)
      → s.queue ≡ Command.submit_result n r ∷ []
      → 0 < places false n s
  waits_last n r s q = omega (arith, ap (sum (touches false n)) q, hit_self n)

  -- The answer, last in the queue, is handled.
  handles_last :
      (s : System S) (n : ℕ) (r : Result OrderId String)
      → Reach (spawn S) s
      → IsRunning s
      → IsReady s
      → s.queue ≡ Command.submit_result n r ∷ []
      → (t : System S) × Reach s t × IsResolved n r t.pump.store.write
  handles_last s n r m running ready q =
      let (once, (intent, row)) = waiting-stands s n m (waits_last n r s q) in
      let (p, ts, handled, move, _) = takes (Command.submit_result n r) [] s running ready q in
      (
        _,
        next start move,
        result-resolves n intent r s.pump p ts ready.stored.in_step.valid row handled,
      )

-- A submission is resolved: in every state that the runtime reaches with its pump running, while no
-- order that the network gives has a negative filled quantity, if the task that creates order n
-- runs, then, whatever the server answers it and whatever is in the queue, there are steps after
-- which the row is resolved. If the server gave an id, no row is left under the local
-- id and there is one under the server's; if the submission failed, the row is the provisional one,
-- marked as rejected with the error's text.
pub submission-resolves :
    {S : Scalars} (s : System S) (n : ℕ) (req : OrderCreateRequest S) (before after : List (Task S))
    (net : Network S) (m : Reach (spawn S) s)
    → IsMildRun m
    → IsRunning s
    → s.tasks ≡ before ++ (Task.create_task n req ∷ after)
    → (t : System S) × Reach s t × IsResolved n (net.create_order req) t.pump.store.write
unfolding perform send_all
submission-resolves {S} s n req before after net m mild running e =
    let ready = reached-IsReady m mild in
    let task : Task S = Task.create_task n req in
    let c : Command S = Command.submit_result n (net.create_order req) in
    let s1 : System S = record s {
      tasks = before ++ after;
      jobs = s.jobs ++ perform net task ∷ [];
    } in
    let s2 : System S = record s1 { jobs = s.jobs ++ [] } in
    let told : Reach s (send c s2) =
      next (next start (answers net before task after e))
        (ends s.jobs (perform net task) [] refl refl) in
    let ready2 : IsReady s2 = record {
      stored = ready.stored;
      queued = ready.queued;
      jobs = All-append IsMildJob s.jobs [] ready.jobs tt;
    } in
    let (t, r, on, last, ready') =
      drains s.queue c (send c s2) (send-IsRunning c s2 running) (send-IsReady c s2 tt ready2)
        (send-queue c s2 running.1) in
    let sofar = Reach-trans told r in
    let (u, r', resolved) =
      handles_last t n (net.create_order req) (Reach-trans m sofar) on ready' last in
    (u, Reach-trans sofar r', resolved)
