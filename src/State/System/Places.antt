-- ===== src/State/System/Places.antt =====
-- crates/tossinvest-state/src/runtime.rs: where a submission stands - its command in the queue, the
-- task that creates the order, the answer of that task in the queue.
use package.tossinvest_rust.Common.{
  ℕ, ◌+◌, ◌≤◌, ◌≡◌, refl, ap, Bool, true, false, Option, none, some, List, [], ◌∷◌, ◌++◌, map, ite,
  if_pos, ℕ_discrete, arith, sum, sum-append, sum_mono, if◌then◌else◌, if_rule,
}
use package.tossinvest_rust.Model.Scalar.{Scalars}
use package.tossinvest_rust.Model.Orders.{OrderId, Order}
use package.tossinvest_rust.State.Ops.{Op}
use package.tossinvest_rust.State.Pump.{Command, Task}
use package.tossinvest_rust.State.Pump.Sweep.{finish_sweep}
use package.tossinvest_rust.State.System.{System, Job, Network, listed, perform, send, send_all}

abbrev pub hit : ℕ → ℕ → ℕ
hit m n = ite (ℕ_discrete m n) 1 0

pub hit_self : (n : ℕ) → hit n n ≡ 1
hit_self n = if_pos (ℕ_discrete n n) refl _ _

-- The task that creates order n.
abbrev pub creates : {S : Scalars} → ℕ → Task S → ℕ
creates n (Task.create_task m req) = hit m n
creates n _ = 0

module _ {S : Scalars} (all : Bool) (n : ℕ) where
  -- Whether a command is about submission n: its answer, and with `all` also the submission itself.
  abbrev pub touches : Command S → ℕ
  touches (Command.submit m intent req) = if all then hit m n else 0
  touches (Command.submit_result m r) = hit m n
  touches _ = 0

  -- The places of the submission: in the queue, among the tasks, among what the tasks will send.
  abbrev pub places : System S → ℕ
  places s =
      sum touches s.queue
      + sum (creates n) s.tasks
      + sum (λ (j : Job S). sum touches j.sends) s.jobs

  pub send-places : (c : Command S) (s : System S) → places (send c s) ≤ places s + touches c
  unfolding send
  send-places c s =
      if_rule (λ (t : System S). places t ≤ places s + touches c) s.exited (λ _. omega arith)
        (λ _. omega (arith, sum-append touches s.queue (c ∷ [])))

  pub send_all-places :
      (cs : List (Command S)) (s : System S) → places (send_all cs s) ≤ places s + sum touches cs
  unfolding send_all
  send_all-places [] s = omega arith
  send_all-places (c ∷ cs) s = omega (arith, send_all-places cs (send c s), send-places c s)

  map-neutral :
      {A : Type 0} (f : A → Command S)
      → ((a : A) → touches (f a) ≡ 0)
      → (xs : List A) → sum touches (map f xs) ≡ 0
  map-neutral f h [] = refl
  map-neutral f h (x ∷ xs) = omega (arith, h x, map-neutral f h xs)

  sweep-neutral :
      (before : List OrderId) (page : Option (List (Order S)))
      (get_order : OrderId → Option (Order S))
      → sum touches (listed (finish_sweep before page get_order)) ≡ 0
  unfolding finish_sweep
  sweep-neutral before none get_order = refl
  sweep-neutral before (some orders) get_order = refl

  -- The task's answer takes the task's place.
  pub perform-places :
      (net : Network S) (task : Task S) → sum touches (perform net task).sends ≡ creates n task
  unfolding perform
  perform-places net (Task.sweep_task before) = sweep-neutral before net.open_orders net.get_order
  perform-places net (Task.prices_task symbols) =
      map-neutral (λ xs. Command.prices xs) (λ xs. refl) (listed (net.prices symbols))
  perform-places net Task.holdings_task = refl
  perform-places net (Task.create_task m req) = omega arith
  perform-places net (Task.cancel_task id) =
      if_rule (λ cs. sum touches cs ≡ 0) (net.cancel_order id)
        (λ _. map-neutral (λ o. Command.observed o) (λ o. refl) (listed (net.get_order id)))
        (λ _. refl)
  perform-places net (Task.refresh_task target) = refl

  pub answers-places :
      (net : Network S) (s : System S) (before : List (Task S)) (task : Task S)
      (after : List (Task S))
      → s.tasks ≡ before ++ (task ∷ after)
      → places (record s { tasks = before ++ after; jobs = s.jobs ++ perform net task ∷ [] })
        ≡ places s
  answers-places net s before task after e = omega (
    arith,
    ap (sum (creates n)) e,
    sum-append (creates n) before (task ∷ after),
    sum-append (creates n) before after,
    sum-append (λ (j : Job S). sum touches j.sends) s.jobs (perform net task ∷ []),
    perform-places net task,
  )

  pub applies-places :
      (s : System S) (before : List (Job S)) (op : Op S) (job : Job S) (after : List (Job S))
      → s.jobs ≡ before ++ (record job { ops = op ∷ job.ops } ∷ after)
      → places (record s { jobs = before ++ (job ∷ after) }) ≡ places s
  applies-places s before op job after e = omega (
    arith,
    ap (sum (λ (j : Job S). sum touches j.sends)) e,
    sum-append (λ (j : Job S). sum touches j.sends) before
        (record job { ops = op ∷ job.ops } ∷ after),
    sum-append (λ (j : Job S). sum touches j.sends) before (job ∷ after),
  )

  pub ends-places :
      (s : System S) (before : List (Job S)) (job : Job S) (after : List (Job S))
      → s.jobs ≡ before ++ (job ∷ after)
      → places (send_all job.sends (record s { jobs = before ++ after })) ≤ places s
  ends-places s before job after e = omega (
    arith,
    send_all-places job.sends (record s { jobs = before ++ after }),
    ap (sum (λ (j : Job S). sum touches j.sends)) e,
    sum-append (λ (j : Job S). sum touches j.sends) before (job ∷ after),
    sum-append (λ (j : Job S). sum touches j.sends) before after,
  )

module _ {S : Scalars} (n : ℕ) where
  touches_mono : (c : Command S) → touches false n c ≤ touches true n c
  touches_mono (Command.submit m intent req) = ground arith
  touches_mono (Command.submit_result m r) = omega arith
  touches_mono Command.start_sweep = omega arith
  touches_mono (Command.sweep_done orders dropped) = omega arith
  touches_mono (Command.observed o) = omega arith
  touches_mono (Command.cancel_command id) = omega arith
  touches_mono (Command.prices xs) = omega arith
  touches_mono (Command.refresh target) = omega arith
  touches_mono Command.demand_changed = omega arith
  touches_mono Command.wake = omega arith

  pub places_mono : (s : System S) → places false n s ≤ places true n s
  places_mono s = omega (
    arith,
    sum_mono (touches false n) (touches true n) touches_mono s.queue,
    sum_mono (λ (j : Job S). sum (touches false n) j.sends)
        (λ (j : Job S). sum (touches true n) j.sends)
        (λ j. sum_mono (touches false n) (touches true n) touches_mono j.sends) s.jobs,
  )
