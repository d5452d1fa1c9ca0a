-- ===== src/State/System/Ready.antt =====
-- crates/tossinvest-state/src/runtime.rs: the pump does not panic as long as the network lists no order
-- with a negative filled quantity.
use mathlib.Core.Path.{subst}
use package.tossinvest_rust.Common.{
  ℕ, ◌≡◌, refl, sym, ap, ◌∙◌, Bool, true, some, List, [], ◌∷◌, ◌++◌, inl, inr, some_injective,
  Bool-cases, if◌then◌else◌, if_rule, All, All-append, All-split,
}
use package.tossinvest_rust.Model.Scalar.{Scalars}
use package.tossinvest_rust.State.Event.{Delta}
use package.tossinvest_rust.State.Ops.{Op}
use package.tossinvest_rust.State.Invariant.{Inv}
use package.tossinvest_rust.State.Store.{Store, apply}
use package.tossinvest_rust.State.Store.Laws.{Ready, apply-Ready, new_store-Ready}
use package.tossinvest_rust.State.Pump.{Pump, Command}
use package.tossinvest_rust.State.Pump.Leases
use package.tossinvest_rust.State.Pump.Total.{IsMildCommand, handle_command-Ready}
use package.tossinvest_rust.State.System.{
  System, Job, spawn, send, send_all, create_order, cancel_order, refresh, watch_price,
  watch_holdings, clone_handle, release, drop_price_lease, drop_holdings_lease, shutdown, stop_turn,
  command_turn, open_turn, turn,
}
use package.tossinvest_rust.State.System.Steps.{
  Step, creates, cancels, refreshes, watches_price, watches_holdings, clones, drops_handle,
  drops_price, drops_holdings, shuts_down, turns, answers, applies, ends, Reach, start, step,
}
use package.tossinvest_rust.State.System.Safe.{
  IsSafe, Reach-IsSafe, spawn-IsSafe, IsFit, background-runtime,
}
use package.tossinvest_rust.State.System.Mild.{IsMildNetwork, IsMildJob, perform-IsMildJob}

module _ {S : Scalars} where
  abbrev IsMildStep : {s t : System S} → Step s t → Type 0
  IsMildStep (answers net before task after e) = IsMildNetwork net
  IsMildStep _ = Unit

  -- A run in which every answer of the network is such.
  abbrev pub IsMildRun : {s t : System S} → Reach s t → Type 0
  IsMildRun start = Unit
  IsMildRun (step r m) = IsMildRun r × IsMildStep m

  pub record IsReady (s : System S) : Type 0 where
    pub stored : Ready s.pump.store
    pub queued : All IsMildCommand s.queue
    pub jobs : All IsMildJob s.jobs

  pub send-IsReady :
      (c : Command S) (s : System S) → IsMildCommand c → IsReady s → IsReady (send c s)
  unfolding send
  send-IsReady c s mild h =
      if_rule IsReady s.exited (λ _. h)
        (λ _. record {
          stored = h.stored;
          queued = All-append IsMildCommand s.queue (c ∷ []) h.queued (mild, tt);
          jobs = h.jobs;
        })

  send_all-IsReady :
      (cs : List (Command S)) (s : System S)
      → All IsMildCommand cs
      → IsReady s
      → IsReady (send_all cs s)
  unfolding send_all
  send_all-IsReady [] s mild h = h
  send_all-IsReady (c ∷ cs) s mild h =
      send_all-IsReady cs (send c s) mild.1 (send-IsReady c s mild.0 h)

  -- The same queue and jobs around a pump with the same store.
  beside-IsReady :
      (s : System S) (p : Pump S) (seq handles : ℕ) (cancelled : Bool)
      → p.store ≡ s.pump.store
      → IsReady s
      → IsReady (record s { pump = p; local_seq = seq; handles = handles; cancelled = cancelled })
  beside-IsReady s p seq handles cancelled same h = record {
    stored = subst Ready (sym same) h.stored;
    queued = h.queued;
    jobs = h.jobs;
  }

  pub command_turn-IsReady :
      (c : Command S) (cs : List (Command S)) (s : System S)
      → IsMildCommand c
      → All IsMildCommand cs
      → IsReady s
      → (t : System S) × (command_turn c cs s ≡ some t) × IsReady t
  unfolding command_turn
  command_turn-IsReady c cs s mild rest h =
      let (p, ts, handled, kept) = handle_command-Ready c s.pump mild h.stored in
      (
        record s { pump = p; queue = cs; tasks = s.tasks ++ ts },
        rw handled refl,
        record { stored = kept; queued = rest; jobs = h.jobs },
      )

  stop_turn-IsReady :
      (s : System S) → IsReady s → (t : System S) × (stop_turn s ≡ some t) × IsReady t
  unfolding stop_turn
  stop_turn-IsReady s h =
      let (q, stopped, kept) = apply-Ready Op.stop s.pump.store tt tt h.stored in
      (
        record s { pump = record (s.pump) { store = q.0 }; queue = []; exited = true },
        rw stopped refl,
        record { stored = kept; queued = tt; jobs = h.jobs },
      )

  open_turn-IsReady :
      (timer : Bool) (queue : List (Command S)) (s : System S)
      → All IsMildCommand queue
      → IsReady s
      → (t : System S) × (open_turn timer queue s ≡ some t) × IsReady t
  unfolding open_turn
  open_turn-IsReady timer [] s mild h =
      (_, refl, if_rule IsReady timer (λ _. send-IsReady Command.start_sweep s tt h) (λ _. h))
  open_turn-IsReady timer (c ∷ cs) s mild h = command_turn-IsReady c cs s mild.0 mild.1 h

  pub turn-IsReady :
      (timer : Bool) (s : System S)
      → IsReady s
      → (t : System S) × (turn timer s ≡ some t) × IsReady t
  unfolding turn
  turn-IsReady timer s h = elim (Bool-cases s.cancelled) [
    | inl over ↦
        let (t, ran, kept) = stop_turn-IsReady s h in
        (t, ap (λ b. if b then stop_turn s else open_turn timer s.queue s) over ∙ ran, kept)
    | inr on ↦
        let (t, ran, kept) = open_turn-IsReady timer s.queue s h.queued h in
        (t, ap (λ b. if b then stop_turn s else open_turn timer s.queue s) on ∙ ran, kept)
  ]

  applies-IsReady :
      (s : System S) (before : List (Job S)) (op : Op S) (job : Job S) (after : List (Job S))
      (p : Store S × List Delta)
      → s.jobs ≡ before ++ (record job { ops = op ∷ job.ops } ∷ after)
      → apply s.pump.store op ≡ some p
      → IsSafe s
      → IsReady s
      → Ready p.0 × All IsMildJob (before ++ (job ∷ after))
  applies-IsReady s before op job after p e ran safe h =
      let (left, (mild, right)) = All-split IsMildJob before _ (subst (All IsMildJob) e h.jobs) in
      let (_, (own, _)) = All-split IsFit before _ (subst (All IsFit) e safe.fit) in
      let (q, again, kept) =
        apply-Ready op s.pump.store (background-runtime op own.0) mild.0.0 h.stored in
      (
        subst (λ x. Ready x.0) (some_injective (sym again ∙ ran)) kept,
        All-append IsMildJob before (job ∷ after) left ((mild.0.1, mild.1), right),
      )

  pub Step-IsReady :
      {s t : System S} (m : Step s t) → IsMildStep m → IsSafe s → IsReady s → IsReady t
  unfolding create_order cancel_order refresh watch_price watch_holdings clone_handle release
      drop_price_lease drop_holdings_lease shutdown
  Step-IsReady {s} (creates req alive room) u safe h =
      send-IsReady _ _ tt (beside-IsReady s s.pump _ s.handles s.cancelled refl h)
  Step-IsReady {s} (cancels id alive) u safe h = send-IsReady _ s tt h
  Step-IsReady {s} (refreshes target alive) u safe h = send-IsReady _ s tt h
  Step-IsReady {s} (watches_price symbol alive) u safe h =
      send-IsReady _ _ tt (beside-IsReady s _ s.local_seq _ s.cancelled refl h)
  Step-IsReady {s} (watches_holdings alive) u safe h =
      send-IsReady _ _ tt (beside-IsReady s _ s.local_seq _ s.cancelled refl h)
  Step-IsReady {s} (clones alive) u safe h =
      beside-IsReady s s.pump s.local_seq _ s.cancelled refl h
  Step-IsReady {s} (drops_handle alive) u safe h = beside-IsReady s s.pump s.local_seq _ _ refl h
  Step-IsReady {s} (drops_price symbol alive) u safe h =
      let s' : System S = record s {
        pump = record (s.pump) { price_demand = Leases.drop_lease symbol s.pump.price_demand };
      } in
      let k =
        send-IsReady Command.demand_changed s' tt
          (beside-IsReady s s'.pump s.local_seq s.handles s.cancelled refl h) in
      beside-IsReady (send Command.demand_changed s') _ _ _ _ refl k
  Step-IsReady {s} (drops_holdings alive) u safe h = beside-IsReady s _ s.local_seq _ _ refl h
  Step-IsReady {s} (shuts_down alive) u safe h =
      beside-IsReady s s.pump s.local_seq s.handles true refl h
  Step-IsReady {s} {t} (turns timer t' inside ran) u safe h =
      let (q, again, kept) = turn-IsReady timer s h in
      subst IsReady (some_injective (sym again ∙ ran)) kept
  Step-IsReady {s} (answers net before task after e) u safe h = record {
    stored = h.stored;
    queued = h.queued;
    jobs = All-append IsMildJob s.jobs _ h.jobs (perform-IsMildJob net task u, tt);
  }
  Step-IsReady {s} (applies before op job after p e ran) u safe h =
      let (kept, jobs) = applies-IsReady s before op job after p e ran safe h in
      record { stored = kept; queued = h.queued; jobs = jobs }
  Step-IsReady {s} (ends before job after e done) u safe h =
      let (left, (own, right)) = All-split IsMildJob before _ (subst (All IsMildJob) e h.jobs) in
      send_all-IsReady job.sends _ own.1 (record {
        stored = h.stored;
        queued = h.queued;
        jobs = All-append IsMildJob before after left right;
      })

  Reach-IsReady : {s t : System S} (r : Reach s t) → IsMildRun r → IsSafe s → IsReady s → IsReady t
  Reach-IsReady start u safe h = h
  Reach-IsReady (step r m) (u, v) safe h =
      Step-IsReady m v (Reach-IsSafe r safe) (Reach-IsReady r u safe h)

spawn-IsReady : (S : Scalars) → IsReady (spawn S)
unfolding spawn
spawn-IsReady S = record { stored = new_store-Ready S; queued = tt; jobs = tt }

pub reached-IsReady : {S : Scalars} {s : System S} (r : Reach (spawn S) s) → IsMildRun r → IsReady s
reached-IsReady {S} r mild = Reach-IsReady r mild (spawn-IsSafe S) (spawn-IsReady S)

-- In every state that the handles, the pump and the tasks reach together while no order that the
-- network gives has a negative filled quantity: the canonical copy keeps the invariant of rows and
-- index, and the pump's next turn returns without a panic, whether it stops, takes a command or only
-- waits.
pub reach-safe :
    {S : Scalars} (s : System S) (timer : Bool) (r : Reach (spawn S) s)
    → IsMildRun r
    → Inv s.pump.store.write × ((t : System S) × (turn timer s ≡ some t))
reach-safe {S} s timer r mild =
    let h = reached-IsReady r mild in
    let (t, ran, _) = turn-IsReady timer s h in (h.stored.in_step.valid, (t, ran))
