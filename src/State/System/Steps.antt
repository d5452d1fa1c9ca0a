-- ===== src/State/System/Steps.antt =====
-- crates/tossinvest-state/src/runtime.rs: how the handles, the pump and the tasks interleave. One step
-- is a call of a handle, a turn of the pump, or one action of a detached task; a task's `apply` and
-- its publication are one action here.
use package.tossinvest_rust.Common.{
  String, ◌+◌, ◌<◌, ◌^◌, ◌≡◌, Bool, false, some, List, [], ◌∷◌, ◌++◌,
}
use package.tossinvest_rust.Model.Scalar.{Scalars}
use package.tossinvest_rust.Model.Orders.{OrderId}
use package.tossinvest_rust.Model.Requests.{OrderCreateRequest}
use package.tossinvest_rust.State.Event.{Delta}
use package.tossinvest_rust.State.Ops.{Op}
use package.tossinvest_rust.State.Store.{Store, apply}
use package.tossinvest_rust.State.Pump.{Task, RefreshTarget}
use package.tossinvest_rust.State.System.{
  Network, Job, System, perform, send_all, create_order, cancel_order, refresh, watch_price,
  watch_holdings, clone_handle, release, drop_price_lease, drop_holdings_lease, shutdown, turn,
}

module _ {S : Scalars} where
  pub data Step (s : System S) : System S → Type 0 where
    -- The calls, on a living handle. The counter of local ids does not run out.
    creates :
        (req : OrderCreateRequest S)
        → 0 < s.handles
        → s.local_seq + 1 < 2 ^ 64
        → Step s (create_order req s).1
    cancels : (id : OrderId) → 0 < s.handles → Step s (cancel_order id s)
    refreshes : (target : RefreshTarget) → 0 < s.handles → Step s (refresh target s)
    watches_price : (symbol : String) → 0 < s.handles → Step s (watch_price symbol s)
    watches_holdings : 0 < s.handles → Step s (watch_holdings s)
    clones : 0 < s.handles → Step s (clone_handle s)
    drops_handle : 0 < s.handles → Step s (release s)
    drops_price : (symbol : String) → 0 < s.handles → Step s (drop_price_lease symbol s)
    drops_holdings : 0 < s.handles → Step s (drop_holdings_lease s)
    shuts_down : 0 < s.handles → Step s (shutdown s)
    -- The pump, until it has left its loop.
    turns : (timer : Bool) (t : System S) → s.exited ≡ false → turn timer s ≡ some t → Step s t
    -- A task whose answers have come, one mutation of a task, and its commands at the end.
    answers :
        (net : Network S) (before : List (Task S)) (task : Task S) (after : List (Task S))
        → s.tasks ≡ before ++ (task ∷ after)
        → Step s (record s { tasks = before ++ after; jobs = s.jobs ++ perform net task ∷ [] })
    applies :
        (before : List (Job S)) (op : Op S) (job : Job S) (after : List (Job S))
        (p : Store S × List Delta)
        → s.jobs ≡ before ++ (record job { ops = op ∷ job.ops } ∷ after)
        → apply s.pump.store op ≡ some p
        → Step s
            (record s { pump = record (s.pump) { store = p.0 }; jobs = before ++ (job ∷ after) })
    ends :
        (before : List (Job S)) (job : Job S) (after : List (Job S))
        → s.jobs ≡ before ++ (job ∷ after)
        → job.ops ≡ []
        → Step s (send_all job.sends (record s { jobs = before ++ after }))

  pub data Reach (s : System S) : System S → Type 0 where
    start : Reach s s
    step : {t u : System S} → Reach s t → Step t u → Reach s u
