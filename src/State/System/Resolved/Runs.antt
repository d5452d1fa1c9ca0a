-- ===== src/State/System/Resolved/Runs.antt =====
-- crates/tossinvest-state/src/runtime.rs: every step of the runtime, and the places and the rows of
-- submissions.
use mathlib.Core.Path.{subst}
use package.tossinvest_rust.Common.{
  ℕ, ◌≡◌, refl, sym, ap, ◌∙◌, Bool, true, false, some, List, [], ◌∷◌, ◌++◌, ℕ_discrete, arith, All,
  All-split, All-append, Bool-cases, inl, inr, some_injective, if_rule, if◌then◌else◌, if_neg,
}
use package.tossinvest_rust.Model.Scalar.{Scalars}
use package.tossinvest_rust.State.Event.{Delta}
use package.tossinvest_rust.State.Rows.{OptimisticOrder}
use package.tossinvest_rust.State.Ops.{Op, >>=-eq-some}
use package.tossinvest_rust.State.Submission.{IsElsewhere}
use package.tossinvest_rust.State.Store.{Store, apply}
use package.tossinvest_rust.State.Pump.{Pump, Command, Task, handle_command}
use package.tossinvest_rust.State.Pump.Leases
use package.tossinvest_rust.State.System.{
  System, Job, spawn, send, send_all, cancel_order, refresh, watch_price, watch_holdings,
  clone_handle, release, drop_price_lease, drop_holdings_lease, shutdown, stop_turn, command_turn,
  open_turn, turn,
}
use package.tossinvest_rust.State.System.Steps.{
  Step, creates, cancels, refreshes, watches_price, watches_holdings, clones, drops_handle,
  drops_price, drops_holdings, shuts_down, turns, answers, applies, ends, Reach, start, step,
}
use package.tossinvest_rust.State.System.Safe.{IsSafe, IsFit, IsBackground, Reach-IsSafe}
use package.tossinvest_rust.State.System.Places.{answers-places, applies-places, ends-places}
use package.tossinvest_rust.State.System.Commands.{Shows, apply-Shows}
use package.tossinvest_rust.State.System.Resolved.Asked.{
  send_all-IsAsked, send_all-IsAskedJob, perform-IsAskedJob,
}
use package.tossinvest_rust.State.System.Resolved.{
  Settled, calm-Settled, send-Settled, create-Settled, other-Settled, own-Settled, answered-Settled,
  store-send, local_seq-send, IsAskedJob,
}

background-IsElsewhere : {S : Scalars} (n : ℕ) (op : Op S) → IsBackground op → IsElsewhere n op
background-IsElsewhere n (Op.observe_order o) h = tt
background-IsElsewhere n (Op.update_holdings x) h = tt
background-IsElsewhere n (Op.price_tick x) h = tt
background-IsElsewhere n (Op.submit_optimistic m intent) h = absurd h
background-IsElsewhere n (Op.confirm m id) h = absurd h
background-IsElsewhere n (Op.submit_failed key message) h = absurd h
background-IsElsewhere n (Op.op_submitted id kind) h = absurd h
background-IsElsewhere n Op.stop h = absurd h

module _ {S : Scalars} (n : ℕ) (W : OptimisticOrder → Type 0) where
  command-Settled :
      (c : Command S) (cs : List (Command S)) (s : System S) (p : Pump S) (ts : List (Task S))
      → s.queue ≡ c ∷ cs
      → IsSafe s
      → handle_command c s.pump ≡ some (p, ts)
      → Settled n W s
      → Settled n W (record s { pump = p; queue = cs; tasks = s.tasks ++ ts })
  command-Settled (Command.submit m intent req) cs s p ts q safe ran h = elim (ℕ_discrete m n) [
    | yes e ↦
        subst
          (λ k.
            s.queue ≡ Command.submit k intent req ∷ cs
            → handle_command (Command.submit k intent req) s.pump ≡ some (p, ts)
            → Settled n W (record s { pump = p; queue = cs; tasks = s.tasks ++ ts }))
          (sym e) (λ q' ran'. own-Settled n W intent req cs s p ts q' ran' h) q ran
    | no ne ↦
        other-Settled n W (Command.submit m intent req) cs s p ts q safe
          (if_neg (ℕ_discrete m n) ne _ _) ran h
  ]
  command-Settled (Command.submit_result m r) cs s p ts q safe ran h = elim (ℕ_discrete m n) [
    | yes e ↦
        subst
          (λ k.
            s.queue ≡ Command.submit_result k r ∷ cs
            → handle_command (Command.submit_result k r) s.pump ≡ some (p, ts)
            → Settled n W (record s { pump = p; queue = cs; tasks = s.tasks ++ ts }))
          (sym e) (λ q' ran'. answered-Settled n W r cs s p ts q' ran' h) q ran
    | no ne ↦
        other-Settled n W (Command.submit_result m r) cs s p ts q safe
          (if_neg (ℕ_discrete m n) ne _ _) ran h
  ]
  command-Settled Command.start_sweep cs s p ts q safe ran h =
      other-Settled n W Command.start_sweep cs s p ts q safe refl ran h
  command-Settled (Command.sweep_done orders dropped) cs s p ts q safe ran h =
      other-Settled n W (Command.sweep_done orders dropped) cs s p ts q safe refl ran h
  command-Settled (Command.observed o) cs s p ts q safe ran h =
      other-Settled n W (Command.observed o) cs s p ts q safe refl ran h
  command-Settled (Command.cancel_command id) cs s p ts q safe ran h =
      other-Settled n W (Command.cancel_command id) cs s p ts q safe refl ran h
  command-Settled (Command.prices xs) cs s p ts q safe ran h =
      other-Settled n W (Command.prices xs) cs s p ts q safe refl ran h
  command-Settled (Command.refresh target) cs s p ts q safe ran h =
      other-Settled n W (Command.refresh target) cs s p ts q safe refl ran h
  command-Settled Command.demand_changed cs s p ts q safe ran h =
      other-Settled n W Command.demand_changed cs s p ts q safe refl ran h
  command-Settled Command.wake cs s p ts q safe ran h =
      other-Settled n W Command.wake cs s p ts q safe refl ran h

  open_turn-Settled :
      (timer : Bool) (queue : List (Command S)) (s t : System S)
      → s.queue ≡ queue
      → IsSafe s
      → open_turn timer queue s ≡ some t
      → Settled n W s
      → Settled n W t
  unfolding open_turn command_turn
  open_turn-Settled timer [] s t q safe ran h = subst (Settled n W) (some_injective ran) (
      if_rule (Settled n W) timer (λ _. send-Settled n W Command.start_sweep s refl refl h)
        (λ _. h))
  open_turn-Settled timer (c ∷ cs) s t q safe ran h =
      let (r, handled, rest) = >>=-eq-some (handle_command c s.pump) _ ran in
      subst (Settled n W) (some_injective rest) (command-Settled c cs s r.0 r.1 q safe handled h)

  stop_turn-Settled :
      (s t : System S) → IsSafe s → stop_turn s ≡ some t → Settled n W s → Settled n W t
  unfolding stop_turn
  stop_turn-Settled s t safe ran h =
      let (q, stopped, rest) = >>=-eq-some (apply s.pump.store Op.stop) _ ran in
      subst (Settled n W) (some_injective rest) (
        calm-Settled n W s
          (record s { pump = record (s.pump) { store = q.0 }; queue = []; exited = true })
          (omega arith) (omega arith) refl
          (λ v row. apply-Shows n v Op.stop s.pump.store q tt safe.stored stopped row) tt h.told h)

  turn-Settled :
      (timer : Bool) (s t : System S)
      → IsSafe s
      → turn timer s ≡ some t
      → Settled n W s
      → Settled n W t
  unfolding turn
  turn-Settled timer s t safe ran h = elim (Bool-cases s.cancelled) [
    | inl over ↦
        stop_turn-Settled s t safe
          (ap (λ b. if b then stop_turn s else open_turn timer s.queue s) (sym over) ∙ ran) h
    | inr on ↦
        open_turn-Settled timer s.queue s t refl safe
          (ap (λ b. if b then stop_turn s else open_turn timer s.queue s) (sym on) ∙ ran) h
  ]

  -- A change outside of the store, the queue, the tasks and the counter.
  beside-Settled :
      (s : System S) (p : Pump S) (handles : ℕ) (cancelled : Bool)
      → p.store ≡ s.pump.store
      → Settled n W s
      → Settled n W (record s { pump = p; handles = handles; cancelled = cancelled })
  beside-Settled s p handles cancelled same h =
      calm-Settled n W s (record s { pump = p; handles = handles; cancelled = cancelled })
        (omega arith) (omega arith) refl (λ v row. subst (Shows n v) (sym same) row) h.asked h.told
        h

  applies-Settled :
      (s : System S) (before : List (Job S)) (op : Op S) (job : Job S) (after : List (Job S))
      (p : Store S × List Delta)
      → s.jobs ≡ before ++ (record job { ops = op ∷ job.ops } ∷ after)
      → apply s.pump.store op ≡ some p
      → IsSafe s
      → Settled n W s
      → Settled n W
          (record s { pump = record (s.pump) { store = p.0 }; jobs = before ++ (job ∷ after) })
  applies-Settled s before op job after p e ran safe h =
      let (left, (own, right)) = All-split IsFit before _ (subst (All IsFit) e safe.fit) in
      let t : System S = record s {
        pump = record (s.pump) { store = p.0 };
        jobs = before ++ (job ∷ after);
      } in
      let (first, sends) =
        All-split (IsAskedJob n W) before _ (subst (All (IsAskedJob n W)) e h.told) in
      let here = applies-places true n s before op job after e in
      let here' = applies-places false n s before op job after e in
      calm-Settled n W s t (omega (arith, here)) (omega (arith, here')) refl
        (λ v row.
          apply-Shows n v op s.pump.store p (background-IsElsewhere n op own.0) safe.stored ran row)
        h.asked (All-append (IsAskedJob n W) before (job ∷ after) first sends) h

  store-send_all :
      (cs : List (Command S)) (s : System S) → (send_all cs s).pump.store ≡ s.pump.store
  unfolding send_all
  store-send_all [] s = refl
  store-send_all (c ∷ cs) s = store-send_all cs (send c s) ∙ store-send n W c s

  local_seq-send_all :
      (cs : List (Command S)) (s : System S) → (send_all cs s).local_seq ≡ s.local_seq
  unfolding send_all
  local_seq-send_all [] s = refl
  local_seq-send_all (c ∷ cs) s = local_seq-send_all cs (send c s) ∙ local_seq-send n W c s

  ends-Settled :
      (s : System S) (before : List (Job S)) (job : Job S) (after : List (Job S))
      → s.jobs ≡ before ++ (job ∷ after)
      → Settled n W s
      → Settled n W (send_all job.sends (record s { jobs = before ++ after }))
  ends-Settled s before job after e h =
      let s' : System S = record s { jobs = before ++ after } in
      let (first, last) =
        All-split (IsAskedJob n W) before _ (subst (All (IsAskedJob n W)) e h.told) in
      calm-Settled n W s (send_all job.sends s') (ends-places true n s before job after e)
        (ends-places false n s before job after e) (local_seq-send_all job.sends s')
        (λ v row. subst (Shows n v) (sym (store-send_all job.sends s')) row)
        (send_all-IsAsked n W job.sends s' last.0 h.asked)
        (send_all-IsAskedJob n W job.sends s'
          (All-append (IsAskedJob n W) before after first last.1))
        h

  Step-Settled : {s t : System S} → Step s t → IsSafe s → Settled n W s → Settled n W t
  unfolding cancel_order refresh watch_price watch_holdings clone_handle release drop_price_lease
      drop_holdings_lease shutdown
  Step-Settled {s} (creates req alive room) safe h = create-Settled n W req s room h
  Step-Settled {s} (cancels id alive) safe h =
      send-Settled n W (Command.cancel_command id) s refl refl h
  Step-Settled {s} (refreshes target alive) safe h =
      send-Settled n W (Command.refresh target) s refl refl h
  Step-Settled {s} (watches_price symbol alive) safe h =
      send-Settled n W Command.demand_changed _ refl refl (beside-Settled s _ _ s.cancelled refl h)
  Step-Settled {s} (watches_holdings alive) safe h =
      send-Settled n W Command.demand_changed _ refl refl (beside-Settled s _ _ s.cancelled refl h)
  Step-Settled {s} (clones alive) safe h = beside-Settled s s.pump _ s.cancelled refl h
  Step-Settled {s} (drops_handle alive) safe h = beside-Settled s s.pump _ _ refl h
  Step-Settled {s} (drops_price symbol alive) safe h =
      let s' : System S = record s {
        pump = record (s.pump) { price_demand = Leases.drop_lease symbol s.pump.price_demand };
      } in
      let k =
        send-Settled n W Command.demand_changed s' refl refl
          (beside-Settled s s'.pump s.handles s.cancelled refl h) in
      beside-Settled (send Command.demand_changed s') _ _ _ refl k
  Step-Settled {s} (drops_holdings alive) safe h = beside-Settled s _ _ _ refl h
  Step-Settled {s} (shuts_down alive) safe h = beside-Settled s s.pump s.handles true refl h
  Step-Settled {s} {t} (turns timer t' inside ran) safe h = turn-Settled timer s t safe ran h
  Step-Settled {s} {t} (answers net before task after e) safe h =
      let here = answers-places true n net s before task after e in
      let here' = answers-places false n net s before task after e in
      calm-Settled n W s t (omega (arith, here)) (omega (arith, here')) refl (λ v row. row) h.asked
        (All-append (IsAskedJob n W) s.jobs _ h.told (perform-IsAskedJob n W net task, tt)) h
  Step-Settled {s} (applies before op job after p e ran) safe h =
      applies-Settled s before op job after p e ran safe h
  Step-Settled {s} (ends before job after e done) safe h = ends-Settled s before job after e h

  pub Reach-Settled : {s t : System S} → Reach s t → IsSafe s → Settled n W s → Settled n W t
  Reach-Settled start safe h = h
  Reach-Settled (step r m) safe h = Step-Settled m (Reach-IsSafe r safe) (Reach-Settled r safe h)

pub spawn-Settled : {S : Scalars} (n : ℕ) → Settled n (λ _. Unit) (spawn S)
unfolding spawn
spawn-Settled n = record {
  once = omega arith;
  unused = λ low. refl;
  shown = λ waits. absurd (omega (arith, waits));
  fresh = λ req low. tt;
  asked = tt;
  told = tt;
}
