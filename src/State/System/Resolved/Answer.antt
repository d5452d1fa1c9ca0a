-- ===== src/State/System/Resolved/Answer.antt =====
-- crates/tossinvest-state/src/runtime.rs, `Submit` and `SubmitResult`: the way of a submission from its
-- task to its answer.
use mathlib.Core.Path.{subst}
use package.tossinvest_rust.Common.{
  String, ℕ, ◌+◌, ◌^◌, ◌<◌, ◌≡◌, refl, ◌∙◌, sum, All, ◌∷◌, true, false, none, some, List, [], arith,
  Option-cases, inl, inr, some_injective, string_key,
}
use package.tossinvest_rust.Common.Result.{Result, ok, err}
use package.tossinvest_rust.Common.HashMap
use package.tossinvest_rust.Common.HashMap.{get}
use package.tossinvest_rust.Model.Scalar.{Scalars}
use package.tossinvest_rust.Model.Orders.{OrderId}
use package.tossinvest_rust.State.Event.{OrderKey, local, server, order_key_key, Delta}
use package.tossinvest_rust.State.Rows.{
  next_u64, OptimisticOrder, optimistic_view, confirmed_view, failed_view,
}
use package.tossinvest_rust.State.View.{OrderView}
use package.tossinvest_rust.State.Projection.{ProjectedState, bump, rekey, confirm, submit_failed}
use package.tossinvest_rust.State.Invariant.{Inv, local_ne_server}
use package.tossinvest_rust.State.Submission.{server_ne_local}
use package.tossinvest_rust.State.Ops.{Op, step, >>=-eq-some}
use package.tossinvest_rust.State.Store.{apply}
use package.tossinvest_rust.State.Pump.{Pump, Command, Task, intent_of, mutate, handle_command}
use package.tossinvest_rust.State.Pump.Invalidation.{apply-sent}
use package.tossinvest_rust.State.System.{System, Job, spawn, send, create_order}
use package.tossinvest_rust.State.System.Steps.{Reach, creates}
use package.tossinvest_rust.State.System.Safe.{spawn-IsSafe, Step-IsSafe, Reach-IsSafe}
use package.tossinvest_rust.State.System.Places.{
  places, places_mono, touches, send-places, hit_self,
}
use package.tossinvest_rust.State.System.Resolved.{
  Settled, IsAsked, IsAskedJob, untouched-IsAsked, send-IsAsked, send-IsAskedJob, local_seq-send,
  next_u64_lem,
}
use package.tossinvest_rust.Model.Requests.{OrderCreateRequest}
use package.tossinvest_rust.State.System.Commands.{Shows}
use package.tossinvest_rust.State.Pump.Kept.{spawning-some}
use package.tossinvest_rust.State.System.Resolved.Runs.{Reach-Settled, spawn-Settled}

-- While the task that creates order n runs, or its answer is on its way, the submission is in that one
-- place and some provisional row stands.
pub waiting-stands :
    {S : Scalars} (s : System S) (n : ℕ)
    → Reach (spawn S) s
    → 0 < places false n s
    → (places true n s ≡ 1)
      × ((intent : OptimisticOrder) × (get (local n) s.pump.store.write.orders
            ≡ some (optimistic_view n intent)))
waiting-stands {S} s n r waits =
    let h = Reach-Settled n (λ _. Unit) r (spawn-IsSafe S) (spawn-Settled n) in
    let (intent, _, row) = h.shown waits in
    (omega (arith, h.once, places_mono n s, waits), (intent, row))

-- No command in the queue is a submission n, if none is at a place.
absent-IsAsked :
    {S : Scalars} (n : ℕ) (W : OptimisticOrder → Type 0) (cs : List (Command S))
    → sum (touches true n) cs ≡ 0
    → All (IsAsked n W) cs
absent-IsAsked n W [] h = tt
absent-IsAsked n W (c ∷ cs) h =
    (untouched-IsAsked n W c (omega (arith, h)), absent-IsAsked n W cs (omega (arith, h)))

absent-IsAskedJob :
    {S : Scalars} (n : ℕ) (W : OptimisticOrder → Type 0) (jobs : List (Job S))
    → sum (λ (j : Job S). sum (touches true n) j.sends) jobs ≡ 0
    → All (IsAskedJob n W) jobs
absent-IsAskedJob n W [] h = tt
absent-IsAskedJob n W (j ∷ jobs) h =
    (absent-IsAsked n W j.sends (omega (arith, h)), absent-IsAskedJob n W jobs (omega (arith, h)))

-- The call of `create_order` gives the next id to an order with the intent of its request.
created-Settled :
    {S : Scalars} (s : System S) (req : OrderCreateRequest S)
    → s.local_seq + 1 < 2 ^ 64
    → Settled s.local_seq (λ _. Unit) s
    → Settled s.local_seq (λ intent. intent ≡ intent_of req) ((create_order req s).1)
unfolding create_order
created-Settled {S} s req room h =
    let n = s.local_seq in
    let W : OptimisticOrder → Type 0 = λ intent. intent ≡ intent_of req in
    let c : Command S = Command.submit n (intent_of req) req in
    let s' : System S = record s { local_seq = next_u64 n } in
    let gone : places true n s ≡ 0 = h.unused (omega arith) in
    let seq : (send c s').local_seq ≡ n + 1 = local_seq-send n W c s' ∙ next_u64_lem n room in
    record {
      once = omega (arith, send-places true n c s', gone, hit_self n);
      unused = λ low. absurd (omega (arith, seq, low));
      shown =
          λ waits. absurd (omega (arith, send-places false n c s', places_mono n s', gone, waits));
      fresh = λ req' low. absurd (omega (arith, seq, low));
      asked = send-IsAsked n W c s' (inr refl) (absent-IsAsked n W s.queue (omega (arith, gone)));
      told = send-IsAskedJob n W c s' (absent-IsAskedJob n W s.jobs (omega (arith, gone)));
    }

-- A living handle calls `create_order` in a state that the runtime reaches, and the runtime goes on: as
-- long as the task that creates this order runs, or its answer is on its way, the submission is in
-- that one place only, and the canonical copy shows under its local id the provisional row of the
-- request's own intent, unchanged - no sweep, refresh, cancellation or other submission has touched
-- it. The counter of local ids does not run out.
pub provisional-stands :
    {S : Scalars} (s t : System S) (req : OrderCreateRequest S)
    → Reach (spawn S) s
    → 0 < s.handles
    → s.local_seq + 1 < 2 ^ 64
    → Reach ((create_order req s).1) t
    → 0 < places false s.local_seq t
    → (places true s.local_seq t ≡ 1)
      × (get (local s.local_seq) t.pump.store.write.orders
          ≡ some (optimistic_view s.local_seq (intent_of req)))
provisional-stands {S} s t req r alive room later waits =
    let n = s.local_seq in
    let before = Reach-Settled n (λ _. Unit) r (spawn-IsSafe S) (spawn-Settled n) in
    let safe = Step-IsSafe (creates req alive room) (Reach-IsSafe r (spawn-IsSafe S)) in
    let h =
      Reach-Settled n (λ intent. intent ≡ intent_of req) later safe
        (created-Settled s req room before) in
    let (intent, same, row) = h.shown waits in
    (
      omega (arith, h.once, places_mono n t, waits),
      subst (λ i. get (local n) t.pump.store.write.orders ≡ some (optimistic_view n i)) same row,
    )

-- What the answer makes of the provisional row.
abbrev pub IsResolved : {S : Scalars} → ℕ → Result OrderId String → ProjectedState S → Type 0
IsResolved n (ok id) s =
    (get (local n) s.orders ≡ none) × ((v : OrderView) × (get (server id) s.orders ≡ some v))
IsResolved n (err message) s =
    (intent : OptimisticOrder) × (get (local n) s.orders
      ≡ some (failed_view (optimistic_view n intent) message))

module _ {S : Scalars} (n : ℕ) (intent : OptimisticOrder) (s : ProjectedState S) (i : Inv s)
    (h : get (local n) s.orders ≡ some (optimistic_view n intent)) where
  removed :
      (m : HashMap.HashMap OrderKey OrderView) → get (local n) (HashMap.remove (local n) m) ≡ none
  removed m = HashMap.get-remove_self (local n) m

  confirmed : (id : OrderId) → IsResolved n (ok id) ((confirm s n id).0)
  unfolding confirm rekey bump
  confirmed id = elim (Option-cases (get id s.server_index)) [
    | inl unseen ↦
        let view = confirmed_view (optimistic_view n intent) id in
        let rest = HashMap.remove (local n) s.orders in
        rw (unseen, confirm)
          (rw (h, rekey)
            (
              HashMap.get-insert_ne (server id) (local n) view rest server_ne_local
                  ∙ removed s.orders,
              (view, HashMap.get-insert_self (server id) view rest),
            ))
    | inr (k, seen) ↦
        let (v, present) = i.routes.1 id k seen in
        rw (seen, confirm)
          (
            removed s.orders,
            (v, HashMap.get-remove_ne (local n) (server id) s.orders local_ne_server ∙ present),
          )
  ]

  failed : (message : String) → IsResolved n (err message) ((submit_failed s (local n) message).0)
  unfolding submit_failed bump
  failed message = (
    intent,
    rw (h, submit_failed)
        (HashMap.get-insert_self (local n) (failed_view (optimistic_view n intent) message)
          s.orders),
  )

module _ {S : Scalars} (n : ℕ) (intent : OptimisticOrder) where
  apply-resolves :
      (r : Result OrderId String) (op : Op S) (p p' : Pump S)
      → ((q : ProjectedState S × List Delta) → step op p.store.write ≡ some q → IsResolved n r q.0)
      → mutate op p ≡ some p'
      → IsResolved n r p'.store.write
  unfolding mutate
  apply-resolves r op p p' made ran =
      let (q, applied, rest) = >>=-eq-some (apply p.store op) _ ran in
      subst (λ (x : Pump S). IsResolved n r x.store.write) (some_injective rest)
        (made (q.0.write, q.1) (apply-sent p.store op q applied).0)

  -- The command with the answer resolves the row.
  pub result-resolves :
      (r : Result OrderId String) (p p' : Pump S) (ts : List (Task S))
      → Inv p.store.write
      → Shows n (optimistic_view n intent) p.store
      → handle_command (Command.submit_result n r) p ≡ some (p', ts)
      → IsResolved n r p'.store.write
  unfolding handle_command step
  result-resolves (ok id) p p' ts i h ran =
      apply-resolves (ok id) (Op.confirm n id) p p'
        (λ q stepped.
          subst (λ x. IsResolved n (ok id) x.0) (some_injective stepped)
            (confirmed n intent p.store.write i h id))
        (spawning-some (mutate (Op.confirm n id) p) [] p' ts ran).0
  result-resolves (err message) p p' ts i h ran =
      apply-resolves (err message) (Op.submit_failed (local n) message) p p'
        (λ q stepped.
          subst (λ x. IsResolved n (err message) x.0) (some_injective stepped)
            (failed n intent p.store.write i h message))
        (spawning-some (mutate (Op.submit_failed (local n) message) p) [] p' ts ran).0
