-- ===== src/State/System/Resolved.antt =====
-- crates/tossinvest-state/src/runtime.rs, `create_order` and `SubmitResult`: a submission is in one
-- place at a time, and until its answer is handled its provisional row stands.
pub mod Asked
pub mod Runs
pub mod Answer
pub mod Arrives
use mathlib.Core.Path.{subst}
use package.tossinvest_rust.Common.{
  String, ℕ, suc, ◌+◌, ◌≤◌, ◌<◌, ◌^◌, ◌%◌, ◌≡◌, ◌≢◌, refl, sym, ap, ◌∙◌, Bool, true, false, Option,
  none, some, List, [], ◌∷◌, ◌++◌, ℕ_discrete, arith, sum, sum-append, All, All-split, All-append,
  ◌⊎◌, Bool-cases, inl, inr, some_injective, if_rule, if◌then◌else◌,
}
use package.tossinvest_rust.Model.Scalar.{Scalars}
use package.tossinvest_rust.Model.Requests.{OrderCreateRequest}
use package.tossinvest_rust.State.Event.{Delta}
use package.tossinvest_rust.State.Rows.{OptimisticOrder, optimistic_view, next_u64}
use package.tossinvest_rust.State.View.{OrderView}
use package.tossinvest_rust.State.Ops.{Op, >>=-eq-some}
use package.tossinvest_rust.State.Submission.{IsElsewhere}
use package.tossinvest_rust.State.Store.{Store, apply}
use package.tossinvest_rust.State.Pump.{Pump, Command, Task, handle_command, intent_of}
use package.tossinvest_rust.State.System.{
  System, Job, Network, spawn, send, send_all, perform, create_order, stop_turn, command_turn,
  open_turn, turn,
}
use package.tossinvest_rust.State.System.Safe.{IsSafe, IsFit, IsBackground}
use package.tossinvest_rust.State.System.Places.{
  hit, touches, creates, places, places_mono, send-places, answers-places, applies-places,
  ends-places,
}
use package.tossinvest_rust.State.System.Commands.{
  Shows, apply-Shows, command-Shows, command-tasks, submit-Shows, hit-zero,
}

pub next_u64_lem : (k : ℕ) → k + 1 < 2 ^ 64 → next_u64 k ≡ k + 1
unfolding next_u64
next_u64_lem k room = omega arith

module _ {S : Scalars} (n : ℕ) (W : OptimisticOrder → Type 0) where
  -- A submission n in the queue has an intent that satisfies W.
  abbrev pub IsAsked : Command S → Type 0
  IsAsked (Command.submit m intent req) = (m ≢ n) ⊎ W intent
  IsAsked _ = Unit

  abbrev pub IsAskedJob : Job S → Type 0
  IsAskedJob job = All IsAsked job.sends

  -- Submission n: at one place at most, at none before its id is given, and with its provisional row
  -- while the task that creates the order runs, and until its answer is handled. Its intent satisfies
  -- W, which every intent does as long as the id is not given.
  pub record Settled (s : System S) : Type 0 where
    pub once : places true n s ≤ 1
    pub unused : s.local_seq ≤ n → places true n s ≡ 0
    pub shown :
        0 < places false n s
        → (intent : OptimisticOrder) × W intent × Shows n (optimistic_view n intent) s.pump.store
    pub fresh : (req : OrderCreateRequest S) → s.local_seq ≤ n → W (intent_of req)
    pub asked : All IsAsked s.queue
    pub told : All IsAskedJob s.jobs

  -- A step that adds no place and leaves the row.
  pub calm-Settled :
      (s t : System S)
      → places true n t ≤ places true n s
      → places false n t ≤ places false n s
      → t.local_seq ≡ s.local_seq
      → ((v : OrderView) → Shows n v s.pump.store → Shows n v t.pump.store)
      → All IsAsked t.queue
      → All IsAskedJob t.jobs
      → Settled s
      → Settled t
  calm-Settled s t fewer fewer' same keeps asked told h = record {
    once = omega (arith, fewer, h.once);
    unused = λ low. omega (arith, fewer, h.unused (subst (λ k. k ≤ n) same low));
    shown = λ waits.
        let (intent, wanted, row) = h.shown (omega (arith, fewer', waits)) in
        (intent, wanted, keeps (optimistic_view n intent) row);
    fresh = λ req low. h.fresh req (subst (λ k. k ≤ n) same low);
    asked = asked;
    told = told;
  }

  pub untouched-IsAsked : (c : Command S) → touches true n c ≡ 0 → IsAsked c
  untouched-IsAsked (Command.submit m intent req) h = inl (hit-zero m n h)
  untouched-IsAsked Command.start_sweep h = tt
  untouched-IsAsked (Command.sweep_done orders dropped) h = tt
  untouched-IsAsked (Command.observed o) h = tt
  untouched-IsAsked (Command.submit_result m r) h = tt
  untouched-IsAsked (Command.cancel_command id) h = tt
  untouched-IsAsked (Command.prices xs) h = tt
  untouched-IsAsked (Command.refresh target) h = tt
  untouched-IsAsked Command.demand_changed h = tt
  untouched-IsAsked Command.wake h = tt

  pub send-IsAsked :
      (c : Command S) (s : System S)
      → IsAsked c
      → All IsAsked s.queue
      → All IsAsked (send c s).queue
  unfolding send
  send-IsAsked c s own h =
      if_rule (λ (t : System S). All IsAsked t.queue) s.exited (λ _. h)
        (λ _. All-append IsAsked s.queue (c ∷ []) h (own, tt))

  pub send-IsAskedJob :
      (c : Command S) (s : System S) → All IsAskedJob s.jobs → All IsAskedJob (send c s).jobs
  unfolding send
  send-IsAskedJob c s h =
      if_rule (λ (t : System S). All IsAskedJob t.jobs) s.exited (λ _. h) (λ _. h)

  -- A command of another kind than a submission or its answer.
  pub send-Settled :
      (c : Command S) (s : System S)
      → touches true n c ≡ 0
      → touches false n c ≡ 0
      → Settled s
      → Settled (send c s)
  unfolding send
  send-Settled c s none_here none_here' h =
      calm-Settled s (send c s) (omega (arith, send-places true n c s, none_here))
        (omega (arith, send-places false n c s, none_here'))
        (if_rule (λ (t : System S). t.local_seq ≡ s.local_seq) s.exited (λ _. refl) (λ _. refl))
        (λ v row. if_rule (λ (t : System S). Shows n v t.pump.store) s.exited (λ _. row) (λ _. row))
        (send-IsAsked c s (untouched-IsAsked c none_here) h.asked) (send-IsAskedJob c s h.told) h

  pub local_seq-send : (c : Command S) (s : System S) → (send c s).local_seq ≡ s.local_seq
  unfolding send
  local_seq-send c s =
      if_rule (λ (t : System S). t.local_seq ≡ s.local_seq) s.exited (λ _. refl) (λ _. refl)

  pub store-send : (c : Command S) (s : System S) → (send c s).pump.store ≡ s.pump.store
  unfolding send
  store-send c s =
      if_rule (λ (t : System S). t.pump.store ≡ s.pump.store) s.exited (λ _. refl) (λ _. refl)

  -- The next id is a new one.
  pub create-Settled :
      (req : OrderCreateRequest S) (s : System S)
      → s.local_seq + 1 < 2 ^ 64
      → Settled s
      → Settled ((create_order req s).1)
  unfolding create_order
  create-Settled req s room h =
      let c : Command S = Command.submit s.local_seq (intent_of req) req in
      let s' : System S = record s { local_seq = next_u64 s.local_seq } in
      let seq : (send c s').local_seq ≡ s.local_seq + 1 =
        local_seq-send c s' ∙ next_u64_lem s.local_seq room in
      record {
        once = elim (ℕ_discrete s.local_seq n) [
          | yes e ↦ ground (arith, send-places true n c s', h.unused (omega (arith, e)), e)
          | no ne ↦ ground (arith, send-places true n c s', h.once, ne)
        ];
        unused = λ low.
            ground (arith, send-places true n c s', h.unused (omega (arith, seq, low)), seq, low);
        shown = λ waits.
            let (intent, wanted, row) = h.shown (omega (arith, send-places false n c s', waits)) in
            (
              intent,
              wanted,
              subst (Shows n (optimistic_view n intent)) (sym (store-send c s')) row,
            );
        fresh = λ req' low. h.fresh req' (omega (arith, seq, low));
        asked =
            send-IsAsked c s'
              (elim (ℕ_discrete s.local_seq n) [
                | yes e ↦ inr (h.fresh req (omega (arith, e)))
                | no ne ↦ inl ne
              ])
              h.asked;
        told = send-IsAskedJob c s' h.told;
      }

  -- Once the command is not about n, its turn is calm.
  pub other-Settled :
      (c : Command S) (cs : List (Command S)) (s : System S) (p : Pump S) (ts : List (Task S))
      → s.queue ≡ c ∷ cs
      → IsSafe s
      → touches true n c ≡ 0
      → handle_command c s.pump ≡ some (p, ts)
      → Settled s
      → Settled (record s { pump = p; queue = cs; tasks = s.tasks ++ ts })
  other-Settled c cs s p ts q safe other ran h =
      calm-Settled s (record s { pump = p; queue = cs; tasks = s.tasks ++ ts })
        (omega (
          arith,
          ap (sum (touches true n)) q,
          sum-append (creates n) s.tasks ts,
          command-tasks n c s.pump p ts ran,
          other,
        ))
        (omega (
          arith,
          ap (sum (touches false n)) q,
          sum-append (creates n) s.tasks ts,
          command-tasks n c s.pump p ts ran,
          other,
        ))
        refl (λ v row. command-Shows n v c s.pump p ts safe.stored other ran row)
        (subst (All IsAsked) q h.asked).1 h.told h

  -- The turn that takes the submission shows its row.
  pub own-Settled :
      (intent : OptimisticOrder) (req : OrderCreateRequest S) (cs : List (Command S)) (s : System S)
      (p : Pump S) (ts : List (Task S))
      → s.queue ≡ Command.submit n intent req ∷ cs
      → handle_command (Command.submit n intent req) s.pump ≡ some (p, ts)
      → Settled s
      → Settled (record s { pump = p; queue = cs; tasks = s.tasks ++ ts })
  own-Settled intent req cs s p ts q ran h = record {
    once = omega (
      arith,
      ap (sum (touches true n)) q,
      sum-append (creates n) s.tasks ts,
      command-tasks n (Command.submit n intent req) s.pump p ts ran,
      h.once,
    );
    unused = λ low. omega (
      arith,
      ap (sum (touches true n)) q,
      sum-append (creates n) s.tasks ts,
      command-tasks n (Command.submit n intent req) s.pump p ts ran,
      h.unused low,
    );
    shown = λ waits. (intent, wanted, submit-Shows n intent req s.pump p ts ran);
    fresh = h.fresh;
    asked = queue.1;
    told = h.told;
  }
    where
      queue : All IsAsked (Command.submit n intent req ∷ cs)
      queue = subst (All IsAsked) q h.asked

      wanted : W intent
      wanted = elim queue.0 [ inl other ↦ absurd (other refl) | inr w ↦ w ]

  -- The turn that takes the answer leaves no place.
  pub answered-Settled :
      (r : _) (cs : List (Command S)) (s : System S) (p : Pump S) (ts : List (Task S))
      → s.queue ≡ Command.submit_result n r ∷ cs
      → handle_command (Command.submit_result n r) s.pump ≡ some (p, ts)
      → Settled s
      → Settled (record s { pump = p; queue = cs; tasks = s.tasks ++ ts })
  answered-Settled r cs s p ts q ran h =
      let t : System S = record s { pump = p; queue = cs; tasks = s.tasks ++ ts } in
      let gone : places true n t ≡ 0 = ground (
        arith,
        ap (sum (touches true n)) q,
        sum-append (creates n) s.tasks ts,
        command-tasks n (Command.submit_result n r) s.pump p ts ran,
        h.once,
      ) in
      record {
        once = omega (arith, gone);
        unused = λ low. gone;
        shown = λ waits. absurd (omega (arith, gone, places_mono n t, waits));
        fresh = h.fresh;
        asked = (subst (All IsAsked) q h.asked).1;
        told = h.told;
      }
