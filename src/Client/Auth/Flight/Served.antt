-- ===== src/Client/Auth/Flight/Served.antt =====
-- crates/tossinvest/src/auth.rs, `refresh_lock`: a task that waits for it can always be served.
use mathlib.Core.Path.{subst}
use package.tossinvest_rust.Common.{
  String, ℕ, ◌≡◌, ◌≢◌, refl, sym, ap, ◌∙◌, none, inl, inr, Option-cases,
}
use package.tossinvest_rust.Common.Table.{update, update_self, update_ne}
use package.tossinvest_rust.Common.Result.{Result, ok, err, Result-cases}
use package.tossinvest_rust.Client.Error.{Error, TransportError}
use package.tossinvest_rust.Client.Transport.{RawResponse}
use package.tossinvest_rust.Client.Auth.{token_request, on_token_answer}
use package.tossinvest_rust.Client.Auth.Flight.{
  Caller, calling, waiting, holding, sending, dropped, returned, departure, Manager, State, fresh,
  leave, acquire, recheck, receive, acquires, rechecks, receives, Reach, start, step,
}
use package.tossinvest_rust.Client.Auth.Flight.Exclusive.{HasLock, Reach-Locked, departure-Locked}

module _ (T : Manager) where
  pub Reach-trans : {s t u : State T} → Reach T s t → Reach T t u → Reach T s u
  Reach-trans m start = m
  Reach-trans m (step i n move) = step i (Reach-trans m n) move

  -- Task i is back with some result, the lock is free, and the other tasks stand where they stood.
  record Back (s : State T) (i : ℕ) (t : State T) : Type 0 where
    result : Result String Error
    back : t.callers i ≡ returned result
    free : t.lock ≡ none
    others : (j : ℕ) → i ≢ j → t.callers j ≡ s.callers j

  leave-Back :
      (s s' : State T) (i : ℕ) (r : Result String Error)
      → ((j : ℕ) → i ≢ j → s'.callers j ≡ s.callers j)
      → Back s i (leave T s' i (returned r))
  unfolding leave
  leave-Back s s' i r kept = record {
    result = r;
    back = update_self s'.callers i (returned r);
    free = refl;
    others = λ j ne. update_ne s'.callers i j (returned r) ne ∙ kept j ne;
  }

  -- The end of the request, whatever the answer is.
  receives-Back :
      (s s' : State T) (i : ℕ) (answer : Result (RawResponse T.http) TransportError)
      → s'.callers i ≡ sending
      → ((j : ℕ) → i ≢ j → s'.callers j ≡ s.callers j)
      → (t : State T) × Reach T s' t × Back s i t
  unfolding receive
  receives-Back s s' i answer e kept = (
    receive T s' i answer,
    step i start (receives answer e),
    leave-Back s (record s' { cache = (on_token_answer T.store T.codec s'.cache s'.now answer).0 })
        i _ kept,
  )

  -- The task that holds the lock can run to its end.
  holding-Back :
      (s s' : State T) (i : ℕ) (answer : Result (RawResponse T.http) TransportError)
      → s'.callers i ≡ holding
      → ((j : ℕ) → i ≢ j → s'.callers j ≡ s.callers j)
      → (t : State T) × Reach T s' t × Back s i t
  unfolding recheck
  holding-Back s s' i answer e kept =
      let only : Reach T s' (recheck T s' i) = step i start (rechecks e) in
      elim (Option-cases (fresh T s')) [
        | inl stale ↦ elim (Result-cases (token_request T.http T.codec T.creds)) [
          | inl (x, bad) ↦
              let ends : recheck T s' i ≡ leave T s' i (returned (err (Error.transport x))) =
                rw (stale, bad, recheck) refl in
              (recheck T s' i, only, subst (Back s i) (sym ends) (leave-Back s s' i _ kept))
          | inr (req, built) ↦
              let sends : (recheck T s' i).callers ≡ update s'.callers i sending =
                rw (stale, built, recheck) refl in
              let (t, m, b) =
                receives-Back s (recheck T s' i) i answer
                  (ap (λ f. f i) sends ∙ update_self s'.callers i sending)
                  (λ j ne. ap (λ f. f j) sends ∙ update_ne s'.callers i j sending ne ∙ kept j ne) in
              (t, Reach-trans only m, b)
        ]
        | inr (t, found) ↦
            let ends : recheck T s' i ≡ leave T s' i (returned (ok t)) = rw (found, recheck) refl in
            (recheck T s' i, only, subst (Back s i) (sym ends) (leave-Back s s' i _ kept))
      ]

  -- A task that waits for the free lock can be served.
  free-Back :
      (s : State T) (i : ℕ) (answer : Result (RawResponse T.http) TransportError)
      → s.callers i ≡ waiting
      → s.lock ≡ none
      → (t : State T) × Reach T s t × Back s i t
  unfolding acquire
  free-Back s i answer e free =
      let (t, m, b) =
        holding-Back s (acquire T s i) i answer (update_self s.callers i holding)
          (λ j ne. update_ne s.callers i j holding ne) in
      (t, Reach-trans (step i start (acquires e free)) m, b)

  -- The task that has the lock can run to its end.
  owner-Back :
      (s : State T) (k : ℕ) (answer : Result (RawResponse T.http) TransportError) (c : Caller)
      → s.callers k ≡ c
      → HasLock c
      → (t : State T) × Reach T s t × Back s k t
  owner-Back s k answer holding e held = holding-Back s s k answer e (λ j ne. refl)
  owner-Back s k answer sending e held = receives-Back s s k answer e (λ j ne. refl)
  owner-Back s k answer calling e held = absurd held
  owner-Back s k answer waiting e held = absurd held
  owner-Back s k answer dropped e held = absurd held
  owner-Back s k answer (returned r) e held = absurd held

-- In every state that the tasks can reach, with expiries, invalidations, failed answers and dropped
-- tasks before: if task i waits for the lock and the transport answers whatever it answers from then
-- on, there are steps after which i is back with a result and the lock is free. So neither an error
-- nor a dropped task leaves the lock taken.
pub waiting-served :
    (T : Manager) (cache : T.store.Cache) (now i : ℕ) (s : State T)
    (answer : Result (RawResponse T.http) TransportError)
    → Reach T (departure T.store cache now) s
    → s.callers i ≡ waiting
    → (t : State T) × Reach T s t
      × ((r : Result String Error) × (t.callers i ≡ returned r) × (t.lock ≡ none))
waiting-served T cache now i s answer m e =
    let locked = Reach-Locked T m (departure-Locked T cache now) in
    elim (Option-cases s.lock) [
      | inl free ↦
          let (t, run, b) = free-Back T s i answer e free in (t, run, (b.result, b.back, b.free))
      | inr (k, taken) ↦
          let (t, run, b) = owner-Back T s k answer (s.callers k) refl (locked.owned k taken) in
          let still =
            b.others i (λ own. subst HasLock (ap s.callers own ∙ e) (locked.owned k taken)) ∙ e in
          let (u, run', b') = free-Back T t i answer still b.free in
          (u, Reach-trans T run run', (b'.result, b'.back, b'.free))
    ]
