-- ===== src/Client/Auth/Flight/Exclusive.antt =====
-- crates/tossinvest/src/auth.rs, `refresh_lock`: who holds it.
use mathlib.Core.Path.{subst}
use package.tossinvest_rust.Common.{
  ℕ, ◌≡◌, refl, sym, ◌∙◌, Option, none, some, some_injective, none≢some, inl, inr, Option-cases,
}
use package.tossinvest_rust.Common.Table.{update, update_all}
use package.tossinvest_rust.Common.Result.{ok, Result-cases}
use package.tossinvest_rust.Client.Auth.{token_request}
use package.tossinvest_rust.Client.Auth.Flight.{
  Caller, calling, waiting, holding, sending, dropped, returned, departure, Manager, State, fresh,
  leave, check, acquire, recheck, receive, Step, checks, acquires, rechecks, receives,
  drops_waiting, drops_holding, drops_sending, invalidates, ticks, Reach, start, step,
}

abbrev pub HasLock : Caller → Type 0
HasLock holding = Unit
HasLock sending = Unit
HasLock _ = ⊥

-- The lock is held by the task that stands behind it, and by no other.
pub record Locked (lock : Option ℕ) (callers : ℕ → Caller) : Type 0 where
  pub owner : (j : ℕ) → HasLock (callers j) → lock ≡ some j
  pub owned : (j : ℕ) → lock ≡ some j → HasLock (callers j)

module _ (lock : Option ℕ) (f : ℕ → Caller) (i : ℕ) (c : Caller) (h : Locked lock f) where
  -- A task without the lock goes on without it.
  stays-Locked : ¬ (HasLock (f i)) → ¬ (HasLock c) → Locked lock (update f i c)
  stays-Locked before after = record {
    owner =
        update_all (λ j q. HasLock q → lock ≡ some j) f i c (λ j ne. h.owner j)
          (λ held. absurd (after held));
    owned =
        update_all (λ j q. lock ≡ some j → HasLock q) f i c (λ j ne. h.owned j)
          (λ mine. absurd (before (h.owned i mine)));
  }

  -- The task that holds the lock goes on with it.
  keeps-Locked : HasLock (f i) → HasLock c → Locked lock (update f i c)
  keeps-Locked before after = record {
    owner =
        update_all (λ j q. HasLock q → lock ≡ some j) f i c (λ j ne. h.owner j)
          (λ held. h.owner i before);
    owned = update_all (λ j q. lock ≡ some j → HasLock q) f i c (λ j ne. h.owned j) (λ mine. after);
  }

  -- It gives it back.
  gives-Locked : HasLock (f i) → ¬ (HasLock c) → Locked none (update f i c)
  gives-Locked before after = record {
    owner =
        update_all (λ j q. HasLock q → none ≡ some j) f i c
          (λ j ne held. absurd (ne (some_injective (sym (h.owner i before) ∙ h.owner j held))))
          (λ held. absurd (after held));
    owned = λ j mine. absurd (none≢some mine);
  }

  -- A task takes the free lock.
  takes-Locked : lock ≡ none → HasLock c → Locked (some i) (update f i c)
  takes-Locked free after = record {
    owner =
        update_all (λ j q. HasLock q → some i ≡ some j) f i c
          (λ j ne held. absurd (none≢some (sym free ∙ h.owner j held))) (λ held. refl);
    owned =
        update_all (λ j q. some i ≡ some j → HasLock q) f i c
          (λ j ne mine. absurd (ne (some_injective mine))) (λ mine. after);
  }

module _ (T : Manager) where
  abbrev pub IsLocked : State T → Type 0
  IsLocked s = Locked s.lock s.callers

  at_rest :
      (s : State T) (i : ℕ) (c : Caller)
      → s.callers i ≡ c
      → ¬ (HasLock c)
      → ¬ (HasLock (s.callers i))
  at_rest s i c e free held = free (subst HasLock e held)

  pub at_work :
      (s : State T) (i : ℕ) (c : Caller) → s.callers i ≡ c → HasLock c → HasLock (s.callers i)
  at_work s i c e held = subst HasLock (sym e) held

  check-Locked : (s : State T) (i : ℕ) → s.callers i ≡ calling → IsLocked s → IsLocked (check T s i)
  unfolding check
  check-Locked s i e h =
      let free = at_rest s i calling e (λ x. x) in
      elim (Option-cases (fresh T s)) [
        | inl stale ↦ rw (stale, check) (stays-Locked s.lock s.callers i waiting h free (λ x. x))
        | inr (t, good) ↦
            rw (good, check) (stays-Locked s.lock s.callers i (returned (ok t)) h free (λ x. x))
      ]

  recheck-Locked :
      (s : State T) (i : ℕ) → s.callers i ≡ holding → IsLocked s → IsLocked (recheck T s i)
  unfolding recheck leave
  recheck-Locked s i e h =
      let held = at_work s i holding e tt in
      elim (Option-cases (fresh T s)) [
        | inl stale ↦ elim (Result-cases (token_request T.http T.codec T.creds)) [
          | inl (x, bad) ↦
              rw (stale, bad, recheck) (gives-Locked s.lock s.callers i _ h held (λ x. x))
          | inr (req, built) ↦
              rw (stale, built, recheck) (keeps-Locked s.lock s.callers i sending h held tt)
        ]
        | inr (t, good) ↦ rw (good, recheck) (gives-Locked s.lock s.callers i _ h held (λ x. x))
      ]

  pub Step-Locked : {s : State T} {i : ℕ} {t : State T} → Step T s i t → IsLocked s → IsLocked t
  unfolding acquire receive leave
  Step-Locked {s} {i} (checks e) h = check-Locked s i e h
  Step-Locked {s} {i} (acquires e free) h = takes-Locked s.lock s.callers i holding h free tt
  Step-Locked {s} {i} (rechecks e) h = recheck-Locked s i e h
  Step-Locked {s} {i} (receives answer e) h =
      gives-Locked s.lock s.callers i _ h (at_work s i sending e tt) (λ x. x)
  Step-Locked {s} {i} (drops_waiting e) h =
      stays-Locked s.lock s.callers i dropped h (at_rest s i waiting e (λ x. x)) (λ x. x)
  Step-Locked {s} {i} (drops_holding e) h =
      gives-Locked s.lock s.callers i dropped h (at_work s i holding e tt) (λ x. x)
  Step-Locked {s} {i} (drops_sending e) h =
      gives-Locked s.lock s.callers i dropped h (at_work s i sending e tt) (λ x. x)
  Step-Locked invalidates h = h
  Step-Locked (ticks n) h = h

  pub Reach-Locked : {s t : State T} → Reach T s t → IsLocked s → IsLocked t
  Reach-Locked start h = h
  Reach-Locked (step i m move) h = Step-Locked move (Reach-Locked m h)

  pub departure-Locked : (cache : T.store.Cache) (now : ℕ) → IsLocked (departure T.store cache now)
  departure-Locked cache now = record {
    owner = λ j held. absurd held;
    owned = λ j mine. absurd (none≢some mine);
  }

-- However the tasks interleave, with tokens that expire or are invalidated, answers that fail and
-- tasks that are dropped: two tasks that have a token request in flight are the same task, and it
-- holds the lock.
pub single_flight :
    (T : Manager) (cache : T.store.Cache) (now i j : ℕ) (s : State T)
    → Reach T (departure T.store cache now) s
    → s.callers i ≡ sending
    → s.callers j ≡ sending
    → (i ≡ j) × (s.lock ≡ some i)
single_flight T cache now i j s m ei ej =
    let h = Reach-Locked T m (departure-Locked T cache now) in
    let mine = h.owner i (at_work T s i sending ei tt) in
    (some_injective (sym mine ∙ h.owner j (at_work T s j sending ej tt)), mine)
