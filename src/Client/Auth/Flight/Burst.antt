-- ===== src/Client/Auth/Flight/Burst.antt =====
-- crates/tossinvest/src/auth.rs, `TokenManager`: "a burst of callers triggers exactly one token
-- request".
use mathlib.Core.Path.{subst}
use package.tossinvest_rust.Common.{
  String, ℕ, suc, ◌≡◌, ◌≢◌, refl, sym, ap, ◌∙◌, none, some, some_injective, none≢some, inl, inr,
  ℕ_discrete, Option-cases,
}
use package.tossinvest_rust.Common.Table.{update, update_self, update_all}
use package.tossinvest_rust.Common.Result.{Result, ok}
use package.tossinvest_rust.Client.Error.{Error, TransportError}
use package.tossinvest_rust.Client.Transport.{RawRequest, RawResponse}
use package.tossinvest_rust.Client.Auth.{fresh_token, token_request}
use package.tossinvest_rust.Client.Auth.Flight.{
  calling, waiting, holding, sending, returned, departure, Manager, State, fresh, leave, check,
  acquire, recheck, receive, Step, checks, acquires, rechecks, receives, drops_waiting,
  drops_holding, drops_sending, invalidates, ticks,
}
use package.tossinvest_rust.Client.Auth.Flight.Exclusive.{
  IsLocked, Step-Locked, departure-Locked, at_work,
}
use package.tossinvest_rust.Client.Auth.Flight.Phase.{
  IsEarly, IsServed, early-IsServed, apart, IsGood, IsSmooth, Smooth, begin, go, Before, During,
  After, Phase, before, during, after, moves-early, finds-After,
}

module _ (T : Manager) where
  phase-After : (s : State T) (token : String) → Phase T s → fresh T s ≡ some token → After T s
  phase-After s token (before b) found = absurd (none≢some (sym b.stale ∙ found))
  phase-After s token (during d) found = absurd (none≢some (sym d.stale ∙ found))
  phase-After s token (after a) found = a

  check-Phase : (s : State T) (i : ℕ) → s.callers i ≡ calling → Phase T s → Phase T (check T s i)
  unfolding check
  check-Phase s i e p = elim (Option-cases (fresh T s)) [
    | inl stale ↦
        rw (stale, check) (moves-early T s _ i waiting (apart calling e tt) tt refl refl refl p)
    | inr (t, found) ↦
        rw (found, check) (finds-After T s _ i t (phase-After s t p found) found refl refl refl)
  ]

  asks-During :
      (s : State T) (i : ℕ)
      → s.callers i ≡ holding
      → IsLocked T s
      → fresh T s ≡ none
      → Phase T s
      → During T (record s { callers = update s.callers i sending; requests = suc s.requests })
  asks-During s i e l stale (before b) = record {
    who = i;
    asked = ap suc b.unasked;
    stale = stale;
    asks = update_self s.callers i sending;
    early =
        update_all (λ j q. i ≢ j → IsEarly q) s.callers i sending (λ j ne ne'. b.early j)
          (λ ne. absurd (ne refl));
  }
  asks-During s i e l stale (during d) =
      let other = l.owner d.who (at_work T s d.who sending d.asks tt) in
      let mine = l.owner i (at_work T s i holding e tt) in
      absurd (apart holding e tt (ap s.callers (some_injective (sym mine ∙ other)) ∙ d.asks))
  asks-During s i e l stale (after a) = absurd (none≢some (sym stale ∙ a.known))

  recheck-Phase :
      (s : State T) (i : ℕ) (req : RawRequest T.http)
      → token_request T.http T.codec T.creds ≡ ok req
      → s.callers i ≡ holding
      → IsLocked T s
      → Phase T s
      → Phase T (recheck T s i)
  unfolding recheck leave
  recheck-Phase s i req built e l p = elim (Option-cases (fresh T s)) [
    | inl stale ↦ rw (stale, built, recheck) (during (asks-During s i e l stale p))
    | inr (t, found) ↦
        rw (found, recheck) (finds-After T s _ i t (phase-After s t p found) found refl refl refl)
  ]

  receive-Phase :
      (s : State T) (i : ℕ) (answer : Result (RawResponse T.http) TransportError)
      → s.callers i ≡ sending
      → IsGood T s answer
      → Phase T s
      → Phase T (receive T s i answer)
  unfolding receive leave
  receive-Phase s i answer e good (before b) = absurd (subst IsEarly e (b.early i))
  receive-Phase s i answer e (cache, t, brings, known) (during d) = elim (ℕ_discrete d.who i) [
    | yes own ↦ after (record {
      token = t;
      asked = d.asked;
      known = ap (λ r. fresh_token T.store r.0 T.skew s.now) brings ∙ known;
      served =
          update_all (λ j q. IsServed t q) s.callers i _
            (λ j ne. early-IsServed t (s.callers j) (d.early j (λ e'. ne (sym own ∙ e'))))
            (ap (λ r. r.1) brings);
    })
    | no ne ↦ absurd (subst IsEarly e (d.early i ne))
  ]
  receive-Phase s i answer e good (after a) = absurd (subst (IsServed a.token) e (a.served i))

  Step-Phase :
      {s : State T} {i : ℕ} {t : State T} (req : RawRequest T.http)
      → token_request T.http T.codec T.creds ≡ ok req
      → (m : Step T s i t) → IsSmooth T m
      → IsLocked T s
      → Phase T s
      → Phase T t
  unfolding acquire
  Step-Phase {s} {i} req built (checks e) ok' l p = check-Phase s i e p
  Step-Phase {s} {i} req built (acquires e free) ok' l p =
      moves-early T s _ i holding (apart waiting e tt) tt refl refl refl p
  Step-Phase {s} {i} req built (rechecks e) ok' l p = recheck-Phase s i req built e l p
  Step-Phase {s} {i} req built (receives answer e) good l p = receive-Phase s i answer e good p
  Step-Phase req built (drops_waiting e) smooth l p = absurd smooth
  Step-Phase req built (drops_holding e) smooth l p = absurd smooth
  Step-Phase req built (drops_sending e) smooth l p = absurd smooth
  Step-Phase req built invalidates smooth l p = absurd smooth
  Step-Phase req built (ticks n) smooth l p = absurd smooth

  Smooth-Phase :
      {s t : State T} (req : RawRequest T.http)
      → token_request T.http T.codec T.creds ≡ ok req
      → IsLocked T s
      → Phase T s
      → Smooth T s t
      → IsLocked T t × Phase T t
  Smooth-Phase req built l p begin = (l, p)
  Smooth-Phase req built l p (go i run m smooth) =
      let (l', p') = Smooth-Phase req built l p run in
      (Step-Locked T m l', Step-Phase req built m smooth l' p')

  phase-returned :
      (s : State T) (i : ℕ) (r : Result String Error)
      → s.callers i ≡ returned r
      → Phase T s
      → (s.requests ≡ 1) × ((t : String) × (r ≡ ok t) × (fresh T s ≡ some t))
  phase-returned s i r e (before b) = absurd (subst IsEarly e (b.early i))
  phase-returned s i r e (during d) = elim (ℕ_discrete d.who i) [
    | yes own ↦ absurd (apart (returned r) e tt (ap s.callers (sym own) ∙ d.asks))
    | no ne ↦ absurd (subst IsEarly e (d.early i ne))
  ]
  phase-returned s i r e (after a) =
      (a.asked, (a.token, subst (IsServed a.token) e (a.served i), a.known))

-- However the tasks of a burst interleave, from an empty or stale cache, while no task is dropped, no
-- token is invalidated and time stands still, and each answer brings a fresh token: once any task is
-- back, exactly one token request was made for all of them, and what the task brings back is the
-- token that is now cached.
pub burst-one_request :
    (T : Manager) (cache : T.store.Cache) (now i : ℕ) (req : RawRequest T.http) (s : State T)
    (r : Result String Error)
    → token_request T.http T.codec T.creds ≡ ok req
    → fresh_token T.store cache T.skew now ≡ none
    → Smooth T (departure T.store cache now) s
    → s.callers i ≡ returned r
    → (s.requests ≡ 1)
      × ((t : String) × (r ≡ ok t) × (fresh_token T.store s.cache T.skew s.now ≡ some t))
burst-one_request T cache now i req s r built stale m e =
    let first : Before T (departure T.store cache now) = record {
      unasked = refl;
      stale = stale;
      early = λ j. tt;
    } in
    let (l, p) = Smooth-Phase T req built (departure-Locked T cache now) (before first) m in
    phase-returned T s i r e p
