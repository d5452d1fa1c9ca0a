-- ===== src/Client/Auth/Flight.antt =====
-- crates/tossinvest/src/auth.rs, `TokenManager::token` as concurrent tasks run it: what happens between
-- two points where a task can wait is one step. The tasks meet at the cache and at `refresh_lock`.
pub mod Exclusive
pub mod Phase
pub mod Burst
pub mod Served
use package.tossinvest_rust.Common.{String, ℕ, suc, ◌≡◌, Option, none, some}
use package.tossinvest_rust.Common.Table.{update}
use package.tossinvest_rust.Common.Result.{Result, ok, err}
use package.tossinvest_rust.Client.Error.{Error, TransportError}
use package.tossinvest_rust.Client.Error
use package.tossinvest_rust.Client.Transport.{Http, RawRequest, RawResponse}
use package.tossinvest_rust.Client.Auth.{
  Credentials, TokenStore, TokenCodec, fresh_token, token_request, on_token_answer, invalidate,
}

-- Where a task stands: before the first check, at the lock, with the lock, with the request in
-- flight, back, or dropped by its caller.
pub data Caller : Type 0 where
  calling waiting holding sending dropped : Caller
  returned : Result String Error → Caller

-- `requests` counts the token requests that were begun.
pub record Flight (C : TokenStore) : Type 0 where
  pub cache : C.Cache
  pub now : ℕ
  pub lock : Option ℕ
  pub callers : ℕ → Caller
  pub requests : ℕ

-- Nobody has begun, and the lock is free.
abbrev pub departure : (C : TokenStore) → C.Cache → ℕ → Flight C
departure C cache now = record {
  cache = cache;
  now = now;
  lock = none;
  callers = λ _. calling;
  requests = 0;
}

-- The manager, and what it takes from other packages.
pub record Manager : Type 1 where
  pub http : Http
  pub store : TokenStore
  pub codec : TokenCodec
  pub creds : Credentials
  pub skew : ℕ

module _ (T : Manager) where
  abbrev pub State : Type 0
  State = Flight T.store

  abbrev pub fresh : State → Option String
  fresh s = fresh_token T.store s.cache T.skew s.now

  -- A task that is done: the lock that it held is free again.
  unfoldable pub leave : State → ℕ → Caller → State
  leave s i c = record s { lock = none; callers = update s.callers i c }

  -- The first check of the cache.
  unfoldable pub check : State → ℕ → State
  check s i = elim (fresh s) [
    | some t ↦ record s { callers = update s.callers i (returned (ok t)) }
    | none ↦ record s { callers = update s.callers i waiting }
  ]

  unfoldable pub acquire : State → ℕ → State
  acquire s i = record s { lock = some i; callers = update s.callers i holding }

  -- The check under the lock, and the beginning of `refresh`.
  unfoldable pub recheck : State → ℕ → State
  unfolding leave
  recheck s i = elim (fresh s) [
    | some t ↦ leave s i (returned (ok t))
    | none ↦ elim (token_request T.http T.codec T.creds) [
      | err e ↦ leave s i (returned (err (Error.transport e)))
      | ok req ↦ record s { callers = update s.callers i sending; requests = suc s.requests }
    ]
  ]

  -- The end of `refresh`.
  unfoldable pub receive : State → ℕ → Result (RawResponse T.http) TransportError → State
  unfolding leave
  receive s i answer =
      let r = on_token_answer T.store T.codec s.cache s.now answer in
      leave (record s { cache = r.0 }) i (returned r.1)

  pub data Step (s : State) (i : ℕ) : State → Type 0 where
    checks : s.callers i ≡ calling → Step s i (check s i)
    acquires : s.callers i ≡ waiting → s.lock ≡ none → Step s i (acquire s i)
    rechecks : s.callers i ≡ holding → Step s i (recheck s i)
    receives :
        (answer : Result (RawResponse T.http) TransportError)
        → s.callers i ≡ sending
        → Step s i (receive s i answer)
    -- A task that is dropped frees the lock if it holds it.
    drops_waiting :
        s.callers i ≡ waiting → Step s i (record s { callers = update s.callers i dropped })
    drops_holding : s.callers i ≡ holding → Step s i (leave s i dropped)
    drops_sending : s.callers i ≡ sending → Step s i (leave s i dropped)
    -- A 401 elsewhere, and the passing of time.
    invalidates : Step s i (record s { cache = invalidate T.store s.cache })
    ticks : (n : ℕ) → Step s i (record s { now = n })

  pub data Reach (s : State) : State → Type 0 where
    start : Reach s s
    step : {t u : State} (i : ℕ) → Reach s t → Step t i u → Reach s u
