-- ===== src/Client/Retry.antt =====
-- crates/tossinvest/src/client.rs, `send_with_retry`, with the retry policy of config.rs. One attempt
-- is a decision: to try again, or to return. The network's answers, the clock and the park deadlines
-- are given for each attempt. The effects are listed in the order in which they happen.
pub mod Counts
pub mod Decision
pub mod Laws
pub mod Backoff
use mathlib.Core.Option
use package.tossinvest_rust.Common.{
  String, ℕ, zero, suc, ◌+◌, ◌-◌, ◌*◌, ◌^◌, Bool, true, false, ◌&&◌, ◌||◌, Option, none, some, List,
  [], ◌∷◌, ◌++◌, leb, ltb, ◌==◌, if◌then◌else◌,
}
use package.tossinvest_rust.Common.Text.{parse_uint}
use package.tossinvest_rust.Common.Result.{Result, ok, err}
use package.tossinvest_rust.Rate.Controller
use package.tossinvest_rust.Rate.Controller.{RateLimitHeaders, Feedback}
use package.tossinvest_rust.Client.Error
use package.tossinvest_rust.Client.Error.{TransportError, is_transient}
use package.tossinvest_rust.Client.Transport.{
  Http, AuthRequirement, no_auth, bearer, RawRequest, RawResponse, header,
}

-- Durations are nanoseconds.
pub record RetryPolicy : Type 0 where
  pub max_attempts : ℕ
  pub base_delay : ℕ
  pub max_delay : ℕ

unfoldable pub default_policy : RetryPolicy
default_policy = record { max_attempts = 4; base_delay = 250000000; max_delay = 8000000000 }

unfoldable pub disabled : RetryPolicy
unfolding default_policy
disabled = record default_policy { max_attempts = 1 }

-- `max_attempts.max(1)`.
unfoldable pub attempts_allowed : RetryPolicy → ℕ
attempts_allowed policy = if leb policy.max_attempts 1 then 1 else policy.max_attempts

abbrev pub minimum : ℕ → ℕ → ℕ
minimum a b = if leb a b then a else b

-- `Duration::MAX`, at which `saturating_mul` stops.
abbrev pub duration_max : ℕ
duration_max = 2 ^ 64 * 1000000000 - 1

unfoldable pub saturating_mul : ℕ → ℕ → ℕ
saturating_mul d k = minimum (d * k) duration_max

unfoldable pub backoff : RetryPolicy → ℕ → Option ℕ → ℕ
unfolding saturating_mul
backoff policy attempt (some wait) = wait
backoff policy attempt none =
    minimum (saturating_mul policy.base_delay (2 ^ minimum (attempt - 1) 16)) policy.max_delay

unfoldable pub is_server_status : ℕ → Bool
is_server_status status = leb 500 status && leb status 599

unfoldable pub is_retryable_status : ℕ → Bool
unfolding is_server_status
is_retryable_status status = status == 429 || is_server_status status

abbrev pub is_bearer : AuthRequirement → Bool
is_bearer bearer = true
is_bearer no_auth = false

abbrev pub is_none : {A : Type 0} → Option A → Bool
is_none none = true
is_none (some a) = false

abbrev pub is_timeout : TransportError → Bool
is_timeout TransportError.timeout = true
is_timeout _ = false

abbrev pub then_parse : ℕ → Option String → Option ℕ
then_parse bits none = none
then_parse bits (some v) = parse_uint bits v

pub data Effect : Type 0 where
  -- A sleep until a park deadline, a permit of the limiter, and the request itself.
  park_sleep : ℕ → Effect
  until_ready execute invalidate : Effect
  backoff_sleep : ℕ → Effect
  record_feedback : Feedback → Effect

-- The feedback at a terminal error: only a throttle signal is recorded.
unfoldable pub last_feedback : Option Feedback → List Effect
last_feedback none = []
last_feedback (some fb) = Effect.record_feedback fb ∷ []

module _ {H : Http} where
  -- `Retry-After` in nanoseconds.
  unfoldable pub parse_retry_after : RawResponse H → Option ℕ
  unfolding header
  parse_retry_after resp =
      Option.map (λ secs. secs * 1000000000) (then_parse 64 (header resp "retry-after"))

  unfoldable pub rate_headers : RawResponse H → RateLimitHeaders
  unfolding header
  rate_headers resp = record {
    limit = then_parse 32 (header resp "x-ratelimit-limit");
    remaining = then_parse 32 (header resp "x-ratelimit-remaining");
    reset = then_parse 64 (header resp "x-ratelimit-reset");
  }

  unfoldable pub feedback_for : RawResponse H → Feedback
  unfolding rate_headers parse_retry_after is_server_status
  feedback_for resp =
      if resp.status == 429
      then Feedback.rate_limited (parse_retry_after resp) (rate_headers resp)
      else if is_server_status resp.status
      then Feedback.server_error
      else Feedback.success (rate_headers resp)

module _ (H : Http) where
  pub record World : Type 0 where
    pub answer : ℕ → Result (RawResponse H) TransportError
    pub parked_until : ℕ → Option ℕ
    pub now : ℕ → ℕ

  abbrev pub Outcome : Type 0
  Outcome = Result (RawResponse H) TransportError

  pub data Next : Type 0 where
    -- The throttle signal so far, and the effects.
    again : Option Feedback → List Effect → Next
    done : Outcome → List Effect → Next

module _ {H : Http} where
  -- The `Ok` arm: a success returns; another status is tried again while the policy allows it.
  unfoldable pub on_response :
      RetryPolicy → RawRequest H → ℕ → ℕ → Option Feedback → RawResponse H → Next H
  unfolding feedback_for backoff
  on_response policy req max attempt throttle resp =
      let status = resp.status in
      let expired = if status == 401 && is_bearer req.auth then Effect.invalidate ∷ [] else [] in
      let throttle' =
        if is_none throttle && is_retryable_status status
        then some (feedback_for resp)
        else throttle in
      if H.is_success status
      then Next.done (ok resp)
          (Effect.record_feedback (Option.get_or throttle (feedback_for resp)) ∷ [])
      else if req.retryable && ltb attempt max && is_retryable_status status
      then Next.again throttle'
          (expired ++ Effect.backoff_sleep (backoff policy attempt (parse_retry_after resp)) ∷ [])
      else Next.done (ok resp)
          (expired ++ Effect.record_feedback (Option.get_or throttle' (feedback_for resp)) ∷ [])

  -- The `Err` arm.
  unfoldable pub on_error :
      RetryPolicy → RawRequest H → ℕ → ℕ → Option Feedback → TransportError → Next H
  unfolding backoff last_feedback
  on_error policy req max attempt throttle e =
      let throttle' =
        if is_none throttle && is_timeout e then some Feedback.timeout else throttle in
      if req.retryable && ltb attempt max && is_transient e
      then Next.again throttle' (Effect.backoff_sleep (backoff policy attempt none) ∷ [])
      else Next.done (err e) (last_feedback throttle')

  unfoldable pub on_answer :
      RetryPolicy → RawRequest H → ℕ → ℕ → Option Feedback → Outcome H → Next H
  unfolding on_response on_error
  on_answer policy req max attempt throttle (ok resp) =
      on_response policy req max attempt throttle resp
  on_answer policy req max attempt throttle (err e) = on_error policy req max attempt throttle e

  -- What precedes the answer of an attempt.
  unfoldable pub before : World H → ℕ → List Effect
  before w attempt =
      elim (w.parked_until attempt) [
        | none ↦ []
        | some until ↦
            if ltb (w.now attempt) until then Effect.park_sleep (until - w.now attempt) ∷ [] else []
      ]
      ++ Effect.until_ready ∷ Effect.execute ∷ []

  -- The loop, on fuel: `none` is fuel that ran out.
  unfoldable pub send_loop :
      World H
      → RetryPolicy
      → RawRequest H
      → ℕ
      → ℕ
      → ℕ
      → Option Feedback
      → Option (Outcome H × List Effect)
  unfolding on_answer before
  send_loop w policy req max zero attempt throttle = none
  send_loop w policy req max (suc fuel) attempt throttle =
      let n = attempt + 1 in
      elim (on_answer policy req max n throttle (w.answer n)) [
        | Next.done r es ↦ some (r, before w n ++ es)
        | Next.again throttle' es ↦
            Option.map (λ p. (p.0, before w n ++ (es ++ p.1)))
              (send_loop w policy req max fuel n throttle')
      ]

  -- The fuel is the number of attempts that the policy allows.
  unfoldable pub send_with_retry :
      World H → RetryPolicy → RawRequest H → Option (Outcome H × List Effect)
  unfolding send_loop attempts_allowed
  send_with_retry w policy req =
      send_loop w policy req (attempts_allowed policy) (attempts_allowed policy) 0 none
