-- ===== src/Client/Retry/Decision.antt =====
-- crates/tossinvest/src/client.rs, `send_with_retry`: what one attempt decides.
use package.tossinvest_rust.Common.{
  ℕ, ◌≤◌, ◌<◌, ◌≡◌, refl, Bool, true, ◌&&◌, Option, some, arith, ltb, ◌==◌, if◌then◌else◌,
  Bool-cases, inl, inr,
}
use package.tossinvest_rust.Common.Result.{ok, err}
use package.tossinvest_rust.Rate.Controller.{Feedback}
use package.tossinvest_rust.Client.Error.{TransportError, is_transient}
use package.tossinvest_rust.Client.Transport.{Http, RawRequest, RawResponse}
use package.tossinvest_rust.Client.Retry.{
  RetryPolicy, Outcome, Next, is_retryable_status, is_none, is_timeout, is_bearer, last_feedback,
  on_response, on_error, on_answer,
}
use package.tossinvest_rust.Client.Retry.Counts.{sends, feedbacks, last_feedback-counts, IsOk}

module _ {H : Http} where
  -- The answers after which another attempt may help.
  unfoldable pub may_retry : Outcome H → Bool
  unfolding is_retryable_status is_transient
  may_retry (ok resp) = is_retryable_status resp.status
  may_retry (err e) = is_transient e

  -- Another attempt only for a retryable request, with attempts left, after such an answer; a return
  -- hands the answer on and records feedback at most once, and once if it is a response.
  abbrev pub Decided : RawRequest H → ℕ → ℕ → Outcome H → Next H → Type 0
  Decided req max attempt a (Next.again t es) =
      (req.retryable ≡ true)
      × (attempt < max)
      × (may_retry a ≡ true)
      × (sends es ≡ 0)
      × (feedbacks es ≡ 0)
  Decided req max attempt a (Next.done r es) =
      (r ≡ a) × (sends es ≡ 0) × (feedbacks es ≤ 1) × (IsOk r → feedbacks es ≡ 1)

  on_response-Decided :
      (policy : RetryPolicy) (req : RawRequest H) (max attempt : ℕ) (t : Option Feedback)
      (resp : RawResponse H)
      → Decided req max attempt (ok resp) (on_response policy req max attempt t resp)
  unfolding on_response sends feedbacks may_retry
  on_response-Decided policy req max attempt t resp = elim (Bool-cases (H.is_success resp.status)) [
    | inl success ↦ rw (success, on_response) (refl, refl, omega arith, λ _. refl)
    | inr failure ↦
        rw (failure, on_response)
          (elim (Bool-cases (resp.status == 401 && is_bearer req.auth)) [
            | inl expired ↦
                rw expired
                  (elim (Bool-cases
                    (req.retryable && ltb attempt max && is_retryable_status resp.status)) [
                      | inl goes_on ↦
                          rw goes_on (ground arith, ground arith, ground arith, refl, refl)
                      | inr ends ↦ rw ends (refl, refl, omega arith, λ _. refl)
                    ])
            | inr valid ↦
                rw valid
                  (elim (Bool-cases
                    (req.retryable && ltb attempt max && is_retryable_status resp.status)) [
                      | inl goes_on ↦
                          rw goes_on (ground arith, ground arith, ground arith, refl, refl)
                      | inr ends ↦ rw ends (refl, refl, omega arith, λ _. refl)
                    ])
          ])
  ]

  on_error-Decided :
      (policy : RetryPolicy) (req : RawRequest H) (max attempt : ℕ) (t : Option Feedback)
      (e : TransportError)
      → Decided req max attempt (err e) (on_error policy req max attempt t e)
  unfolding on_error sends feedbacks may_retry last_feedback
  on_error-Decided policy req max attempt t e =
      let retry = req.retryable && ltb attempt max && is_transient e in
      elim (Bool-cases retry) [
        | inl goes_on ↦
            rw (goes_on, on_error) (ground arith, ground arith, ground arith, refl, refl)
        | inr ends ↦
            rw (ends, on_error)
              (let (unsent, once) =
                  last_feedback-counts
                    (if is_none t && is_timeout e then some Feedback.timeout else t) in
                (refl, unsent, once, λ z. absurd z))
      ]

  pub on_answer-Decided :
      (policy : RetryPolicy) (req : RawRequest H) (max attempt : ℕ) (t : Option Feedback)
      (a : Outcome H)
      → Decided req max attempt a (on_answer policy req max attempt t a)
  unfolding on_answer
  on_answer-Decided policy req max attempt t (ok resp) =
      on_response-Decided policy req max attempt t resp
  on_answer-Decided policy req max attempt t (err e) = on_error-Decided policy req max attempt t e
