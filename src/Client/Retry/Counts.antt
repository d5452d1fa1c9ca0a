-- ===== src/Client/Retry/Counts.antt =====
-- crates/tossinvest/src/client.rs, `send_with_retry`: how often its effects send and record.
use package.tossinvest_rust.Common.{
  ℕ, suc, ◌+◌, ◌-◌, ◌≤◌, ◌≡◌, refl, Option, none, some, List, [], ◌∷◌, ◌++◌, arith, leb, Bool-cases,
  inl, inr,
}
use package.tossinvest_rust.Common.Result.{Result, ok, err}
use package.tossinvest_rust.Rate.Controller.{Feedback}
use package.tossinvest_rust.Client.Retry.{RetryPolicy, Effect, last_feedback, attempts_allowed}

-- How often the request was sent, and how often feedback was recorded.
unfoldable pub sends : List Effect → ℕ
sends [] = 0
sends (Effect.execute ∷ es) = suc (sends es)
sends (_ ∷ es) = sends es

unfoldable pub feedbacks : List Effect → ℕ
feedbacks [] = 0
feedbacks (Effect.record_feedback fb ∷ es) = suc (feedbacks es)
feedbacks (_ ∷ es) = feedbacks es

pub sends-append : (es fs : List Effect) → sends (es ++ fs) ≡ sends es + sends fs
unfolding sends
sends-append [] fs = omega arith
sends-append (Effect.execute ∷ es) fs = omega (arith, sends-append es fs)
sends-append (Effect.park_sleep d ∷ es) fs = sends-append es fs
sends-append (Effect.until_ready ∷ es) fs = sends-append es fs
sends-append (Effect.invalidate ∷ es) fs = sends-append es fs
sends-append (Effect.backoff_sleep d ∷ es) fs = sends-append es fs
sends-append (Effect.record_feedback fb ∷ es) fs = sends-append es fs

pub feedbacks-append : (es fs : List Effect) → feedbacks (es ++ fs) ≡ feedbacks es + feedbacks fs
unfolding feedbacks
feedbacks-append [] fs = omega arith
feedbacks-append (Effect.execute ∷ es) fs = feedbacks-append es fs
feedbacks-append (Effect.park_sleep d ∷ es) fs = feedbacks-append es fs
feedbacks-append (Effect.until_ready ∷ es) fs = feedbacks-append es fs
feedbacks-append (Effect.invalidate ∷ es) fs = feedbacks-append es fs
feedbacks-append (Effect.backoff_sleep d ∷ es) fs = feedbacks-append es fs
feedbacks-append (Effect.record_feedback fb ∷ es) fs = omega (arith, feedbacks-append es fs)

pub last_feedback-counts :
    (t : Option Feedback) → (sends (last_feedback t) ≡ 0) × (feedbacks (last_feedback t) ≤ 1)
unfolding last_feedback sends feedbacks
last_feedback-counts none = (refl, omega arith)
last_feedback-counts (some fb) = (refl, omega arith)

pub attempts-positive : (policy : RetryPolicy) → (n : ℕ) × (attempts_allowed policy ≡ suc n)
unfolding attempts_allowed
attempts-positive policy = elim (Bool-cases (leb policy.max_attempts 1)) [
  | inl few ↦ (0, rw few)
  | inr many ↦ (policy.max_attempts - 1, rw many (ground arith))
]

abbrev pub IsOk : {A E : Type 0} → Result A E → Type 0
IsOk (ok a) = Unit
IsOk (err e) = ⊥
