-- ===== src/Client/Retry/Laws.antt =====
-- crates/tossinvest/src/client.rs, `send_with_retry`: how often a request is sent and how often the
-- rate controller hears of it.
use mathlib.Core.Path.{subst}
use package.tossinvest_rust.Common.{
  ℕ, zero, suc, ◌+◌, ◌≤◌, ◌<◌, ◌≡◌, ◌⊎◌, refl, sym, ◌∙◌, ap, true, false, Option, none, some, List,
  ◌++◌, arith, ltb, Bool-cases, ℕ_discrete, Option-cases, inl, inr,
}
use package.tossinvest_rust.Rate.Controller.{Feedback}
use package.tossinvest_rust.Client.Transport.{Http, RawRequest}
use package.tossinvest_rust.Client.Retry.{
  RetryPolicy, Effect, World, Outcome, Next, on_answer, before, send_loop, attempts_allowed,
  send_with_retry,
}
use package.tossinvest_rust.Client.Retry.Counts.{
  sends, feedbacks, sends-append, feedbacks-append, attempts-positive, IsOk,
}
use package.tossinvest_rust.Client.Retry.Decision.{may_retry, Decided, on_answer-Decided}

module _ {H : Http} where
  before-counts : (w : World H) (n : ℕ) → (sends (before w n) ≡ 1) × (feedbacks (before w n) ≡ 0)
  unfolding before sends feedbacks
  before-counts w n = elim (Option-cases (w.parked_until n)) [
    | inl free ↦ rw free (refl, refl)
    | inr (t, parked) ↦ rw parked (elim (Bool-cases (ltb (w.now n) t)) [
      | inl waits ↦ rw waits (refl, refl)
      | inr past ↦ rw past (refl, refl)
    ])
  ]

  -- A finished loop: what it returns is the answer to its last attempt, each answer before that one
  -- permits another attempt, and feedback is recorded at most once, and once with a response.
  abbrev Finished : World H → RawRequest H → ℕ → ℕ → Outcome H × List Effect → Type 0
  Finished w req fuel attempt (r, es) =
      (1 ≤ sends es)
      × (sends es ≤ fuel)
      × (r ≡ w.answer (attempt + sends es))
      × ((i : ℕ) → attempt < i → i < attempt + sends es → may_retry (w.answer i) ≡ true)
      × (feedbacks es ≤ 1)
      × (IsOk r → feedbacks es ≡ 1)
      × (req.retryable ≡ false → sends es ≡ 1)

  Next-cases :
      (x : Next H)
      → ((t : Option Feedback) × (es : List Effect) × (x ≡ Next.again t es))
        ⊎ ((r : Outcome H) × (es : List Effect) × (x ≡ Next.done r es))
  Next-cases (Next.again t es) = inl (t, es, refl)
  Next-cases (Next.done r es) = inr (r, es, refl)

  -- One round sends the request once before its decision.
  round-counts :
      (w : World H) (n : ℕ) (es : List Effect)
      → (sends (before w n ++ es) ≡ suc (sends es)) × (feedbacks (before w n ++ es) ≡ feedbacks es)
  round-counts w n es =
      let (sent, unheard) = before-counts w n in
      (
        omega (arith, sends-append (before w n) es, sent),
        omega (arith, feedbacks-append (before w n) es, unheard),
      )

  done-Finished :
      (w : World H) (req : RawRequest H) (max fuel attempt : ℕ) (r : Outcome H) (es : List Effect)
      → Decided req max (attempt + 1) (w.answer (attempt + 1)) (Next.done r es)
      → Finished w req (suc fuel) attempt (r, before w (attempt + 1) ++ es)
  done-Finished w req max fuel attempt r es (same, quiet, once, told) =
      let (sent, heard) = round-counts w (attempt + 1) es in
      let one = sent ∙ ap suc quiet in
      (
        omega (arith, one),
        omega (arith, one),
        same ∙ ap (λ k. w.answer (attempt + k)) (sym one),
        λ i after early. absurd (omega (arith, one, after, early)),
        omega (arith, heard, once),
        λ fine. heard ∙ told fine,
        λ h. one,
      )

  again_parts :
      (w : World H) (req : RawRequest H) (fuel attempt : ℕ) (p : Outcome H × List Effect)
      (all : List Effect)
      → sends all ≡ suc (sends p.1)
      → feedbacks all ≡ feedbacks p.1
      → req.retryable ≡ true
      → may_retry (w.answer (attempt + 1)) ≡ true
      → Finished w req fuel (attempt + 1) p
      → Finished w req (suc fuel) attempt (p.0, all)
  again_parts w req fuel attempt p all total feed retryable transient f =
      let (low, high, same, earlier, once, told, single) = f in
      (
        omega (arith, total),
        omega (arith, total, high),
        same ∙ ap (λ k. w.answer k) (omega (arith, total)),
        λ i after early. elim (ℕ_discrete i (attempt + 1)) [
          | yes here ↦ rw here transient
          | no there ↦ earlier i (omega (arith, after, there)) (omega (arith, early, total))
        ],
        omega (arith, feed, once),
        λ fine. feed ∙ told fine,
        λ h. absurd (cc (h, retryable)),
      )

  again-Finished :
      (w : World H) (req : RawRequest H) (max fuel attempt : ℕ) (t : Option Feedback)
      (es : List Effect) (p : Outcome H × List Effect)
      → Decided req max (attempt + 1) (w.answer (attempt + 1)) (Next.again t es)
      → Finished w req fuel (attempt + 1) p
      → Finished w req (suc fuel) attempt (p.0, before w (attempt + 1) ++ (es ++ p.1))
  again-Finished w req max fuel attempt t es p (retryable, left, transient, quiet, unheard) f =
      let (sent, heard) = round-counts w (attempt + 1) (es ++ p.1) in
      let (low, high, same, earlier, once, told, single) = f in
      let total = sent ∙ ap suc (sends-append es p.1) ∙ omega (arith, quiet) in
      let feed = heard ∙ feedbacks-append es p.1 ∙ omega (arith, unheard) in
      again_parts w req fuel attempt p (before w (attempt + 1) ++ (es ++ p.1)) total feed retryable
        transient f

  -- One attempt, and the rest of the loop where there is another.
  round-Finished :
      (w : World H) (policy : RetryPolicy) (req : RawRequest H) (max fuel attempt : ℕ)
      (t : Option Feedback)
      → ((t' : Option Feedback)
          → attempt + 1 < max
          → (p : Outcome H × List Effect) × (send_loop w policy req max fuel (attempt + 1) t'
              ≡ some p)
            × Finished w req fuel (attempt + 1) p)
      → (p : Outcome H × List Effect) × (send_loop w policy req max (suc fuel) attempt t ≡ some p)
        × Finished w req (suc fuel) attempt p
  unfolding send_loop
  round-Finished w policy req max fuel attempt t later =
      let n = attempt + 1 in
      let d = on_answer-Decided policy req max n t (w.answer n) in
      elim (Next-cases (on_answer policy req max n t (w.answer n))) [
        | inr (r, es, ends) ↦ (
          (r, before w n ++ es),
          rw (ends, send_loop),
          done-Finished w req max fuel attempt r es (subst (Decided req max n (w.answer n)) ends d),
        )
        | inl (t', es, goes_on) ↦
            let d' = subst (Decided req max n (w.answer n)) goes_on d in
            let (p, ran, finished) = later t' (d'.1) in
            (
              (p.0, before w n ++ (es ++ p.1)),
              rw (goes_on, send_loop) (rw ran),
              again-Finished w req max fuel attempt t' es p d' finished,
            )
      ]

  send_loop-Finished :
      (w : World H) (policy : RetryPolicy) (req : RawRequest H) (max fuel attempt : ℕ)
      (t : Option Feedback)
      → attempt + suc fuel ≡ max
      → (p : Outcome H × List Effect) × (send_loop w policy req max (suc fuel) attempt t ≡ some p)
        × Finished w req (suc fuel) attempt p
  send_loop-Finished w policy req max zero attempt t left =
      round-Finished w policy req max zero attempt t (λ t' more. absurd (omega (arith, left, more)))
  send_loop-Finished w policy req max (suc fuel) attempt t left =
      round-Finished w policy req max (suc fuel) attempt t
        (λ t' more. send_loop-Finished w policy req max fuel (attempt + 1) t' (omega (arith, left)))

  pub send_with_retry_lem :
      (w : World H) (policy : RetryPolicy) (req : RawRequest H)
      → (r : Outcome H) × (es : List Effect) × (send_with_retry w policy req ≡ some (r, es))
        × (1 ≤ sends es)
        × (sends es ≤ attempts_allowed policy)
        × (r ≡ w.answer (sends es))
        × ((i : ℕ) → 0 < i → i < sends es → may_retry (w.answer i) ≡ true)
        × (feedbacks es ≤ 1)
        × (IsOk r → feedbacks es ≡ 1)
        × (req.retryable ≡ false → sends es ≡ 1)
  unfolding send_with_retry
  send_with_retry_lem w policy req =
      let (n, some_attempts) = attempts-positive policy in
      let (p, ran, finished) =
        subst
          (λ m.
            (p : Outcome H × List Effect) × (send_loop w policy req m m 0 none ≡ some p)
            × Finished w req m 0 p)
          (sym some_attempts) (send_loop-Finished w policy req (suc n) n 0 none (omega arith)) in
      let (low, high, same, earlier, once, told, single) = finished in
      (
        p.0,
        p.1,
        ran,
        low,
        high,
        same ∙ ap (λ k. w.answer k) (omega arith),
        λ i after early. earlier i after (omega (arith, early)),
        once,
        told,
        single,
      )
