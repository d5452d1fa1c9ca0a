-- ===== src/Rate/Limiter.antt =====
-- crates/tossinvest-rate/src/dynamic.rs: `DynamicLimiter`, a bucket that the controller rebuilds.
-- A method is one step here. In the source the mutex guards the state alone: `install` runs after the
-- guard is dropped, and another call can come between. `clock` is what the bucket reads of its own
-- clock. `none` is a panic: `expect("period is non-zero")`, or a park deadline beyond `Instant`.
pub mod Laws
use package.tossinvest_rust.Common.{
  ℕ, ◌+◌, Bool, true, false, not, Option, none, some, leb, ltb, ◌==◌, if◌then◌else◌,
}
use package.tossinvest_rust.Rate.Env.{RateEnv}
use package.tossinvest_rust.Rate.Groups
use package.tossinvest_rust.Rate.Groups.{RateLimitGroup}
use package.tossinvest_rust.Rate.Controller.{
  Feedback, AimdConfig, ControllerState, new_state, park_fits, apply_feedback,
}

pub record DynamicLimiter (E : RateEnv) : Type 0 where
  pub group : RateLimitGroup
  pub cfg : AimdConfig E
  pub limiter : E.Limiter
  pub state : ControllerState E

module _ (E : RateEnv) where
  -- `1.0 / tps` as a duration, for a rate of at least 0.1.
  unfoldable pub period : E.F → ℕ
  period tps = E.from_secs (E.div (E.literal 1 0) (E.max tps (E.literal 1 1)))

  unfoldable pub build_limiter : E.F → Option E.Limiter
  build_limiter tps = if period tps == 0 then none else some (E.direct (period tps))

  -- The bucket that `install` stores; `drained` takes its one cell.
  unfoldable pub fresh_bucket : E.F → Bool → ℕ → Option E.Limiter
  unfolding build_limiter
  fresh_bucket tps is_decrease clock = elim (build_limiter tps) [
    | none ↦ none
    | some limiter ↦ some (if is_decrease then (E.check limiter clock).0 else limiter)
  ]

  unfoldable pub ceiling_at : RateLimitGroup → ℕ → E.F
  ceiling_at group kst_time = E.literal (Groups.effective_tps group kst_time) 0

module _ {E : RateEnv} where
  unfoldable pub new : RateLimitGroup → AimdConfig E → Option (DynamicLimiter E)
  new group cfg =
      let tps = E.literal (Groups.base_tps group) 0 in
      elim (build_limiter E tps) [
        | none ↦ none
        | some limiter ↦
            some (record { group = group; cfg = cfg; limiter = limiter; state = new_state E tps })
      ]

  unfoldable pub install : DynamicLimiter E → E.F → Bool → ℕ → Option (DynamicLimiter E)
  install d tps is_decrease clock = elim (fresh_bucket E tps is_decrease clock) [
    | none ↦ none
    | some limiter ↦ some (record d { limiter = limiter })
  ]

  unfoldable pub enforce_ceiling : DynamicLimiter E → ℕ → ℕ → Option (DynamicLimiter E)
  unfolding install
  enforce_ceiling d kst_time clock =
      let ceiling = ceiling_at E d.group kst_time in
      if not (E.leb d.state.effective_tps ceiling)
      then install
          (record d { state = record (d.state) { effective_tps = ceiling; built_tps = ceiling } })
          ceiling true clock
      else some d

  -- The ceiling is enforced before the permit is awaited. The number is the time of the permit.
  unfoldable pub until_ready : DynamicLimiter E → ℕ → ℕ → Option (DynamicLimiter E × ℕ)
  unfolding enforce_ceiling
  until_ready d kst_time clock = elim (enforce_ceiling d kst_time clock) [
    | none ↦ none
    | some d' ↦ some (
      record d' { limiter = (E.until_ready d'.limiter clock).0 },
      (E.until_ready d'.limiter clock).1,
    )
  ]

  unfoldable pub check : DynamicLimiter E → ℕ → DynamicLimiter E × Bool
  check d clock = (record d { limiter = (E.check d.limiter clock).0 }, (E.check d.limiter clock).1)

  -- `until.filter(|t| *t > Instant::now())`.
  unfoldable pub parked_until : DynamicLimiter E → ℕ → Option ℕ
  parked_until d now = elim d.state.parked_until [
    | none ↦ none
    | some t ↦ if ltb now t then some t else none
  ]

  -- Whether the rate has left the bucket's rate by more than the threshold.
  unfoldable pub has_drifted : E.F → E.F → AimdConfig E → Bool
  has_drifted eff old_built cfg = not (
      E.leb (E.abs (E.sub eff old_built))
        (E.mul (E.max old_built (E.literal 1 0)) cfg.rebuild_threshold))

  unfoldable pub record_feedback :
      DynamicLimiter E → Feedback → ℕ → ℕ → ℕ → Option (DynamicLimiter E)
  unfolding install
  record_feedback d feedback now kst_time clock =
      if not (park_fits E feedback now)
      then none
      else let s = (apply_feedback d.state feedback (ceiling_at E d.group kst_time) now d.cfg).0 in
        let eff = s.effective_tps in
        if has_drifted eff s.built_tps d.cfg
        then install (record d { state = record s { built_tps = eff } }) eff
            (not (E.leb s.built_tps eff)) clock
        else some (record d { state = s })
