-- ===== src/Rate/Limiter/Laws.antt =====
-- crates/tossinvest-rate/src/dynamic.rs: what a `DynamicLimiter` promises.
use package.tossinvest_rust.Common.{
  ℕ, ◌+◌, ◌≤◌, ◌<◌, ◌≡◌, refl, ◌⊎◌, Bool, true, false, not, none, some, arith, inl, inr, Bool-cases,
  if◌then◌else◌,
}
use package.tossinvest_rust.Rate.Env.{RateEnv}
use package.tossinvest_rust.Rate.Groups.{RateLimitGroup, base_tps}
use package.tossinvest_rust.Rate.Groups.Peak.{
  effective_tps-le_ten, one-le-effective_tps, base_tps-le_ten,
}
use package.tossinvest_rust.Rate.Controller.{
  Feedback, ControllerState, park_fits, apply_feedback, AimdConfig, new_state,
}
use package.tossinvest_rust.Rate.Controller.Laws.{
  apply_feedback_bounds, apply_feedback_frame, parked_after,
}
use package.tossinvest_rust.Rate.Limiter.{
  DynamicLimiter, period, fresh_bucket, ceiling_at, install, enforce_ceiling, check, has_drifted,
  record_feedback, build_limiter, new,
}

module _ (E : RateEnv) where
  abbrev Buildable : E.F → Type 0
  Buildable tps = E.leb tps (E.literal 1000000000 0) ≡ true

  floor_positive : (tps : E.F) → E.leb (E.max tps (E.literal 1 1)) (E.literal 0 0) ≡ false
  floor_positive tps = elim (Bool-cases (E.leb (E.max tps (E.literal 1 1)) (E.literal 0 0))) [
    | inl low ↦ absurd (cc (E.leb_trans _ _ _ (E.max_right tps (E.literal 1 1)) low, E.tenth_pos))
    | inr high ↦ high
  ]

  period_positive : (tps : E.F) → Buildable tps → 0 < period E tps
  unfolding period
  period_positive tps h = E.period_pos (E.max tps (E.literal 1 1)) (floor_positive tps) (
      E.max_least _ _ _ h
        (E.leb_trans _ _ _ E.tenth_le_one (E.literal_mono 1 1000000000 (omega arith))))

  -- The bucket for a rate, drained if the rate falls.
  abbrev bucket : E.F → Bool → ℕ → E.Limiter
  bucket tps is_decrease clock =
      if is_decrease then (E.check (E.direct (period E tps)) clock).0 else E.direct (period E tps)

  fresh_bucket-some :
      (tps : E.F) (is_decrease : Bool) (clock : ℕ)
      → Buildable tps
      → fresh_bucket E tps is_decrease clock ≡ some (bucket tps is_decrease clock)
  unfolding fresh_bucket
  fresh_bucket-some tps is_decrease clock h = ground (arith, period_positive tps h)

  build_limiter-some :
      (tps : E.F) → Buildable tps → build_limiter E tps ≡ some (E.direct (period E tps))
  unfolding build_limiter
  build_limiter-some tps h = ground (arith, period_positive tps h)

  -- A bucket that was drained at `clock` admits nothing for one period.
  drained :
      (tps : E.F) (clock later : ℕ)
      → clock ≤ later
      → later < clock + period E tps
      → (E.check (bucket tps true clock) later).1 ≡ false
  drained tps clock later from until = E.direct_waits (period E tps) clock later from until

  -- Every ceiling is a rate that a bucket can be built for.
  pub ceiling-Buildable : (g : RateLimitGroup) (kst_time : ℕ) → Buildable (ceiling_at E g kst_time)
  unfolding ceiling_at
  ceiling-Buildable g kst_time =
      E.literal_mono _ 1000000000 (omega (arith, effective_tps-le_ten g kst_time))

  pub one-le-ceiling :
      (g : RateLimitGroup) (kst_time : ℕ) → E.leb (E.literal 1 0) (ceiling_at E g kst_time) ≡ true
  unfolding ceiling_at
  one-le-ceiling g kst_time = E.literal_mono 1 _ (one-le-effective_tps g kst_time)

module _ {E : RateEnv} where
  install-some :
      (d : DynamicLimiter E) (tps : E.F) (is_decrease : Bool) (clock : ℕ)
      → Buildable E tps
      → install d tps is_decrease clock
        ≡ some (record d { limiter = bucket E tps is_decrease clock })
  unfolding install
  install-some d tps is_decrease clock h = rw (fresh_bucket-some E tps is_decrease clock h, install)

  module _ (d : DynamicLimiter E) (fb : Feedback) (now kst_time clock : ℕ)
      (floor : E.leb d.cfg.floor_tps (E.literal 1 0) ≡ true) where
    abbrev next : ControllerState E
    next = (apply_feedback d.state fb (ceiling_at E d.group kst_time) now d.cfg).0

    next_bounds :
        (E.leb d.cfg.floor_tps next.effective_tps ≡ true)
        × (E.leb next.effective_tps (ceiling_at E d.group kst_time) ≡ true)
    next_bounds =
        apply_feedback_bounds d.state fb (ceiling_at E d.group kst_time) now d.cfg
          (E.leb_trans _ _ _ floor (one-le-ceiling E d.group kst_time))

    next-Buildable : Buildable E next.effective_tps
    next-Buildable = E.leb_trans _ _ _ next_bounds.1 (ceiling-Buildable E d.group kst_time)

    overflown : park_fits E fb now ≡ false → record_feedback d fb now kst_time clock ≡ none
    unfolding record_feedback
    overflown late = rw late refl

    quiet :
        park_fits E fb now ≡ true
        → has_drifted next.effective_tps next.built_tps d.cfg ≡ false
        → record_feedback d fb now kst_time clock ≡ some (record d { state = next })
    unfolding record_feedback
    quiet fits h = rw (fits, h) refl

    rebuilt :
        park_fits E fb now ≡ true
        → has_drifted next.effective_tps next.built_tps d.cfg ≡ true
        → record_feedback d fb now kst_time clock
          ≡ some (record d {
            state = record (next) { built_tps = next.effective_tps };
            limiter =
                bucket E next.effective_tps (not (E.leb next.built_tps next.effective_tps)) clock;
          })
    unfolding record_feedback
    rebuilt fits h =
        rw (fits, h)
          (install-some (record d { state = record (next) { built_tps = next.effective_tps } })
            next.effective_tps _ clock next-Buildable)

    -- With a floor of at most 1, `record` panics exactly if the park deadline that the feedback asks for
    -- is beyond the range of `Instant`. Otherwise it leaves the group's rate between the floor and the
    -- ceiling of that time of day, and the park deadline is that of the control law.
    pub record_feedback_bounds :
        ((park_fits E fb now ≡ false) × (record_feedback d fb now kst_time clock ≡ none))
        ⊎ ((d' : DynamicLimiter E) × (park_fits E fb now ≡ true)
            × (record_feedback d fb now kst_time clock ≡ some d')
            × (E.leb d.cfg.floor_tps d'.state.effective_tps ≡ true)
            × (E.leb d'.state.effective_tps (ceiling_at E d.group kst_time) ≡ true)
            × (d'.state.parked_until ≡ parked_after d.state.parked_until fb now)
            × (d'.group ≡ d.group))
    record_feedback_bounds = elim (Bool-cases (park_fits E fb now)) [
      | inr late ↦ inl (late, overflown late)
      | inl fits ↦ elim (Bool-cases (has_drifted next.effective_tps next.built_tps d.cfg)) [
        | inl h ↦ inr (_, fits, rebuilt fits h, next_bounds.0, next_bounds.1, parked, refl)
        | inr h ↦ inr (_, fits, quiet fits h, next_bounds.0, next_bounds.1, parked, refl)
      ]
    ]
      where
        parked : next.parked_until ≡ parked_after d.state.parked_until fb now
        parked = (apply_feedback_frame d.state fb _ now d.cfg).0

    -- Where the rate falls by more than the threshold below the rate of the bucket, the bucket is
    -- rebuilt for the new rate and admits no call until one period of that rate has passed: no burst
    -- leaks when the rate is ratcheted down. The floor is at most 1, and the park deadline, if there is
    -- one, is an `Instant`.
    pub record_feedback_drains :
        (later : ℕ)
        → park_fits E fb now ≡ true
        → has_drifted next.effective_tps next.built_tps d.cfg ≡ true
        → E.leb next.built_tps next.effective_tps ≡ false
        → clock ≤ later
        → later < clock + period E next.effective_tps
        → (d' : DynamicLimiter E) × (record_feedback d fb now kst_time clock ≡ some d')
          × (d'.state.built_tps ≡ next.effective_tps)
          × ((check d' later).1 ≡ false)
    unfolding check
    record_feedback_drains later fits drift falls from until = (
      _,
      rebuilt fits drift,
      refl,
      rw falls (drained E next.effective_tps clock later from until),
    )

  -- Before a call is admitted `enforce_ceiling` lowers the rate to the ceiling of the time of day,
  -- with no panic: the rate after it is at most that ceiling and at most the rate before, and the
  -- limiter is as it was if the rate was at most the ceiling already.
  pub enforce_ceiling_lem :
      (d : DynamicLimiter E) (kst_time clock : ℕ)
      → (d' : DynamicLimiter E) × (enforce_ceiling d kst_time clock ≡ some d')
        × (E.leb d'.state.effective_tps (ceiling_at E d.group kst_time) ≡ true)
        × (E.leb d'.state.effective_tps d.state.effective_tps ≡ true)
        × ((d' ≡ d) ⊎ (E.leb d.state.effective_tps (ceiling_at E d.group kst_time) ≡ false))
  unfolding enforce_ceiling
  enforce_ceiling_lem d kst_time clock =
      let ceiling = ceiling_at E d.group kst_time in
      let lowered : DynamicLimiter E = record d {
        state = record (d.state) { effective_tps = ceiling; built_tps = ceiling };
      } in
      elim (Bool-cases (E.leb d.state.effective_tps ceiling)) [
        | inl below ↦ (d, rw below, below, E.leb_refl _, inl refl)
        | inr above ↦ (
          record lowered { limiter = bucket E ceiling true clock },
          rw above (install-some lowered ceiling true clock (ceiling-Buildable E d.group kst_time)),
          E.leb_refl ceiling,
          below_of_above d.state.effective_tps ceiling above,
          inr above,
        )
      ]
    where
      below_of_above : (a b : E.F) → E.leb a b ≡ false → E.leb b a ≡ true
      below_of_above a b h = ground (arith, E.leb_total a b)

-- The limiter of a group at its base rate.
abbrev pub at_base : {E : RateEnv} → RateLimitGroup → AimdConfig E → DynamicLimiter E
at_base {E} group cfg = record {
  group = group;
  cfg = cfg;
  limiter = E.direct (period E (E.literal (base_tps group) 0));
  state = new_state E (E.literal (base_tps group) 0);
}

pub new-at_base :
    {E : RateEnv} (group : RateLimitGroup) (cfg : AimdConfig E)
    → new group cfg ≡ some (at_base group cfg)
unfolding new
new-at_base {E} group cfg = rw (
  build_limiter-some E (E.literal (base_tps group) 0)
      (E.literal_mono _ 1000000000 (omega (arith, base_tps-le_ten group))),
  new,
)
