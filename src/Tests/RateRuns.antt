-- ===== src/Tests/RateRuns.antt =====
-- Runs of the rate controller, on rates in billionths.
use package.tossinvest_rust.Common.{ℕ, ◌≡◌, ◌≢◌, ◌⊎◌, refl, true, false, none, some, [], ◌∷◌, arith}
use package.tossinvest_rust.Common.HashMap.{get}
use package.tossinvest_rust.Rate.Groups
use package.tossinvest_rust.Rate.Groups.{RateLimitGroup, order, order_info, base_tps, group_key}
use package.tossinvest_rust.Rate.Controller.{
  Feedback, AimdConfig, ControllerState, default_config, new_state, clamp, apply_feedback,
  cooled_down, park_fits,
}
use package.tossinvest_rust.Rate.Controller.Laws.{
  IsSoft, IsHard, IsSuccess, parked_after, apply_feedback_bounds, apply_feedback_throttle,
  apply_feedback_frame,
}
use package.tossinvest_rust.Rate.Controller.Cooldown.{
  bare_429, burst, SameRate, burst_decreases_once,
}
use package.tossinvest_rust.Rate.Limiter.{
  DynamicLimiter, ceiling_at, period, enforce_ceiling, record_feedback, check, has_drifted,
}
use package.tossinvest_rust.Rate.Limiter.Laws.{
  record_feedback_bounds, record_feedback_drains, enforce_ceiling_lem,
}
use package.tossinvest_rust.Rate.Registry
use package.tossinvest_rust.Rate.Registry.{Registry}
use package.tossinvest_rust.Rate.Registry.Laws.{until_ready-ceiling}
use package.tossinvest_rust.Tests.Worlds.{billionth_rates}

abbrev config : AimdConfig billionth_rates
config = default_config billionth_rates

-- Six calls a second.
abbrev at_six : ControllerState billionth_rates
at_six = new_state billionth_rates 6000000000

abbrev limiter_at_six : DynamicLimiter billionth_rates
limiter_at_six = record { group = order; cfg = config; limiter = (166666666, 0); state = at_six }

abbrev throttled : ControllerState billionth_rates
throttled = (apply_feedback at_six bare_429 6000000000 0 config).0

apply_feedback_bounds_example :
    (billionth_rates.leb config.floor_tps throttled.effective_tps ≡ true)
    × (billionth_rates.leb throttled.effective_tps 6000000000 ≡ true)
unfolding default_config
apply_feedback_bounds_example = apply_feedback_bounds at_six bare_429 6000000000 0 config refl

apply_feedback_throttle_example :
    billionth_rates.leb throttled.effective_tps at_six.effective_tps ≡ true
unfolding default_config new_state
apply_feedback_throttle_example =
    apply_feedback_throttle at_six bare_429 6000000000 0 config tt refl refl refl refl

apply_feedback_frame_example :
    (throttled.parked_until ≡ parked_after at_six.parked_until bare_429 0)
    × (throttled.built_tps ≡ at_six.built_tps)
    × (IsSuccess bare_429 ⊎ (throttled.last_increase ≡ at_six.last_increase))
    × (IsHard bare_429 ⊎ (throttled.last_hard_decrease ≡ at_six.last_hard_decrease))
    × (IsSoft bare_429 ⊎ (throttled.last_soft_decrease ≡ at_six.last_soft_decrease))
apply_feedback_frame_example = apply_feedback_frame at_six bare_429 6000000000 0 config

abbrev timed_out : ControllerState billionth_rates
timed_out = (apply_feedback at_six Feedback.timeout 6000000000 0 config).0

burst_decreases_once_example :
    SameRate 6000000000 config
      (burst 6000000000 config throttled (1000 ∷ 2000 ∷ [])).effective_tps
      throttled.effective_tps
unfolding default_config new_state apply_feedback cooled_down clamp
burst_decreases_once_example =
    burst_decreases_once 6000000000 config throttled 0 (1000 ∷ 2000 ∷ []) refl
      (omega arith, (omega arith, tt)) refl refl

record_feedback_bounds_example :
    ((park_fits billionth_rates bare_429 0 ≡ false)
      × (record_feedback limiter_at_six bare_429 0 36000 0 ≡ none))
    ⊎ ((d' : DynamicLimiter billionth_rates) × (park_fits billionth_rates bare_429 0 ≡ true)
        × (record_feedback limiter_at_six bare_429 0 36000 0 ≡ some d')
        × (billionth_rates.leb config.floor_tps d'.state.effective_tps ≡ true)
        × (billionth_rates.leb d'.state.effective_tps (ceiling_at billionth_rates order 36000)
            ≡ true)
        × (d'.state.parked_until ≡ parked_after at_six.parked_until bare_429 0)
        × (d'.group ≡ order))
unfolding default_config
record_feedback_bounds_example = record_feedback_bounds limiter_at_six bare_429 0 36000 0 refl

record_feedback_drains_example :
    (d' : DynamicLimiter billionth_rates) × (record_feedback limiter_at_six bare_429 0 36000 0
      ≡ some d')
    × (d'.state.built_tps ≡ 3600000000)
    × ((check d' 200000000).1 ≡ false)
unfolding default_config new_state apply_feedback cooled_down clamp has_drifted period ceiling_at
    park_fits Groups.effective_tps
record_feedback_drains_example =
    record_feedback_drains limiter_at_six bare_429 0 36000 0 refl 200000000 refl refl refl
      (omega arith) (omega arith)

enforce_ceiling_lem_example :
    (d' : DynamicLimiter billionth_rates) × (enforce_ceiling limiter_at_six 32400 0 ≡ some d')
    × (billionth_rates.leb d'.state.effective_tps (ceiling_at billionth_rates order 32400) ≡ true)
    × (billionth_rates.leb d'.state.effective_tps at_six.effective_tps ≡ true)
    × ((d' ≡ limiter_at_six)
        ⊎ (billionth_rates.leb at_six.effective_tps (ceiling_at billionth_rates order 32400)
            ≡ false))
enforce_ceiling_lem_example = enforce_ceiling_lem limiter_at_six 32400 0

abbrev two_groups : Registry billionth_rates
two_groups = (order, limiter_at_six) ∷ (order_info, limiter_at_six) ∷ []

order≢order_info : order ≢ order_info
order≢order_info e = cc

until_ready-ceiling_example :
    (limiters' : Registry billionth_rates) × (admitted : ℕ) × (Registry.until_ready two_groups order
        32400 0
      ≡ some (limiters', admitted))
    × (billionth_rates.leb
          (Registry.effective_tps limiters' order)
          (ceiling_at billionth_rates order 32400)
        ≡ true)
    × (billionth_rates.leb (Registry.effective_tps limiters' order) at_six.effective_tps ≡ true)
    × (get order_info limiters' ≡ get order_info two_groups)
unfolding get Groups.RateLimitGroup-discrete
until_ready-ceiling_example =
    until_ready-ceiling two_groups order order_info limiter_at_six 32400 0 refl order≢order_info
