-- ===== src/Rate/Controller.antt =====
-- crates/tossinvest-rate/src/dynamic.rs: the control law of one group's rate.
pub mod Laws
pub mod Cooldown
use package.tossinvest_rust.Common.{
  ℕ, ◌+◌, ◌-◌, Bool, true, false, not, Option, none, some, leb, if◌then◌else◌,
}
use package.tossinvest_rust.Rate.Env.{RateEnv}

pub record RateLimitHeaders : Type 0 where
  pub limit : Option ℕ  -- u32
  pub remaining : Option ℕ  -- u32
  pub reset : Option ℕ  -- u64

pub data Feedback : Type 0 where
  success : RateLimitHeaders → Feedback
  rate_limited : Option ℕ → RateLimitHeaders → Feedback
  server_error timeout : Feedback

pub record AimdConfig (E : RateEnv) : Type 0 where
  pub decrease_factor : E.F
  pub soft_decrease_factor : E.F
  pub increase_step : E.F
  pub floor_tps : E.F
  pub decrease_cooldown : ℕ
  pub increase_cooldown : ℕ
  pub rebuild_threshold : E.F

pub record ControllerState (E : RateEnv) : Type 0 where
  pub effective_tps : E.F
  pub parked_until : Option ℕ
  pub built_tps : E.F
  pub last_hard_decrease : Option ℕ
  pub last_soft_decrease : Option ℕ
  pub last_increase : Option ℕ

-- `duration_since` is 0 where the other instant is later.
unfoldable pub cooled_down : Option ℕ → ℕ → ℕ → Bool
cooled_down none now cooldown = true
cooled_down (some t) now cooldown = leb cooldown (now - t)

module _ (E : RateEnv) where
  unfoldable pub default_config : AimdConfig E
  default_config = record {
    decrease_factor = E.literal 6 1;
    soft_decrease_factor = E.literal 8 1;
    increase_step = E.literal 5 1;
    floor_tps = E.literal 1 0;
    decrease_cooldown = 750000000;
    increase_cooldown = 2000000000;
    rebuild_threshold = E.literal 1 2;
  }

  unfoldable pub new_state : E.F → ControllerState E
  new_state tps = record {
    effective_tps = tps;
    parked_until = none;
    built_tps = tps;
    last_hard_decrease = none;
    last_soft_decrease = none;
    last_increase = none;
  }

  unfoldable pub clamp : E.F → E.F → E.F → E.F
  clamp v lo hi = E.min (E.max v lo) (E.max hi lo)

  -- Whether the deadline that `park` sets is an `Instant`: the sum panics otherwise.
  unfoldable pub park_fits : Feedback → ℕ → Bool
  park_fits (rate_limited (some ra) headers) now = leb (now + ra) E.instant_max
  park_fits _ now = true

module _ {E : RateEnv} where
  -- The `match` of `apply_feedback`: the state with its timestamps, and the target rate.
  unfoldable pub on_success :
      ControllerState E → RateLimitHeaders → ℕ → AimdConfig E → ControllerState E × E.F
  on_success s headers now cfg = elim headers.limit [
    | some limit ↦ (s, E.literal limit 0)
    | none ↦
        if cooled_down s.last_increase now cfg.increase_cooldown
        then (record s { last_increase = some now }, E.add s.effective_tps cfg.increase_step)
        else (s, s.effective_tps)
  ]

  -- `now + *ra`, where `park_fits` holds.
  unfoldable pub park : ControllerState E → Option ℕ → ℕ → ControllerState E
  park s none now = s
  park s (some ra) now = record s { parked_until = some (now + ra) }

  unfoldable pub on_rate_limited :
      ControllerState E → RateLimitHeaders → ℕ → AimdConfig E → ControllerState E × E.F
  on_rate_limited s headers now cfg = elim headers.limit [
    | some limit ↦ (s, E.min (E.literal limit 0) s.effective_tps)
    | none ↦
        if cooled_down s.last_hard_decrease now cfg.decrease_cooldown
        then (record s { last_hard_decrease = some now }, E.mul s.effective_tps cfg.decrease_factor)
        else (s, s.effective_tps)
  ]

  unfoldable pub on_soft : ControllerState E → ℕ → AimdConfig E → ControllerState E × E.F
  on_soft s now cfg =
      if cooled_down s.last_soft_decrease now cfg.decrease_cooldown
      then (
        record s { last_soft_decrease = some now },
        E.mul s.effective_tps cfg.soft_decrease_factor,
      )
      else (s, s.effective_tps)

  unfoldable pub retarget :
      ControllerState E → Feedback → ℕ → AimdConfig E → ControllerState E × E.F
  unfolding on_success park on_rate_limited on_soft
  retarget s (success headers) now cfg = on_success s headers now cfg
  retarget s (rate_limited retry_after headers) now cfg =
      on_rate_limited (park s retry_after now) headers now cfg
  retarget s server_error now cfg = on_soft s now cfg
  retarget s timeout now cfg = on_soft s now cfg

  -- `a > b` is `not (a <= b)`, with no NaN. The caller panics where `park_fits` does not hold.
  unfoldable pub apply_feedback :
      ControllerState E → Feedback → E.F → ℕ → AimdConfig E → ControllerState E × Option E.F
  unfolding retarget
  apply_feedback s feedback ceiling now cfg =
      let (t, target) = retarget s feedback now cfg in
      let new = clamp E target cfg.floor_tps ceiling in
      (
        record t { effective_tps = new },
        if not (E.leb (E.abs (E.sub new s.effective_tps)) (E.literal 1 9)) then some new else none,
      )
