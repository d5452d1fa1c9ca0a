-- ===== src/Rate/Registry.antt =====
-- crates/tossinvest-rate/src/lib.rs: `RateLimiterRegistry`, one limiter for each group.
pub mod Laws
pub mod Start
use package.tossinvest_rust.Common.{ℕ, Bool, true, Option, none, some, List, [], ◌∷◌, if◌then◌else◌}
use package.tossinvest_rust.Common.HashMap
use package.tossinvest_rust.Common.HashMap.{HashMap}
use package.tossinvest_rust.Rate.Env.{RateEnv}
use package.tossinvest_rust.Rate.Groups
use package.tossinvest_rust.Rate.Groups.{RateLimitGroup, group_key, all_groups}
use package.tossinvest_rust.Rate.Controller.{Feedback, AimdConfig, default_config}
use package.tossinvest_rust.Rate.Limiter
use package.tossinvest_rust.Rate.Limiter.{DynamicLimiter}

abbrev pub Registry : RateEnv → Type 0
Registry E = HashMap RateLimitGroup (DynamicLimiter E)

infixl 5 ◌>>=◌
abbrev ◌>>=◌ {ℓ κ} : {A : Type ℓ} {B : Type κ} → Option A → (A → Option B) → Option B
none >>= f = none
some a >>= f = f a

module _ {E : RateEnv} where
  -- The loop of `with_config`.
  unfoldable pub with_groups : List RateLimitGroup → AimdConfig E → Registry E → Option (Registry E)
  with_groups [] cfg limiters = some limiters
  with_groups (g ∷ gs) cfg limiters = do
    limiter ← Limiter.new g cfg
    with_groups gs cfg (HashMap.insert g limiter limiters)

  unfoldable pub with_config : AimdConfig E → Option (Registry E)
  unfolding with_groups
  with_config cfg = with_groups all_groups cfg []

  unfoldable pub with_base_limits : Option (Registry E)
  unfolding with_config
  with_base_limits = with_config (default_config E)

  -- An operation on the limiter of a group, if there is one. The source's map holds an `Arc` of each
  -- limiter and is never changed; here it holds the limiters, and the one of the group is replaced.
  unfoldable pub on_group :
      RateLimitGroup
      → (DynamicLimiter E → Option (DynamicLimiter E))
      → Registry E
      → Option (Registry E)
  on_group group f limiters = elim (HashMap.get group limiters) [
    | none ↦ some limiters
    | some limiter ↦ do limiter' ← f limiter; some (HashMap.insert group limiter' limiters)
  ]

  unfoldable pub record_feedback :
      Registry E → RateLimitGroup → Feedback → ℕ → ℕ → ℕ → Option (Registry E)
  unfolding on_group
  record_feedback limiters group feedback now kst_time clock =
      on_group group (λ d. Limiter.record_feedback d feedback now kst_time clock) limiters

  unfoldable pub until_ready : Registry E → RateLimitGroup → ℕ → ℕ → Option (Registry E × ℕ)
  until_ready limiters group kst_time clock = elim (HashMap.get group limiters) [
    | none ↦ some (limiters, clock)
    | some limiter ↦ do
      (limiter', admitted) ← Limiter.until_ready limiter kst_time clock
      some (HashMap.insert group limiter' limiters, admitted)
  ]

  unfoldable pub check : Registry E → RateLimitGroup → ℕ → Registry E × Bool
  check limiters group clock = elim (HashMap.get group limiters) [
    | none ↦ (limiters, true)
    | some limiter ↦
        let (limiter', admitted) = Limiter.check limiter clock in
        (HashMap.insert group limiter' limiters, admitted)
  ]

  unfoldable pub parked_until : Registry E → RateLimitGroup → ℕ → Option ℕ
  parked_until limiters group now = elim (HashMap.get group limiters) [
    | none ↦ none
    | some limiter ↦ Limiter.parked_until limiter now
  ]

  unfoldable pub effective_tps : Registry E → RateLimitGroup → E.F
  effective_tps limiters group = elim (HashMap.get group limiters) [
    | none ↦ E.literal (Groups.base_tps group) 0
    | some limiter ↦ limiter.state.effective_tps
  ]
