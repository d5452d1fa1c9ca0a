-- ===== src/Rate/Registry/Laws.antt =====
-- crates/tossinvest-rate/src/lib.rs: the groups do not disturb one another.
use package.tossinvest_rust.Common.{ℕ, ◌≡◌, ◌≢◌, true, some}
use package.tossinvest_rust.Common.HashMap
use package.tossinvest_rust.Common.HashMap.{get}
use package.tossinvest_rust.Rate.Env.{RateEnv}
use package.tossinvest_rust.Rate.Groups.{RateLimitGroup, group_key}
use package.tossinvest_rust.Rate.Limiter
use package.tossinvest_rust.Rate.Limiter.{DynamicLimiter, ceiling_at}
use package.tossinvest_rust.Rate.Limiter.Laws.{enforce_ceiling_lem}
use package.tossinvest_rust.Rate.Registry.{Registry, until_ready, effective_tps}

module _ {E : RateEnv} where
  -- Awaiting a permit for a group with a limiter returns; the group's rate is then at most the
  -- ceiling of that time of day and at most what it was, and the limiter of every other group is as
  -- it was.
  pub until_ready-ceiling :
      (limiters : Registry E) (group other : RateLimitGroup) (d : DynamicLimiter E)
      (kst_time clock : ℕ)
      → get group limiters ≡ some d
      → group ≢ other
      → (limiters' : Registry E) × (admitted : ℕ) × (until_ready limiters group kst_time clock
          ≡ some (limiters', admitted))
        × (E.leb (effective_tps limiters' group) (ceiling_at E d.group kst_time) ≡ true)
        × (E.leb (effective_tps limiters' group) d.state.effective_tps ≡ true)
        × (get other limiters' ≡ get other limiters)
  unfolding until_ready effective_tps Limiter.until_ready
  until_ready-ceiling limiters group other d kst_time clock found ne =
      let (d', ran, low, down, _) = enforce_ceiling_lem d kst_time clock in
      let d'' : DynamicLimiter E = record d' { limiter = (E.until_ready d'.limiter clock).0 } in
      let here = HashMap.get-insert_self group d'' limiters in
      (
        HashMap.insert group d'' limiters,
        (E.until_ready d'.limiter clock).1,
        rw (found, until_ready) (rw (ran, Limiter.until_ready)),
        rw (here, effective_tps) low,
        rw (here, effective_tps) down,
        HashMap.get-insert_ne group other d'' limiters ne,
      )
