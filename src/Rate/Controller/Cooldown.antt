-- ===== src/Rate/Controller/Cooldown.antt =====
-- crates/tossinvest-rate/src/dynamic.rs: the cooldowns between decreases.
use package.tossinvest_rust.Common.{
  ℕ, ◌-◌, ◌<◌, ◌≡◌, ◌∙◌, true, false, none, some, List, [], ◌∷◌, arith, All,
}
use package.tossinvest_rust.Rate.Env.{RateEnv}
use package.tossinvest_rust.Rate.Controller.{
  Feedback, rate_limited, AimdConfig, ControllerState, cooled_down, clamp, apply_feedback,
}
use package.tossinvest_rust.Rate.Controller.Laws.{IsSoft, clamp_below, clamp_above}

-- A 429 without headers: the throttle that the documentation does not announce.
abbrev pub bare_429 : Feedback
bare_429 = rate_limited none (record { limit = none; remaining = none; reset = none })

module _ {E : RateEnv} (ceiling : E.F) (cfg : AimdConfig E) where
  -- A 429 without headers right after a timeout or server error still multiplies the rate by the
  -- hard factor, if no 429 did so within the cooldown: soft decreases do not suppress hard ones.
  pub hard_after_soft :
      (s : ControllerState E) (soft : Feedback) (before now : ℕ)
      → IsSoft soft
      → cooled_down s.last_hard_decrease now cfg.decrease_cooldown ≡ true
      → let t = (apply_feedback s soft ceiling before cfg).0 in
        (apply_feedback t bare_429 ceiling now cfg).0.effective_tps
        ≡ clamp E (E.mul t.effective_tps cfg.decrease_factor) cfg.floor_tps ceiling
  unfolding apply_feedback
  hard_after_soft s soft before now h cool = ground arith

  -- The states after 429s without headers at the given times.
  unfoldable pub burst : ControllerState E → List ℕ → ControllerState E
  burst s [] = s
  burst s (now ∷ times) = burst (apply_feedback s bare_429 ceiling now cfg).0 times

  during_cooldown :
      (s : ControllerState E) (now : ℕ)
      → cooled_down s.last_hard_decrease now cfg.decrease_cooldown ≡ false
      → let t = (apply_feedback s bare_429 ceiling now cfg).0 in
        (t.last_hard_decrease ≡ s.last_hard_decrease)
        × (t.effective_tps ≡ clamp E s.effective_tps cfg.floor_tps ceiling)
  unfolding apply_feedback
  during_cooldown s now h = ground arith

  -- Equal as numbers, for rates.
  abbrev pub SameRate : E.F → E.F → Type 0
  SameRate a b = (E.leb a b ≡ true) × (E.leb b a ≡ true)

  clamp_same :
      (v : E.F)
      → E.leb cfg.floor_tps v ≡ true
      → E.leb v ceiling ≡ true
      → SameRate (clamp E v cfg.floor_tps ceiling) v
  clamp_same v low high = (
    clamp_below E v cfg.floor_tps ceiling v (E.leb_refl v) low,
    clamp_above E v cfg.floor_tps ceiling high,
  )

  -- A burst of 429s without headers lowers the rate once: after one at `first` that left the rate
  -- between the floor and the ceiling, any number of them within the cooldown keep the rate.
  pub burst_decreases_once :
      (s : ControllerState E) (first : ℕ) (times : List ℕ)
      → s.last_hard_decrease ≡ some first
      → All (λ now. now - first < cfg.decrease_cooldown) times
      → E.leb cfg.floor_tps s.effective_tps ≡ true
      → E.leb s.effective_tps ceiling ≡ true
      → SameRate (burst s times).effective_tps s.effective_tps
  unfolding burst cooled_down
  burst_decreases_once s first [] last near low high = (E.leb_refl _, E.leb_refl _)
  burst_decreases_once s first (now ∷ times) last near low high =
      let t = (apply_feedback s bare_429 ceiling now cfg).0 in
      let (kept, clamped) = during_cooldown s now (cooling s now first last near.0) in
      let same : SameRate t.effective_tps s.effective_tps =
        rw clamped (clamp_same s.effective_tps low high) in
      let rest =
        burst_decreases_once t first times (kept ∙ last) near.1 (E.leb_trans _ _ _ low same.1)
          (E.leb_trans _ _ _ same.0 high) in
      (E.leb_trans _ _ _ rest.0 same.0, E.leb_trans _ _ _ same.1 rest.1)
    where
      cooling :
          (s : ControllerState E) (now first : ℕ)
          → s.last_hard_decrease ≡ some first
          → now - first < cfg.decrease_cooldown
          → cooled_down s.last_hard_decrease now cfg.decrease_cooldown ≡ false
      cooling s now first last near = rw last (ground arith)
