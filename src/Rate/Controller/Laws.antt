-- ===== src/Rate/Controller/Laws.antt =====
-- crates/tossinvest-rate/src/dynamic.rs: what the control law `apply_feedback` promises.
use package.tossinvest_rust.Common.{
  ℕ, ◌+◌, ◌≡◌, refl, true, Option, none, some, arith, ◌⊎◌, inl, inr, Option-cases,
}
use package.tossinvest_rust.Rate.Env.{RateEnv}
use package.tossinvest_rust.Rate.Controller.{
  Feedback, success, rate_limited, server_error, timeout, RateLimitHeaders, AimdConfig,
  ControllerState, clamp, park, on_rate_limited, on_soft, retarget, apply_feedback,
}

-- A signal of congestion: anything but a success.
abbrev pub IsThrottle : Feedback → Type 0
IsThrottle (success _) = ⊥
IsThrottle _ = Unit

abbrev pub IsSoft : Feedback → Type 0
IsSoft server_error = Unit
IsSoft timeout = Unit
IsSoft _ = ⊥

abbrev pub IsHard : Feedback → Type 0
IsHard (rate_limited _ _) = Unit
IsHard _ = ⊥

abbrev pub IsSuccess : Feedback → Type 0
IsSuccess (success _) = Unit
IsSuccess _ = ⊥

-- The deadline that a feedback sets, or the one that stood.
abbrev pub parked_after : Option ℕ → Feedback → ℕ → Option ℕ
parked_after old (rate_limited (some ra) _) now = some (now + ra)
parked_after old _ now = old

module _ (E : RateEnv) where
  pub clamp_bounds :
      (v lo hi : E.F)
      → E.leb lo hi ≡ true
      → (E.leb lo (clamp E v lo hi) ≡ true) × (E.leb (clamp E v lo hi) hi ≡ true)
  unfolding clamp
  clamp_bounds v lo hi h = (
    E.min_greatest _ _ lo (E.max_right v lo) (E.max_right hi lo),
    E.leb_trans _ _ _ (E.min_right _ _) (E.max_least hi lo hi (E.leb_refl hi) h),
  )

  pub clamp_below :
      (v lo hi c : E.F) → E.leb v c ≡ true → E.leb lo c ≡ true → E.leb (clamp E v lo hi) c ≡ true
  unfolding clamp
  clamp_below v lo hi c below low =
      E.leb_trans _ _ _ (E.min_left _ _) (E.max_least v lo c below low)

  pub clamp_above : (v lo hi : E.F) → E.leb v hi ≡ true → E.leb v (clamp E v lo hi) ≡ true
  unfolding clamp
  clamp_above v lo hi h =
      E.min_greatest _ _ v (E.max_left v lo) (E.leb_trans _ _ _ h (E.max_left hi lo))

module _ {E : RateEnv} where
  -- After any feedback the rate lies between the floor and the ceiling, whatever the state was, if
  -- the floor is at most the ceiling.
  pub apply_feedback_bounds :
      (s : ControllerState E) (fb : Feedback) (ceiling : E.F) (now : ℕ) (cfg : AimdConfig E)
      → E.leb cfg.floor_tps ceiling ≡ true
      → let rate = (apply_feedback s fb ceiling now cfg).0.effective_tps in
        (E.leb cfg.floor_tps rate ≡ true) × (E.leb rate ceiling ≡ true)
  unfolding apply_feedback
  apply_feedback_bounds s fb ceiling now cfg h = clamp_bounds E _ cfg.floor_tps ceiling h

  module _ (s : ControllerState E) (now : ℕ) (cfg : AimdConfig E)
      (pos : E.leb (E.literal 0 0) s.effective_tps ≡ true) where
    on_rate_limited_le :
        (headers : RateLimitHeaders) (t : ControllerState E)
        → t.effective_tps ≡ s.effective_tps
        → E.leb cfg.decrease_factor (E.literal 1 0) ≡ true
        → E.leb (on_rate_limited t headers now cfg).1 s.effective_tps ≡ true
    unfolding on_rate_limited
    on_rate_limited_le headers t same f = elim (Option-cases headers.limit) [
      | inl absent ↦
          rw (absent, on_rate_limited)
            (ground (
              arith,
              E.mul_le s.effective_tps cfg.decrease_factor pos f,
              E.leb_refl s.effective_tps,
            ))
      | inr (n, given) ↦
          rw (given, on_rate_limited) (rw same (E.min_right (E.literal n 0) s.effective_tps))
    ]

    on_soft_le :
        E.leb cfg.soft_decrease_factor (E.literal 1 0) ≡ true
        → E.leb (on_soft s now cfg).1 s.effective_tps ≡ true
    unfolding on_soft
    on_soft_le f =
        ground (
          arith,
          E.mul_le s.effective_tps cfg.soft_decrease_factor pos f,
          E.leb_refl s.effective_tps,
        )

    park_rate : (ra : Option ℕ) → (park s ra now).effective_tps ≡ s.effective_tps
    unfolding park
    park_rate none = refl
    park_rate (some ra) = refl

    retarget_le :
        (fb : Feedback)
        → IsThrottle fb
        → E.leb cfg.decrease_factor (E.literal 1 0) ≡ true
        → E.leb cfg.soft_decrease_factor (E.literal 1 0) ≡ true
        → E.leb (retarget s fb now cfg).1 s.effective_tps ≡ true
    unfolding retarget
    retarget_le (success headers) h f g = absurd h
    retarget_le (rate_limited ra headers) h f g =
        on_rate_limited_le headers (park s ra now) (park_rate ra) f
    retarget_le server_error h f g = on_soft_le g
    retarget_le timeout h f g = on_soft_le g

  -- A 429, a server error or a timeout never raises the rate, with decrease factors of at most 1
  -- and a floor that is not negative and at most the rate.
  pub apply_feedback_throttle :
      (s : ControllerState E) (fb : Feedback) (ceiling : E.F) (now : ℕ) (cfg : AimdConfig E)
      → IsThrottle fb
      → E.leb cfg.decrease_factor (E.literal 1 0) ≡ true
      → E.leb cfg.soft_decrease_factor (E.literal 1 0) ≡ true
      → E.leb (E.literal 0 0) cfg.floor_tps ≡ true
      → E.leb cfg.floor_tps s.effective_tps ≡ true
      → E.leb (apply_feedback s fb ceiling now cfg).0.effective_tps s.effective_tps ≡ true
  unfolding apply_feedback
  apply_feedback_throttle s fb ceiling now cfg h f g pos low =
      clamp_below E _ cfg.floor_tps ceiling s.effective_tps
        (retarget_le s now cfg (E.leb_trans _ _ _ pos low) fb h f g) low

  -- What a feedback leaves alone: only a 429 with `Retry-After` moves the park deadline, to that
  -- much after now; only a success moves the time of the last increase, only a 429 that of the last
  -- hard decrease, only a server error or timeout that of the last soft decrease; and no feedback
  -- touches the rate that the bucket was built for.
  pub apply_feedback_frame :
      (s : ControllerState E) (fb : Feedback) (ceiling : E.F) (now : ℕ) (cfg : AimdConfig E)
      → let t = (apply_feedback s fb ceiling now cfg).0 in
        (t.parked_until ≡ parked_after s.parked_until fb now)
        × (t.built_tps ≡ s.built_tps)
        × (IsSuccess fb ⊎ (t.last_increase ≡ s.last_increase))
        × (IsHard fb ⊎ (t.last_hard_decrease ≡ s.last_hard_decrease))
        × (IsSoft fb ⊎ (t.last_soft_decrease ≡ s.last_soft_decrease))
  unfolding apply_feedback
  apply_feedback_frame s fb ceiling now cfg = ground arith
