-- ===== src/Client/Retry/Backoff.antt =====
-- crates/tossinvest/src/client.rs, `sleep_backoff`: the delay before an attempt.
use package.tossinvest_rust.Common.{ℕ, ◌-◌, ◌≤◌, none, arith}
use package.tossinvest_rust.Client.Retry.{
  RetryPolicy, minimum, saturating_mul, duration_max, backoff,
}
use native.Mathlib.Nat.{pow-le-pow_right, mul-le-mul_left}

minimum-le_right : (a b : ℕ) → minimum a b ≤ b
minimum-le_right a b = ground arith

minimum_mono : (a b c : ℕ) → a ≤ b → minimum a c ≤ minimum b c
minimum_mono a b c h = ground arith

-- Without a `Retry-After` no delay exceeds the policy's cap, and the delays do not shrink from one
-- attempt to a later one.
pub backoff_mono :
    (policy : RetryPolicy) (attempt later : ℕ)
    → attempt ≤ later
    → (backoff policy attempt none ≤ backoff policy later none)
      × (backoff policy later none ≤ policy.max_delay)
unfolding backoff saturating_mul
backoff_mono policy attempt later h = (
  minimum_mono _ _ policy.max_delay (
      minimum_mono _ _ duration_max (
        mul-le-mul_left policy.base_delay (
          pow-le-pow_right (omega arith)
            (minimum_mono (attempt - 1) (later - 1) 16 (omega (arith, h)))))),
  minimum-le_right _ policy.max_delay,
)
