-- ===== src/Rate/Env.antt =====
-- What crates/tossinvest-rate takes from other packages: `f64`, `Duration::from_secs_f64`, and the
-- `governor` limiter with a burst of one cell. Durations and instants are nanoseconds.
use package.tossinvest_rust.Common.{ℕ, ◌+◌, ◌≤◌, ◌<◌, ◌≡◌, ◌⊎◌, Bool, true, false}

pub record RateEnv : Type 1 where
  -- The `f64` values. The rates are finite, so that no NaN arises.
  pub F : Type 0
  pub leb : F → F → Bool
  pub max : F → F → F
  pub min : F → F → F
  pub add : F → F → F
  pub sub : F → F → F
  pub mul : F → F → F
  pub div : F → F → F
  pub abs : F → F
  -- `literal m e` is the literal m / 10^e, and `literal n 0` is `n as f64`.
  pub literal : ℕ → ℕ → F
  -- `Duration::from_secs_f64`.
  pub from_secs : F → ℕ
  -- The latest `Instant`: the sum of an instant and a duration panics beyond it.
  pub instant_max : ℕ
  -- `RateLimiter::direct(Quota::with_period(p).allow_burst(1))`, and `check` at a clock reading.
  pub Limiter : Type 0
  pub direct : ℕ → Limiter
  pub check : Limiter → ℕ → Limiter × Bool
  -- `until_ready`, from a clock reading: the limiter, and when it admits the call.
  pub until_ready : Limiter → ℕ → Limiter × ℕ
  -- `<=` is a total preorder, and `max` and `min` are its bounds.
  pub leb_refl : (a : F) → leb a a ≡ true
  pub leb_trans : (a b c : F) → leb a b ≡ true → leb b c ≡ true → leb a c ≡ true
  pub leb_total : (a b : F) → (leb a b ≡ true) ⊎ (leb b a ≡ true)
  pub max_left : (a b : F) → leb a (max a b) ≡ true
  pub max_right : (a b : F) → leb b (max a b) ≡ true
  pub max_least : (a b c : F) → leb a c ≡ true → leb b c ≡ true → leb (max a b) c ≡ true
  pub min_left : (a b : F) → leb (min a b) a ≡ true
  pub min_right : (a b : F) → leb (min a b) b ≡ true
  pub min_greatest : (a b c : F) → leb c a ≡ true → leb c b ≡ true → leb c (min a b) ≡ true
  -- A product with a factor of at most 1 does not exceed a value that is not negative.
  pub mul_le :
      (a f : F) → leb (literal 0 0) a ≡ true → leb f (literal 1 0) ≡ true → leb (mul a f) a ≡ true
  pub literal_mono : (m n : ℕ) → m ≤ n → leb (literal m 0) (literal n 0) ≡ true
  pub tenth_le_one : leb (literal 1 1) (literal 1 0) ≡ true
  pub tenth_pos : leb (literal 1 1) (literal 0 0) ≡ false
  -- A positive rate of at most 10^9 has a period of at least one nanosecond.
  pub period_pos :
      (t : F)
      → leb t (literal 0 0) ≡ false
      → leb t (literal 1000000000 0) ≡ true
      → 0 < from_secs (div (literal 1 0) t)
  -- A fresh limiter admits one call, and after an admitted call none for a period.
  pub direct_admits : (p now : ℕ) → (check (direct p) now).1 ≡ true
  pub direct_waits :
      (p now later : ℕ)
      → now ≤ later
      → later < now + p
      → (check (check (direct p) now).0 later).1 ≡ false
