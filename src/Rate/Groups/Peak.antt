-- ===== src/Rate/Groups/Peak.antt =====
-- crates/tossinvest-rate/src/lib.rs: the ceiling of a group through the day.
use package.tossinvest_rust.Common.{ℕ, ◌≤◌, ◌<◌, ◌≡◌, ◌↔◌, ◌⊎◌, arith}
use package.tossinvest_rust.Rate.Groups.{RateLimitGroup, order, order_info, base_tps, effective_tps}

-- At every time of day the ceiling of a group lies between 1 and its base rate, and it is below the
-- base rate exactly for the two order groups from 09:00:00 to before 09:10:00; it is the base rate
-- or 3.
pub effective_tps-cases :
    (g : RateLimitGroup) (secs : ℕ)
    → (1 ≤ effective_tps g secs)
      × (effective_tps g secs ≤ base_tps g)
      × ((effective_tps g secs < base_tps g)
          ↔ (((g ≡ order) ⊎ (g ≡ order_info)) × (32400 ≤ secs) × (secs < 33000)))
      × ((effective_tps g secs ≡ base_tps g) ⊎ (effective_tps g secs ≡ 3))
unfolding effective_tps base_tps
effective_tps-cases g secs = ground arith

pub one-le-effective_tps : (g : RateLimitGroup) (secs : ℕ) → 1 ≤ effective_tps g secs
one-le-effective_tps g secs = (effective_tps-cases g secs).0

pub effective_tps-le_ten : (g : RateLimitGroup) (secs : ℕ) → effective_tps g secs ≤ 10
unfolding effective_tps base_tps
effective_tps-le_ten g secs = ground arith

pub base_tps-le_ten : (g : RateLimitGroup) → base_tps g ≤ 10
unfolding base_tps
base_tps-le_ten g = ground arith
