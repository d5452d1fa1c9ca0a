-- ===== src/Rate/Groups.antt =====
-- crates/tossinvest-rate/src/lib.rs: the rate-limit groups and the documented table of their rates.
-- A `NaiveTime` is its seconds from midnight.
pub mod Peak
use package.tossinvest_rust.Common.{
  ℕ, ◌+◌, ◌*◌, Bool, true, false, ◌&&◌, List, [], ◌∷◌, leb, ltb, if◌then◌else◌, Key,
}

pub data RateLimitGroup : Type 0 where
  auth account asset stock market_info market_data market_data_chart : RateLimitGroup
  order order_history order_info : RateLimitGroup

unfoldable pub RateLimitGroup-discrete : Discrete RateLimitGroup
RateLimitGroup-discrete = hlevel

instance abbrev pub group_key : Key RateLimitGroup
group_key = record { eq_dec = RateLimitGroup-discrete }

abbrev pub all_groups : List RateLimitGroup
all_groups =
    auth ∷ account ∷ asset ∷ stock ∷ market_info ∷ market_data ∷ market_data_chart ∷ order
    ∷ order_history ∷ order_info ∷ []

unfoldable pub base_tps : RateLimitGroup → ℕ
base_tps auth = 5
base_tps account = 1
base_tps asset = 5
base_tps stock = 5
base_tps market_info = 3
base_tps market_data = 10
base_tps market_data_chart = 5
base_tps order = 6
base_tps order_history = 5
base_tps order_info = 6

unfoldable pub peak_tps : RateLimitGroup → ℕ
unfolding base_tps
peak_tps order = 3
peak_tps order_info = 3
peak_tps other = base_tps other

unfoldable pub has_peak_window : RateLimitGroup → Bool
has_peak_window order = true
has_peak_window order_info = true
has_peak_window _ = false

unfoldable pub is_morning_peak : ℕ → Bool
is_morning_peak secs = leb (9 * 3600) secs && ltb secs (9 * 3600 + 10 * 60)

unfoldable pub effective_tps : RateLimitGroup → ℕ → ℕ
unfolding peak_tps has_peak_window is_morning_peak
effective_tps group kst_time =
    if has_peak_window group && is_morning_peak kst_time then peak_tps group else base_tps group
