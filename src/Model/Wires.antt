-- ===== src/Model/Wires.antt =====
-- The wire texts of the enums that `open_enum!` declares, in error.rs, enums.rs, stock.rs,
-- order/status.rs and
-- account.rs of crates/tossinvest-model/src.
use package.tossinvest_rust.Common.{String, ◌≡◌, refl, Bool, true}
use mathlib.Core.Bool.{false≢true}
use package.tossinvest_rust.Model.OpenEnum.{as_wire-from_wire}
use package.tossinvest_rust.Model.Status.{status_wire, status_from, is_known}
use package.tossinvest_rust.Model.Status.Wire.{status_roundtrip}
use package.tossinvest_rust.Model.ErrorCode.{
  ErrorCode, error_code_wire, error_code_variants, error_code_from, is_known_code,
}
use package.tossinvest_rust.Model.Enums.{
  Currency, currency_wire, currency_variants, currency_from, is_known_currency, MarketCountry,
  market_country_wire, market_country_variants, market_country_from, is_known_market_country,
  OrderType, order_type_wire, order_type_variants, order_type_from, is_known_order_type,
  TimeInForce, time_in_force_wire, time_in_force_variants, time_in_force_from,
  is_known_time_in_force, RateChangeType, rate_change_type_wire, rate_change_type_variants,
  rate_change_type_from, is_known_rate_change_type,
}
use package.tossinvest_rust.Model.Stock.{
  Market, market_segment_wire, market_segment_variants, market_segment_from,
  is_known_market_segment, SecurityType, security_type_wire, security_type_variants,
  security_type_from, is_known_security_type, ListingStatus, listing_status_wire,
  listing_status_variants, listing_status_from, is_known_listing_status, WarningType,
  warning_type_wire, warning_type_variants, warning_type_from, is_known_warning_type,
}
use package.tossinvest_rust.Model.Figures.{
  AccountType, account_type_wire, account_type_variants, account_type_from, is_known_account_type,
}

-- Reading any text and writing it back gives that text; a known value is written and read back as
-- itself.
abbrev pub RoundTrips : {E : Type 0} → (E → String) → (String → E) → (E → Bool) → Type 0
RoundTrips {E} wire from is_known =
    ((s : String) → wire (from s) ≡ s) × ((v : E) → is_known v ≡ true → from (wire v) ≡ v)

error_code_round : RoundTrips error_code_wire error_code_from is_known_code
unfolding error_code_from error_code_wire is_known_code
error_code_round =
    (as_wire-from_wire error_code_wire ErrorCode.unknown (λ s. refl) error_code_variants, known)
  where
    known : (v : ErrorCode) → is_known_code v ≡ true → error_code_from (error_code_wire v) ≡ v
    known (ErrorCode.unknown s) h = absurd (false≢true h)
    known _ h = refl

currency_round : RoundTrips currency_wire currency_from is_known_currency
unfolding currency_from currency_wire is_known_currency
currency_round =
    (as_wire-from_wire currency_wire Currency.unknown (λ s. refl) currency_variants, known)
  where
    known : (v : Currency) → is_known_currency v ≡ true → currency_from (currency_wire v) ≡ v
    known (Currency.unknown s) h = absurd (false≢true h)
    known _ h = refl

market_country_round : RoundTrips market_country_wire market_country_from is_known_market_country
unfolding market_country_from market_country_wire is_known_market_country
market_country_round = (
  as_wire-from_wire market_country_wire MarketCountry.unknown (λ s. refl) market_country_variants,
  known,
)
  where
    known :
        (v : MarketCountry)
        → is_known_market_country v ≡ true
        → market_country_from (market_country_wire v) ≡ v
    known (MarketCountry.unknown s) h = absurd (false≢true h)
    known _ h = refl

order_type_round : RoundTrips order_type_wire order_type_from is_known_order_type
unfolding order_type_from order_type_wire is_known_order_type
order_type_round =
    (as_wire-from_wire order_type_wire OrderType.unknown (λ s. refl) order_type_variants, known)
  where
    known : (v : OrderType) → is_known_order_type v ≡ true → order_type_from (order_type_wire v) ≡ v
    known (OrderType.unknown s) h = absurd (false≢true h)
    known _ h = refl

time_in_force_round : RoundTrips time_in_force_wire time_in_force_from is_known_time_in_force
unfolding time_in_force_from time_in_force_wire is_known_time_in_force
time_in_force_round = (
  as_wire-from_wire time_in_force_wire TimeInForce.unknown (λ s. refl) time_in_force_variants,
  known,
)
  where
    known :
        (v : TimeInForce)
        → is_known_time_in_force v ≡ true
        → time_in_force_from (time_in_force_wire v) ≡ v
    known (TimeInForce.unknown s) h = absurd (false≢true h)
    known _ h = refl

rate_change_type_round :
    RoundTrips rate_change_type_wire rate_change_type_from is_known_rate_change_type
unfolding rate_change_type_from rate_change_type_wire is_known_rate_change_type
rate_change_type_round = (
  as_wire-from_wire rate_change_type_wire RateChangeType.unknown (λ s. refl)
      rate_change_type_variants,
  known,
)
  where
    known :
        (v : RateChangeType)
        → is_known_rate_change_type v ≡ true
        → rate_change_type_from (rate_change_type_wire v) ≡ v
    known (RateChangeType.unknown s) h = absurd (false≢true h)
    known _ h = refl

market_segment_round : RoundTrips market_segment_wire market_segment_from is_known_market_segment
unfolding market_segment_from market_segment_wire is_known_market_segment
market_segment_round = (
  as_wire-from_wire market_segment_wire Market.unknown (λ s. refl) market_segment_variants,
  known,
)
  where
    known :
        (v : Market)
        → is_known_market_segment v ≡ true
        → market_segment_from (market_segment_wire v) ≡ v
    known (Market.unknown s) h = absurd (false≢true h)
    known _ h = refl

security_type_round : RoundTrips security_type_wire security_type_from is_known_security_type
unfolding security_type_from security_type_wire is_known_security_type
security_type_round = (
  as_wire-from_wire security_type_wire SecurityType.unknown (λ s. refl) security_type_variants,
  known,
)
  where
    known :
        (v : SecurityType)
        → is_known_security_type v ≡ true
        → security_type_from (security_type_wire v) ≡ v
    known (SecurityType.unknown s) h = absurd (false≢true h)
    known _ h = refl

listing_status_round : RoundTrips listing_status_wire listing_status_from is_known_listing_status
unfolding listing_status_from listing_status_wire is_known_listing_status
listing_status_round = (
  as_wire-from_wire listing_status_wire ListingStatus.unknown (λ s. refl) listing_status_variants,
  known,
)
  where
    known :
        (v : ListingStatus)
        → is_known_listing_status v ≡ true
        → listing_status_from (listing_status_wire v) ≡ v
    known (ListingStatus.unknown s) h = absurd (false≢true h)
    known _ h = refl

warning_type_round : RoundTrips warning_type_wire warning_type_from is_known_warning_type
unfolding warning_type_from warning_type_wire is_known_warning_type
warning_type_round = (
  as_wire-from_wire warning_type_wire WarningType.unknown (λ s. refl) warning_type_variants,
  known,
)
  where
    known :
        (v : WarningType)
        → is_known_warning_type v ≡ true
        → warning_type_from (warning_type_wire v) ≡ v
    known (WarningType.unknown s) h = absurd (false≢true h)
    known _ h = refl

account_type_round : RoundTrips account_type_wire account_type_from is_known_account_type
unfolding account_type_from account_type_wire is_known_account_type
account_type_round = (
  as_wire-from_wire account_type_wire AccountType.unknown (λ s. refl) account_type_variants,
  known,
)
  where
    known :
        (v : AccountType)
        → is_known_account_type v ≡ true
        → account_type_from (account_type_wire v) ≡ v
    known (AccountType.unknown s) h = absurd (false≢true h)
    known _ h = refl

-- For order statuses, error codes, currencies, market countries, order types, times in force, directions of a rate,
-- markets, security types, listing statuses, warnings and account types: reading any text and writing
-- it back gives that text, and a known value is written and read back as itself.
pub open_enums-RoundTrips :
    RoundTrips status_wire status_from is_known
    × RoundTrips error_code_wire error_code_from is_known_code
    × RoundTrips currency_wire currency_from is_known_currency
    × RoundTrips market_country_wire market_country_from is_known_market_country
    × RoundTrips order_type_wire order_type_from is_known_order_type
    × RoundTrips time_in_force_wire time_in_force_from is_known_time_in_force
    × RoundTrips rate_change_type_wire rate_change_type_from is_known_rate_change_type
    × RoundTrips market_segment_wire market_segment_from is_known_market_segment
    × RoundTrips security_type_wire security_type_from is_known_security_type
    × RoundTrips listing_status_wire listing_status_from is_known_listing_status
    × RoundTrips warning_type_wire warning_type_from is_known_warning_type
    × RoundTrips account_type_wire account_type_from is_known_account_type
open_enums-RoundTrips = (
  status_roundtrip, error_code_round, currency_round, market_country_round, order_type_round,
  time_in_force_round, rate_change_type_round, market_segment_round, security_type_round,
  listing_status_round, warning_type_round, account_type_round,
)
