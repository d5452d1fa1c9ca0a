-- ===== src/Model/MarketInfo.antt =====
-- crates/tossinvest-model/src/market_info.rs: the exchange rate and the calendars.
use package.tossinvest_rust.Common.{Option}
use package.tossinvest_rust.Model.Scalar.{Scalars}
use package.tossinvest_rust.Model.Enums.{Currency, RateChangeType}

pub record ExchangeRateResponse (S : Scalars) : Type 0 where
  pub base_currency : Currency
  pub quote_currency : Currency
  pub rate : S.Decimal
  pub mid_rate : S.Decimal
  pub basis_point : S.Decimal
  pub rate_change_type : RateChangeType
  pub valid_from : S.KstDateTime
  pub valid_until : S.KstDateTime

pub record PreMarketSession (S : Scalars) : Type 0 where
  pub start_time : S.KstDateTime
  pub single_price_auction_start_time : Option S.KstDateTime
  pub end_time : S.KstDateTime

pub record RegularMarketSession (S : Scalars) : Type 0 where
  pub start_time : S.KstDateTime
  pub single_price_auction_start_time : Option S.KstDateTime
  pub end_time : S.KstDateTime

pub record AfterMarketSession (S : Scalars) : Type 0 where
  pub start_time : S.KstDateTime
  pub single_price_auction_end_time : Option S.KstDateTime
  pub end_time : S.KstDateTime

pub record IntegratedHour (S : Scalars) : Type 0 where
  pub pre_market : Option (PreMarketSession S)
  pub regular_market : Option (RegularMarketSession S)
  pub after_market : Option (AfterMarketSession S)

pub record KrMarketDay (S : Scalars) : Type 0 where
  pub date : S.KstDate
  pub integrated : Option (IntegratedHour S)

pub record KrMarketCalendarResponse (S : Scalars) : Type 0 where
  pub today : KrMarketDay S
  pub previous_business_day : KrMarketDay S
  pub next_business_day : KrMarketDay S

pub record UsSession (S : Scalars) : Type 0 where
  pub start_time : S.KstDateTime
  pub end_time : S.KstDateTime

pub record UsMarketDay (S : Scalars) : Type 0 where
  pub date : S.KstDate
  pub day_market : Option (UsSession S)
  pub pre_market : Option (UsSession S)
  pub regular_market : Option (UsSession S)
  pub after_market : Option (UsSession S)

pub record UsMarketCalendarResponse (S : Scalars) : Type 0 where
  pub today : UsMarketDay S
  pub previous_business_day : UsMarketDay S
  pub next_business_day : UsMarketDay S
