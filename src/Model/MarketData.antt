-- ===== src/Model/MarketData.antt =====
-- crates/tossinvest-model/src/market_data.rs: the order book, trades, price limits and candles.
use package.tossinvest_rust.Common.{Option, List}
use package.tossinvest_rust.Model.Scalar.{Scalars}
use package.tossinvest_rust.Model.Enums.{Currency}

pub record OrderbookEntry (S : Scalars) : Type 0 where
  pub price : S.Decimal
  pub volume : S.Decimal

pub record OrderbookResponse (S : Scalars) : Type 0 where
  pub timestamp : Option S.KstDateTime
  pub currency : Currency
  pub asks : List (OrderbookEntry S)
  pub bids : List (OrderbookEntry S)

pub record Trade (S : Scalars) : Type 0 where
  pub price : S.Decimal
  pub volume : S.Decimal
  pub timestamp : S.KstDateTime
  pub currency : Currency

pub record PriceLimitResponse (S : Scalars) : Type 0 where
  pub timestamp : S.KstDateTime
  pub upper_limit_price : Option S.Decimal
  pub lower_limit_price : Option S.Decimal
  pub currency : Currency

pub record Candle (S : Scalars) : Type 0 where
  pub timestamp : S.KstDateTime
  pub open_price : S.Decimal
  pub high_price : S.Decimal
  pub low_price : S.Decimal
  pub close_price : S.Decimal
  pub volume : S.Decimal
  pub currency : Currency

pub record CandlePageResponse (S : Scalars) : Type 0 where
  pub candles : List (Candle S)
  pub next_before : Option S.KstDateTime
