-- ===== src/Client/Endpoints/Market.antt =====
-- crates/tossinvest/src/api.rs: the requests of the endpoints that belong to no account. A `u32` is
-- given with its value.
use mathlib.Core.Option
use package.tossinvest_rust.Common.{String, ℕ, Option, List, [], ◌∷◌}
use package.tossinvest_rust.Common.Text.{append}
use package.tossinvest_rust.Common.I64.{show_u64}
use package.tossinvest_rust.Model.Enums.{Currency, currency_wire}
use package.tossinvest_rust.Rate.Groups.{RateLimitGroup}
use package.tossinvest_rust.Client.Transport.{Http, RawRequest, get, query, query_opt}

pub data CandleInterval : Type 0 where
  one_minute one_day : CandleInterval

unfoldable pub interval_wire : CandleInterval → String
interval_wire one_minute = "1m"
interval_wire one_day = "1d"

-- `symbols.join(",")`.
unfoldable pub join : List String → String
join [] = ""
join (s ∷ []) = s
join (s ∷ t ∷ rest) = append s (append "," (join (t ∷ rest)))

module _ (H : Http) where
  unfoldable pub prices : List String → RawRequest H
  unfolding get query join
  prices symbols =
      query "symbols" (join symbols) (get H "/api/v1/prices" RateLimitGroup.market_data)

  unfoldable pub orderbook : String → RawRequest H
  unfolding get query
  orderbook symbol = query "symbol" symbol (get H "/api/v1/orderbook" RateLimitGroup.market_data)

  unfoldable pub trades : String → Option ℕ → RawRequest H
  unfolding get query query_opt show_u64
  trades symbol count =
      query_opt "count" (Option.map show_u64 count)
        (query "symbol" symbol (get H "/api/v1/trades" RateLimitGroup.market_data))

  unfoldable pub price_limits : String → RawRequest H
  unfolding get query
  price_limits symbol =
      query "symbol" symbol (get H "/api/v1/price-limits" RateLimitGroup.market_data)

  unfoldable pub candles : String → CandleInterval → Option ℕ → Option String → RawRequest H
  unfolding get query query_opt show_u64 interval_wire
  candles symbol interval count before = query_opt "before" before (
      query_opt "count" (Option.map show_u64 count) (
        query "interval" (interval_wire interval)
          (query "symbol" symbol (get H "/api/v1/candles" RateLimitGroup.market_data_chart))))

  unfoldable pub stocks : List String → RawRequest H
  unfolding get query join
  stocks symbols = query "symbols" (join symbols) (get H "/api/v1/stocks" RateLimitGroup.stock)

  unfoldable pub stock_warnings : String → RawRequest H
  unfolding get
  stock_warnings symbol =
      get H (append "/api/v1/stocks/" (append symbol "/warnings")) RateLimitGroup.stock

  unfoldable pub exchange_rate : Currency → Currency → Option String → RawRequest H
  unfolding get query query_opt currency_wire
  exchange_rate base quote date_time = query_opt "dateTime" date_time (
      query "quoteCurrency" (currency_wire quote) (
        query "baseCurrency" (currency_wire base)
          (get H "/api/v1/exchange-rate" RateLimitGroup.market_info)))

  unfoldable pub kr_market_calendar : Option String → RawRequest H
  unfolding get query_opt
  kr_market_calendar date =
      query_opt "date" date (get H "/api/v1/market-calendar/KR" RateLimitGroup.market_info)

  unfoldable pub us_market_calendar : Option String → RawRequest H
  unfolding get query_opt
  us_market_calendar date =
      query_opt "date" date (get H "/api/v1/market-calendar/US" RateLimitGroup.market_info)

  unfoldable pub accounts : RawRequest H
  unfolding get
  accounts = get H "/api/v1/accounts" RateLimitGroup.account
