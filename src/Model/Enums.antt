-- ===== src/Model/Enums.antt =====
-- crates/tossinvest-model/src/enums.rs: the enums that several parts share.
use package.tossinvest_rust.Common.{String, Bool, true, false, List, [], ◌∷◌, String-discrete}
use package.tossinvest_rust.Model.OpenEnum

pub data Currency : Type 0 where
  krw usd : Currency
  unknown : String → Currency

unfoldable pub currency_wire : Currency → String
currency_wire Currency.krw = "KRW"
currency_wire Currency.usd = "USD"
currency_wire (Currency.unknown s) = s

abbrev pub currency_variants : List Currency
currency_variants = Currency.krw ∷ Currency.usd ∷ []

unfoldable pub currency_from : String → Currency
unfolding OpenEnum.from_wire String-discrete currency_wire
currency_from = OpenEnum.from_wire currency_wire Currency.unknown currency_variants

unfoldable pub is_known_currency : Currency → Bool
is_known_currency (Currency.unknown s) = false
is_known_currency v = true

pub data MarketCountry : Type 0 where
  kr us : MarketCountry
  unknown : String → MarketCountry

unfoldable pub market_country_wire : MarketCountry → String
market_country_wire MarketCountry.kr = "KR"
market_country_wire MarketCountry.us = "US"
market_country_wire (MarketCountry.unknown s) = s

abbrev pub market_country_variants : List MarketCountry
market_country_variants = MarketCountry.kr ∷ MarketCountry.us ∷ []

unfoldable pub market_country_from : String → MarketCountry
unfolding OpenEnum.from_wire String-discrete market_country_wire
market_country_from =
    OpenEnum.from_wire market_country_wire MarketCountry.unknown market_country_variants

unfoldable pub is_known_market_country : MarketCountry → Bool
is_known_market_country (MarketCountry.unknown s) = false
is_known_market_country v = true

pub data OrderType : Type 0 where
  limit market : OrderType
  unknown : String → OrderType

unfoldable pub order_type_wire : OrderType → String
order_type_wire OrderType.limit = "LIMIT"
order_type_wire OrderType.market = "MARKET"
order_type_wire (OrderType.unknown s) = s

abbrev pub order_type_variants : List OrderType
order_type_variants = OrderType.limit ∷ OrderType.market ∷ []

unfoldable pub order_type_from : String → OrderType
unfolding OpenEnum.from_wire String-discrete order_type_wire
order_type_from = OpenEnum.from_wire order_type_wire OrderType.unknown order_type_variants

unfoldable pub is_known_order_type : OrderType → Bool
is_known_order_type (OrderType.unknown s) = false
is_known_order_type v = true

pub data TimeInForce : Type 0 where
  day cls opg : TimeInForce
  unknown : String → TimeInForce

unfoldable pub time_in_force_wire : TimeInForce → String
time_in_force_wire TimeInForce.day = "DAY"
time_in_force_wire TimeInForce.cls = "CLS"
time_in_force_wire TimeInForce.opg = "OPG"
time_in_force_wire (TimeInForce.unknown s) = s

abbrev pub time_in_force_variants : List TimeInForce
time_in_force_variants = TimeInForce.day ∷ TimeInForce.cls ∷ TimeInForce.opg ∷ []

unfoldable pub time_in_force_from : String → TimeInForce
unfolding OpenEnum.from_wire String-discrete time_in_force_wire
time_in_force_from =
    OpenEnum.from_wire time_in_force_wire TimeInForce.unknown time_in_force_variants

unfoldable pub is_known_time_in_force : TimeInForce → Bool
is_known_time_in_force (TimeInForce.unknown s) = false
is_known_time_in_force v = true

pub data RateChangeType : Type 0 where
  up equal down : RateChangeType
  unknown : String → RateChangeType

unfoldable pub rate_change_type_wire : RateChangeType → String
rate_change_type_wire RateChangeType.up = "UP"
rate_change_type_wire RateChangeType.equal = "EQUAL"
rate_change_type_wire RateChangeType.down = "DOWN"
rate_change_type_wire (RateChangeType.unknown s) = s

abbrev pub rate_change_type_variants : List RateChangeType
rate_change_type_variants = RateChangeType.up ∷ RateChangeType.equal ∷ RateChangeType.down ∷ []

unfoldable pub rate_change_type_from : String → RateChangeType
unfolding OpenEnum.from_wire String-discrete rate_change_type_wire
rate_change_type_from =
    OpenEnum.from_wire rate_change_type_wire RateChangeType.unknown rate_change_type_variants

unfoldable pub is_known_rate_change_type : RateChangeType → Bool
is_known_rate_change_type (RateChangeType.unknown s) = false
is_known_rate_change_type v = true

pub data Side : Type 0 where
  buy sell : Side
