-- ===== src/Model/Stock.antt =====
-- crates/tossinvest-model/src/stock.rs: reference data of stocks and warnings.
use package.tossinvest_rust.Common.{
  String, Bool, true, false, Option, List, [], ◌∷◌, String-discrete,
}
use package.tossinvest_rust.Model.OpenEnum
use package.tossinvest_rust.Model.Scalar.{Scalars}
use package.tossinvest_rust.Model.Enums.{Currency}

pub data Market : Type 0 where
  kospi kosdaq nyse nasdaq amex kr_etc us_etc : Market
  unknown : String → Market

unfoldable pub market_segment_wire : Market → String
market_segment_wire Market.kospi = "KOSPI"
market_segment_wire Market.kosdaq = "KOSDAQ"
market_segment_wire Market.nyse = "NYSE"
market_segment_wire Market.nasdaq = "NASDAQ"
market_segment_wire Market.amex = "AMEX"
market_segment_wire Market.kr_etc = "KR_ETC"
market_segment_wire Market.us_etc = "US_ETC"
market_segment_wire (Market.unknown s) = s

abbrev pub market_segment_variants : List Market
market_segment_variants =
    Market.kospi ∷ Market.kosdaq ∷ Market.nyse ∷ Market.nasdaq ∷ Market.amex ∷ Market.kr_etc
    ∷ Market.us_etc ∷ []

unfoldable pub market_segment_from : String → Market
unfolding OpenEnum.from_wire String-discrete market_segment_wire
market_segment_from = OpenEnum.from_wire market_segment_wire Market.unknown market_segment_variants

unfoldable pub is_known_market_segment : Market → Bool
is_known_market_segment (Market.unknown s) = false
is_known_market_segment v = true

pub data SecurityType : Type 0 where
  stock foreign_stock depositary_receipt infrastructure_fund reit etf foreign_etf etn
        stock_warrants :
      SecurityType
  unknown : String → SecurityType

unfoldable pub security_type_wire : SecurityType → String
security_type_wire SecurityType.stock = "STOCK"
security_type_wire SecurityType.foreign_stock = "FOREIGN_STOCK"
security_type_wire SecurityType.depositary_receipt = "DEPOSITARY_RECEIPT"
security_type_wire SecurityType.infrastructure_fund = "INFRASTRUCTURE_FUND"
security_type_wire SecurityType.reit = "REIT"
security_type_wire SecurityType.etf = "ETF"
security_type_wire SecurityType.foreign_etf = "FOREIGN_ETF"
security_type_wire SecurityType.etn = "ETN"
security_type_wire SecurityType.stock_warrants = "STOCK_WARRANTS"
security_type_wire (SecurityType.unknown s) = s

abbrev pub security_type_variants : List SecurityType
security_type_variants =
    SecurityType.stock ∷ SecurityType.foreign_stock ∷ SecurityType.depositary_receipt
    ∷ SecurityType.infrastructure_fund ∷ SecurityType.reit ∷ SecurityType.etf
    ∷ SecurityType.foreign_etf ∷ SecurityType.etn ∷ SecurityType.stock_warrants ∷ []

unfoldable pub security_type_from : String → SecurityType
unfolding OpenEnum.from_wire String-discrete security_type_wire
security_type_from =
    OpenEnum.from_wire security_type_wire SecurityType.unknown security_type_variants

unfoldable pub is_known_security_type : SecurityType → Bool
is_known_security_type (SecurityType.unknown s) = false
is_known_security_type v = true

pub data ListingStatus : Type 0 where
  scheduled active delisted : ListingStatus
  unknown : String → ListingStatus

unfoldable pub listing_status_wire : ListingStatus → String
listing_status_wire ListingStatus.scheduled = "SCHEDULED"
listing_status_wire ListingStatus.active = "ACTIVE"
listing_status_wire ListingStatus.delisted = "DELISTED"
listing_status_wire (ListingStatus.unknown s) = s

abbrev pub listing_status_variants : List ListingStatus
listing_status_variants =
    ListingStatus.scheduled ∷ ListingStatus.active ∷ ListingStatus.delisted ∷ []

unfoldable pub listing_status_from : String → ListingStatus
unfolding OpenEnum.from_wire String-discrete listing_status_wire
listing_status_from =
    OpenEnum.from_wire listing_status_wire ListingStatus.unknown listing_status_variants

unfoldable pub is_known_listing_status : ListingStatus → Bool
is_known_listing_status (ListingStatus.unknown s) = false
is_known_listing_status v = true

pub data WarningType : Type 0 where
  liquidation_trading overheated investment_warning investment_risk vi_static_and_dynamic vi_static
        vi_dynamic stock_warrants :
      WarningType
  unknown : String → WarningType

unfoldable pub warning_type_wire : WarningType → String
warning_type_wire WarningType.liquidation_trading = "LIQUIDATION_TRADING"
warning_type_wire WarningType.overheated = "OVERHEATED"
warning_type_wire WarningType.investment_warning = "INVESTMENT_WARNING"
warning_type_wire WarningType.investment_risk = "INVESTMENT_RISK"
warning_type_wire WarningType.vi_static_and_dynamic = "VI_STATIC_AND_DYNAMIC"
warning_type_wire WarningType.vi_static = "VI_STATIC"
warning_type_wire WarningType.vi_dynamic = "VI_DYNAMIC"
warning_type_wire WarningType.stock_warrants = "STOCK_WARRANTS"
warning_type_wire (WarningType.unknown s) = s

abbrev pub warning_type_variants : List WarningType
warning_type_variants =
    WarningType.liquidation_trading ∷ WarningType.overheated ∷ WarningType.investment_warning
    ∷ WarningType.investment_risk ∷ WarningType.vi_static_and_dynamic ∷ WarningType.vi_static
    ∷ WarningType.vi_dynamic ∷ WarningType.stock_warrants ∷ []

unfoldable pub warning_type_from : String → WarningType
unfolding OpenEnum.from_wire String-discrete warning_type_wire
warning_type_from = OpenEnum.from_wire warning_type_wire WarningType.unknown warning_type_variants

unfoldable pub is_known_warning_type : WarningType → Bool
is_known_warning_type (WarningType.unknown s) = false
is_known_warning_type v = true

pub record KrMarketDetail : Type 0 where
  pub liquidation_trading : Bool
  pub nxt_supported : Bool
  pub krx_trading_suspended : Bool
  pub nxt_trading_suspended : Option Bool

pub record StockInfo (S : Scalars) : Type 0 where
  pub symbol : String
  pub name : String
  pub english_name : String
  pub isin_code : String
  pub market : Market
  pub security_type : SecurityType
  pub is_common_share : Bool
  pub status : ListingStatus
  pub currency : Currency
  pub list_date : Option S.KstDate
  pub delist_date : Option S.KstDate
  pub shares_outstanding : S.Decimal
  pub leverage_factor : Option S.Decimal
  pub korean_market_detail : Option KrMarketDetail

pub record StockWarning (S : Scalars) : Type 0 where
  pub warning_type : WarningType
  pub exchange : Option String
  pub start_date : Option S.KstDate
  pub end_date : Option S.KstDate
