-- ===== src/Model/Account.antt =====
-- crates/tossinvest-model/src/account.rs: the holdings overview that the state layer stores.
use package.tossinvest_rust.Common.{String, Option, none, some, List}
use package.tossinvest_rust.Model.Scalar.{Scalars}
use package.tossinvest_rust.Model.Enums.{Currency, MarketCountry}

-- `Ratio` has the representation of `Dec`.
pub record CurrencyBucket (S : Scalars) : Type 0 where
  pub krw : S.Decimal
  pub usd : Option S.Decimal

unfoldable pub bucket_get : {S : Scalars} → CurrencyBucket S → Currency → Option S.Decimal
bucket_get b Currency.krw = some b.krw
bucket_get b Currency.usd = b.usd
bucket_get b (Currency.unknown _) = none

pub record MarketValue (S : Scalars) : Type 0 where
  pub purchase_amount : S.Decimal
  pub amount : S.Decimal
  pub amount_after_cost : S.Decimal

pub record ProfitLoss (S : Scalars) : Type 0 where
  pub amount : S.Decimal
  pub amount_after_cost : S.Decimal
  pub rate : S.Decimal
  pub rate_after_cost : S.Decimal

pub record DailyProfitLoss (S : Scalars) : Type 0 where
  pub amount : S.Decimal
  pub rate : S.Decimal

pub record Cost (S : Scalars) : Type 0 where
  pub commission : S.Decimal
  pub tax : Option S.Decimal

pub record HoldingsItem (S : Scalars) : Type 0 where
  pub symbol : String
  pub name : String
  pub market_country : MarketCountry
  pub currency : Currency
  pub quantity : S.Decimal
  pub last_price : S.Decimal
  pub average_purchase_price : S.Decimal
  pub market_value : MarketValue S
  pub profit_loss : ProfitLoss S
  pub daily_profit_loss : DailyProfitLoss S
  pub cost : Cost S

pub record OverviewMarketValue (S : Scalars) : Type 0 where
  pub amount : CurrencyBucket S
  pub amount_after_cost : CurrencyBucket S

pub record OverviewProfitLoss (S : Scalars) : Type 0 where
  pub amount : CurrencyBucket S
  pub amount_after_cost : CurrencyBucket S
  pub rate : S.Decimal
  pub rate_after_cost : S.Decimal

pub record OverviewDailyProfitLoss (S : Scalars) : Type 0 where
  pub amount : CurrencyBucket S
  pub rate : S.Decimal

pub record HoldingsOverview (S : Scalars) : Type 0 where
  pub total_purchase_amount : CurrencyBucket S
  pub market_value : OverviewMarketValue S
  pub profit_loss : OverviewProfitLoss S
  pub daily_profit_loss : OverviewDailyProfitLoss S
  pub items : List (HoldingsItem S)
