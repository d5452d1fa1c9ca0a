-- ===== src/Model/Orders.antt =====
-- crates/tossinvest-model/src/order/response.rs, and the parts of account.rs and market_data.rs
-- that the state layer stores.
use package.tossinvest_rust.Common.{String, Bool, not, ◌&&◌, Option}
use package.tossinvest_rust.Model.Scalar.{Scalars}
use package.tossinvest_rust.Model.Enums.{Currency, OrderType, TimeInForce, Side}
use package.tossinvest_rust.Model.Status.{OrderStatus}

abbrev pub OrderId : Type 0
OrderId = String

pub record OrderExecution (S : Scalars) : Type 0 where
  pub filled_quantity : S.Decimal
  pub average_filled_price : Option S.Decimal
  pub filled_amount : Option S.Decimal
  pub commission : Option S.Decimal
  pub tax : Option S.Decimal
  pub filled_at : Option S.KstDateTime
  pub settlement_date : Option S.KstDate

pub record Order (S : Scalars) : Type 0 where
  pub order_id : OrderId
  pub symbol : String
  pub side : Side
  pub order_type : OrderType
  pub time_in_force : TimeInForce
  pub status : OrderStatus
  pub price : Option S.Decimal
  pub quantity : S.Decimal
  pub order_amount : Option S.Decimal
  pub currency : Currency
  pub ordered_at : S.KstDateTime
  pub canceled_at : Option S.KstDateTime
  pub execution : OrderExecution S

unfoldable pub has_fills : {S : Scalars} → Order S → Bool
has_fills {S} o = S.ltb S.zero o.execution.filled_quantity

-- `==` of decimals, which compares their values.
unfoldable pub is_fully_filled : {S : Scalars} → Order S → Bool
is_fully_filled {S} o =
    not (S.ltb o.execution.filled_quantity o.quantity)
    && not (S.ltb o.quantity o.execution.filled_quantity)

pub record PriceResponse (S : Scalars) : Type 0 where
  pub symbol : String
  pub timestamp : Option S.KstDateTime
  pub last_price : S.Decimal
  pub currency : Currency
