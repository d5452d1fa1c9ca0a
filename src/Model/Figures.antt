-- ===== src/Model/Figures.antt =====
-- crates/tossinvest-model/src/account.rs and order/response.rs: accounts, the figures that support an
-- order, and the answers of the order endpoints.
use package.tossinvest_rust.Common.{
  ℕ, String, Bool, true, false, Option, List, [], ◌∷◌, String-discrete,
}
use package.tossinvest_rust.Model.OpenEnum
use package.tossinvest_rust.Model.Scalar.{Scalars}
use package.tossinvest_rust.Model.Enums.{Currency, MarketCountry}
use package.tossinvest_rust.Model.Orders.{OrderId, Order}

pub data AccountType : Type 0 where
  brokerage overseas_derivatives pension_savings reshoring_investment : AccountType
  unknown : String → AccountType

unfoldable pub account_type_wire : AccountType → String
account_type_wire AccountType.brokerage = "BROKERAGE"
account_type_wire AccountType.overseas_derivatives = "OVERSEAS_DERIVATIVES"
account_type_wire AccountType.pension_savings = "PENSION_SAVINGS"
account_type_wire AccountType.reshoring_investment = "RESHORING_INVESTMENT"
account_type_wire (AccountType.unknown s) = s

abbrev pub account_type_variants : List AccountType
account_type_variants =
    AccountType.brokerage ∷ AccountType.overseas_derivatives ∷ AccountType.pension_savings
    ∷ AccountType.reshoring_investment ∷ []

unfoldable pub account_type_from : String → AccountType
unfolding OpenEnum.from_wire String-discrete account_type_wire
account_type_from = OpenEnum.from_wire account_type_wire AccountType.unknown account_type_variants

unfoldable pub is_known_account_type : AccountType → Bool
is_known_account_type (AccountType.unknown s) = false
is_known_account_type v = true

pub record Account : Type 0 where
  pub account_no : String
  pub account_seq : ℕ
  pub account_type : AccountType

pub record BuyingPowerResponse (S : Scalars) : Type 0 where
  pub currency : Currency
  pub cash_buying_power : S.Decimal

pub record SellableQuantityResponse (S : Scalars) : Type 0 where
  pub sellable_quantity : S.Decimal

pub record Commission (S : Scalars) : Type 0 where
  pub market_country : MarketCountry
  pub commission_rate : S.Decimal
  pub start_date : Option S.KstDate
  pub end_date : Option S.KstDate

pub record OrderResponse : Type 0 where
  pub order_id : OrderId
  pub client_order_id : Option String

pub record OrderOperationResponse : Type 0 where
  pub order_id : OrderId

pub record PaginatedOrderResponse (S : Scalars) : Type 0 where
  pub orders : List (Order S)
  pub next_cursor : Option String
  pub has_next : Bool
