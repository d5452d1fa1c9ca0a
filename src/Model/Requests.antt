-- ===== src/Model/Requests.antt =====
-- crates/tossinvest-model/src/order/request.rs: the bodies of create and modify requests.
use package.tossinvest_rust.Common.{String, Bool, true, false, Option, none, some}
use package.tossinvest_rust.Model.Scalar.{Scalars, IntQty}
use package.tossinvest_rust.Model.Enums.{OrderType, Side}

pub data CreateTimeInForce : Type 0 where
  day cls : CreateTimeInForce

pub record OrderCreateQuantityBased (S : Scalars) : Type 0 where
  pub client_order_id : Option String
  pub symbol : String
  pub side : Side
  pub order_type : OrderType
  pub time_in_force : Option CreateTimeInForce
  pub quantity : IntQty S
  pub price : Option S.Decimal
  pub confirm_high_value_order : Bool

pub record OrderCreateAmountBased (S : Scalars) : Type 0 where
  pub client_order_id : Option String
  pub symbol : String
  pub side : Side
  pub order_type : OrderType
  pub order_amount : S.Decimal
  pub confirm_high_value_order : Bool

pub data OrderCreateRequest (S : Scalars) : Type 0 where
  quantity_based : OrderCreateQuantityBased S → OrderCreateRequest S
  amount_based : OrderCreateAmountBased S → OrderCreateRequest S

module _ {S : Scalars} where
  unfoldable pub limit : String → Side → IntQty S → S.Decimal → OrderCreateRequest S
  limit symbol side quantity price = quantity_based (record {
    client_order_id = none;
    symbol = symbol;
    side = side;
    order_type = OrderType.limit;
    time_in_force = none;
    quantity = quantity;
    price = some price;
    confirm_high_value_order = false;
  })

  unfoldable pub market : String → Side → IntQty S → OrderCreateRequest S
  market symbol side quantity = quantity_based (record {
    client_order_id = none;
    symbol = symbol;
    side = side;
    order_type = OrderType.market;
    time_in_force = none;
    quantity = quantity;
    price = none;
    confirm_high_value_order = false;
  })

  unfoldable pub with_idempotency : String → OrderCreateRequest S → OrderCreateRequest S
  with_idempotency id (quantity_based o) = quantity_based (record o { client_order_id = some id })
  with_idempotency id (amount_based o) = amount_based (record o { client_order_id = some id })

  unfoldable pub with_time_in_force :
      CreateTimeInForce → OrderCreateRequest S → OrderCreateRequest S
  with_time_in_force tif (quantity_based o) = quantity_based (record o { time_in_force = some tif })
  with_time_in_force tif (amount_based o) = amount_based o

  unfoldable pub confirm_high_value : OrderCreateRequest S → OrderCreateRequest S
  confirm_high_value (quantity_based o) =
      quantity_based (record o { confirm_high_value_order = true })
  confirm_high_value (amount_based o) = amount_based (record o { confirm_high_value_order = true })

module _ (S : Scalars) where
  unfoldable pub market_amount : String → Side → S.Decimal → OrderCreateRequest S
  market_amount symbol side amount = amount_based (record {
    client_order_id = none;
    symbol = symbol;
    side = side;
    order_type = OrderType.market;
    order_amount = amount;
    confirm_high_value_order = false;
  })

pub record OrderModifyRequest (S : Scalars) : Type 0 where
  pub order_type : OrderType
  pub quantity : Option (IntQty S)
  pub price : Option S.Decimal
  pub confirm_high_value_order : Bool

unfoldable pub kr_limit : {S : Scalars} → IntQty S → S.Decimal → OrderModifyRequest S
kr_limit quantity price = record {
  order_type = OrderType.limit;
  quantity = some quantity;
  price = some price;
  confirm_high_value_order = false;
}

unfoldable pub us_limit : {S : Scalars} → S.Decimal → OrderModifyRequest S
us_limit price = record {
  order_type = OrderType.limit;
  quantity = none;
  price = some price;
  confirm_high_value_order = false;
}

unfoldable pub confirm_high_value_change :
    {S : Scalars} → OrderModifyRequest S → OrderModifyRequest S
confirm_high_value_change r = record r { confirm_high_value_order = true }
