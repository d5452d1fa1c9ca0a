-- ===== src/State/View.antt =====
-- crates/tossinvest-state/src/core/view.rs: the order as a user interface reads it.
use package.tossinvest_rust.Common.{String, ℕ, Bool, true, false, Option, none, some, if◌then◌else◌}
use mathlib.Core.Option
use package.tossinvest_rust.Model.Scalar.{Scalars}
use package.tossinvest_rust.Model.Enums.{Currency, Side}
use package.tossinvest_rust.Model.Status.{OrderStatus}
use package.tossinvest_rust.Model.Orders.{OrderId, Order}
use package.tossinvest_rust.State.Event.{OrderKey, OpKind, cancel, modify}

pub data ClosedReason : Type 0 where
  filled canceled rejected replaced operation_rejected other : ClosedReason

pub data Lifecycle : Type 0 where
  submitting_pending working : Lifecycle
  closing : OpKind → Lifecycle
  closed : ClosedReason → Lifecycle
  unknown_status : Lifecycle
  submit_rejected : String → Lifecycle

pub record OrderLinks : Type 0 where
  pub replaced_by : Option OrderId
  pub replaces : Option OrderId

abbrev pub no_links : OrderLinks
no_links = record { replaced_by = none; replaces = none }

pub record OrderView : Type 0 where
  pub key : OrderKey
  pub server_id : Option OrderId
  pub symbol : String
  pub side : Side
  pub status : OrderStatus
  pub lifecycle : Lifecycle
  pub quantity : String
  pub filled : String
  pub price : Option String
  pub currency : Currency
  pub links : OrderLinks
  pub optimistic : Bool
  pub revision : ℕ  -- u64

unfoldable pub lifecycle_of_status : OrderStatus → Lifecycle
lifecycle_of_status OrderStatus.pending = working
lifecycle_of_status OrderStatus.partial_filled = working
lifecycle_of_status OrderStatus.pending_cancel = closing cancel
lifecycle_of_status OrderStatus.pending_replace = closing modify
lifecycle_of_status OrderStatus.filled = closed filled
lifecycle_of_status OrderStatus.canceled = closed canceled
lifecycle_of_status OrderStatus.rejected = closed rejected
lifecycle_of_status OrderStatus.replaced = closed replaced
lifecycle_of_status OrderStatus.cancel_rejected = closed operation_rejected
lifecycle_of_status OrderStatus.replace_rejected = closed operation_rejected
lifecycle_of_status (OrderStatus.unknown _) = unknown_status

unfoldable pub lifecycle_for : OrderStatus → Bool → Lifecycle
lifecycle_for status optimistic =
    if optimistic then submitting_pending else lifecycle_of_status status

unfoldable pub reason_of : Lifecycle → ClosedReason
reason_of (closed reason) = reason
reason_of _ = other

unfoldable pub closed_reason : OrderStatus → ClosedReason
unfolding reason_of lifecycle_for
closed_reason status = reason_of (lifecycle_for status false)

unfoldable pub is_closed : Lifecycle → Bool
is_closed (closed _) = true
is_closed _ = false

abbrev pub is_terminal : OrderView → Bool
is_terminal v = is_closed v.lifecycle

unfoldable pub is_closing : Lifecycle → Bool
is_closing (closing _) = true
is_closing _ = false

unfoldable pub is_active : Lifecycle → Bool
is_active working = true
is_active (closing _) = true
is_active _ = false

abbrev pub is_working : OrderView → Bool
is_working v = is_active v.lifecycle

module _ {S : Scalars} where
  unfoldable pub from_order : OrderKey → Order S → OrderView
  unfolding lifecycle_for
  from_order key order = record {
    key = key;
    server_id = some order.order_id;
    symbol = order.symbol;
    side = order.side;
    status = order.status;
    lifecycle = lifecycle_for order.status false;
    quantity = S.to_string order.quantity;
    filled = S.to_string order.execution.filled_quantity;
    price = Option.map S.to_string order.price;
    currency = order.currency;
    links = no_links;
    optimistic = false;
    revision = 0;
  }

  unfoldable pub absorb : OrderView → Order S → OrderView
  unfolding lifecycle_for
  absorb v order = record v {
    server_id = some order.order_id;
    symbol = order.symbol;
    status = order.status;
    quantity = S.to_string order.quantity;
    filled = S.to_string order.execution.filled_quantity;
    price = Option.map S.to_string order.price;
    optimistic = false;
    lifecycle = lifecycle_for order.status false;
  }
