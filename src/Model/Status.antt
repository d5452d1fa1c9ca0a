-- ===== src/Model/Status.antt =====
-- crates/tossinvest-model/src/order/status.rs: the status of an order and the groups it falls into.
pub mod Wire
use package.tossinvest_rust.Common.{
  String, Bool, true, false, Option, none, some, List, [], ◌∷◌, if◌then◌else◌, String-discrete,
}
use package.tossinvest_rust.Model.OpenEnum

pub data OrderStatus : Type 0 where
  pending pending_cancel pending_replace partial_filled : OrderStatus
  filled canceled rejected cancel_rejected replace_rejected replaced : OrderStatus
  unknown : String → OrderStatus

unfoldable pub status_wire : OrderStatus → String
status_wire pending = "PENDING"
status_wire pending_cancel = "PENDING_CANCEL"
status_wire pending_replace = "PENDING_REPLACE"
status_wire partial_filled = "PARTIAL_FILLED"
status_wire filled = "FILLED"
status_wire canceled = "CANCELED"
status_wire rejected = "REJECTED"
status_wire cancel_rejected = "CANCEL_REJECTED"
status_wire replace_rejected = "REPLACE_REJECTED"
status_wire replaced = "REPLACED"
status_wire (unknown s) = s

abbrev pub status_variants : List OrderStatus
status_variants =
    pending ∷ pending_cancel ∷ pending_replace ∷ partial_filled ∷ filled ∷ canceled ∷ rejected
    ∷ cancel_rejected ∷ replace_rejected ∷ replaced ∷ []

unfoldable pub status_from : String → OrderStatus
unfolding OpenEnum.from_wire String-discrete status_wire
status_from = OpenEnum.from_wire status_wire unknown status_variants

unfoldable pub is_known : OrderStatus → Bool
is_known (unknown s) = false
is_known s = true

unfoldable pub is_open : OrderStatus → Bool
is_open pending = true
is_open partial_filled = true
is_open pending_cancel = true
is_open pending_replace = true
is_open _ = false

unfoldable pub is_terminal : OrderStatus → Bool
is_terminal filled = true
is_terminal canceled = true
is_terminal rejected = true
is_terminal replaced = true
is_terminal cancel_rejected = true
is_terminal replace_rejected = true
is_terminal _ = false

pub data LifecycleGroup : Type 0 where
  open_group closed_group : LifecycleGroup

unfoldable pub group : OrderStatus → Option LifecycleGroup
unfolding is_open is_known
group s = if is_open s then some open_group else if is_known s then some closed_group else none

pub data OrderListFilter : Type 0 where
  open_orders closed_orders : OrderListFilter

unfoldable pub filter_wire : OrderListFilter → String
filter_wire open_orders = "OPEN"
filter_wire closed_orders = "CLOSED"

unfoldable pub OrderStatus-discrete : Discrete OrderStatus
OrderStatus-discrete = hlevel String-discrete
