-- ===== src/State/Rows.antt =====
-- crates/tossinvest-state/src/core/state.rs: what its operations do to one row, the deltas that an
-- observation emits, and the scan for open ids.
use mathlib.Core.Option
use package.tossinvest_rust.Common.{
  String, ℕ, ◌+◌, ◌%◌, ◌^◌, Bool, true, false, not, ◌&&◌, ◌||◌, Option, none, some, List, [], ◌∷◌,
  if◌then◌else◌,
}
use package.tossinvest_rust.Model.Scalar.{Scalars}
use package.tossinvest_rust.Model.Enums.{Currency, Side}
use package.tossinvest_rust.Model.Status
use package.tossinvest_rust.Model.Status.{OrderStatus}
use package.tossinvest_rust.Model.Orders.{OrderId, Order}
use package.tossinvest_rust.State.Event.{
  OrderKey, local, server, OpKind, Delta, fill_added, order_closed,
}
use package.tossinvest_rust.State.View.{
  OrderView, submitting_pending, closing, submit_rejected, no_links, is_terminal, lifecycle_for,
  absorb,
}

pub record OptimisticOrder : Type 0 where
  pub symbol : String
  pub side : Side
  pub quantity : String
  pub price : Option String
  pub currency : Currency

-- `+= 1` on a `u64`.
unfoldable pub next_u64 : ℕ → ℕ
next_u64 n = (n + 1) % 2 ^ 64

abbrev pub is_empty {ℓ} : {A : Type ℓ} → List A → Bool
is_empty [] = true
is_empty (x ∷ xs) = false

-- The text of a view's filled quantity as a number, 0 if it is none.
unfoldable pub parse_dec : (S : Scalars) → String → S.Decimal
parse_dec S s = Option.get_or (S.parse s) S.zero

-- `filter_map`: the ids of the rows that pass the filter and have one.
unfoldable pub open_ids : List OrderView → List OrderId
open_ids [] = []
open_ids (v ∷ vs) =
    let rest = open_ids vs in
    if not (is_terminal v) && not v.optimistic
    then elim v.server_id [ none ↦ rest | some id ↦ id ∷ rest ]
    else rest

-- The deltas of a change of status.
unfoldable pub close_deltas : OrderKey → OrderStatus → List Delta
close_deltas key status = if Status.is_terminal status then order_closed key status ∷ [] else []

unfoldable pub optimistic_view : ℕ → OptimisticOrder → OrderView
optimistic_view local_id intent = record {
  key = local local_id;
  server_id = none;
  symbol = intent.symbol;
  side = intent.side;
  status = OrderStatus.pending;
  lifecycle = submitting_pending;
  quantity = intent.quantity;
  filled = "0";
  price = intent.price;
  currency = intent.currency;
  links = no_links;
  optimistic = true;
  revision = 0;
}

unfoldable pub confirmed_view : OrderView → OrderId → OrderView
confirmed_view view server_id = record view {
  key = server server_id;
  server_id = some server_id;
  optimistic = false;
  lifecycle = lifecycle_for view.status false;
  revision = next_u64 view.revision;
}

unfoldable pub failed_view : OrderView → String → OrderView
failed_view view message = record view {
  lifecycle = submit_rejected message;
  revision = next_u64 view.revision;
}

unfoldable pub closing_view : OrderView → OpKind → OrderView
closing_view view kind = record view { lifecycle = closing kind; revision = next_u64 view.revision }

module _ {S : Scalars} where
  -- The deltas of an observation of a tracked order that is not terminal, where `fill_fits` holds.
  unfoldable pub fill_deltas : OrderKey → OrderView → Order S → List Delta
  fill_deltas key view order =
      let prev_filled = parse_dec S view.filled in
      let new_filled = order.execution.filled_quantity in
      if S.ltb prev_filled new_filled
      then fill_added key (S.to_string (S.sub new_filled prev_filled)) (S.to_string new_filled) ∷ []
      else []

  -- Whether the difference that `fill_deltas` takes is in range: its operator `-` panics otherwise.
  unfoldable pub fill_fits : OrderView → Order S → Bool
  fill_fits view order =
      let prev_filled = parse_dec S view.filled in
      let new_filled = order.execution.filled_quantity in
      not (S.ltb prev_filled new_filled) || S.sub_fits new_filled prev_filled

  -- The row of a tracked order after an observation.
  unfoldable pub absorbed : OrderView → Order S → OrderView
  absorbed view order =
      let view' = absorb view order in record view' { revision = next_u64 view'.revision }
