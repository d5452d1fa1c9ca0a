-- ===== src/Tests/StaleRuns.antt =====
-- A run in which an observation is not published.
use package.tossinvest_rust.Common.{
  false, ◌≡◌, refl, some, [], ℕ_discrete, String-discrete, string_key,
}
use package.tossinvest_rust.Common.HashMap.{get, insert, remove}
use package.tossinvest_rust.Model.Status.{OrderStatus, OrderStatus-discrete}
use package.tossinvest_rust.Model.Orders.{Order}
use package.tossinvest_rust.State.Event.{server, order_key_key, OrderKey-discrete, cancel}
use package.tossinvest_rust.State.View.{
  OrderView, is_terminal, is_closed, lifecycle_for, lifecycle_of_status, absorb, from_order,
}
use package.tossinvest_rust.State.Rows.{closing_view, absorbed, parse_dec}
use package.tossinvest_rust.State.Projection.{ProjectedState, new, observe_new, op_submitted, bump}
use package.tossinvest_rust.State.Ops.{Op}
use package.tossinvest_rust.State.Store.{Store, apply}
use package.tossinvest_rust.State.Store.Stale.{apply-unpublished}
use package.tossinvest_rust.Tests.Worlds.{whole}
use package.tossinvest_rust.Tests.StateRuns.{order_at}

-- A cancel is in flight for an order that is filled in part, and the next sweep lists it unchanged.
abbrev part_filled : Order whole
part_filled = order_at OrderStatus.partial_filled 4

abbrev in_flight : ProjectedState whole
in_flight = (op_submitted (observe_new (new whole) part_filled).0 "o-1" cancel).0

abbrev in_flight_row : OrderView
in_flight_row = closing_view (from_order (server "o-1") part_filled) cancel

abbrev published : Store whole
published = record { state = in_flight; write = in_flight; sent = [] }

in_flight_indexed : get "o-1" in_flight.server_index ≡ some (server "o-1")
unfolding new get insert remove observe_new op_submitted bump OrderKey-discrete ℕ_discrete
    String-discrete is_closed lifecycle_for lifecycle_of_status OrderStatus-discrete parse_dec
    absorb from_order
in_flight_indexed = refl

in_flight_found : get (server "o-1") in_flight.orders ≡ some in_flight_row
unfolding new get insert remove observe_new op_submitted bump OrderKey-discrete ℕ_discrete
    String-discrete is_closed lifecycle_for lifecycle_of_status OrderStatus-discrete parse_dec
    absorb from_order
in_flight_found = refl

in_flight_open : is_terminal in_flight_row ≡ false
unfolding new get insert remove observe_new op_submitted bump OrderKey-discrete ℕ_discrete
    String-discrete is_closed lifecycle_for lifecycle_of_status OrderStatus-discrete parse_dec
    absorb from_order closing_view
in_flight_open = refl

in_flight_status : part_filled.status ≡ in_flight_row.status
unfolding new get insert remove observe_new op_submitted bump OrderKey-discrete ℕ_discrete
    String-discrete is_closed lifecycle_for lifecycle_of_status OrderStatus-discrete parse_dec
    absorb from_order closing_view
in_flight_status = refl

in_flight_filled : whole.ltb (parse_dec whole in_flight_row.filled) 4 ≡ false
unfolding new get insert remove observe_new op_submitted bump OrderKey-discrete ℕ_discrete
    String-discrete is_closed lifecycle_for lifecycle_of_status OrderStatus-discrete parse_dec
    absorb from_order closing_view
in_flight_filled = refl

apply-unpublished_example :
    (st : Store whole) × (apply published (Op.observe_order part_filled) ≡ some (st, []))
    × (get (server "o-1") st.write.orders ≡ some (absorbed in_flight_row part_filled))
    × ((absorbed in_flight_row part_filled).lifecycle ≡ lifecycle_for part_filled.status false)
    × (st.state ≡ in_flight)
    × (st.sent ≡ [])
    × (st.write.generation ≡ in_flight.generation)
apply-unpublished_example =
    apply-unpublished published part_filled (server "o-1") in_flight_row in_flight_indexed
      in_flight_found in_flight_open in_flight_status in_flight_filled
