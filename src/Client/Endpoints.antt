-- ===== src/Client/Endpoints.antt =====
-- crates/tossinvest/src/api.rs: the requests of the account's endpoints. The encoder's result for the
-- body is given.
pub mod Once
pub mod Market
pub mod Safe
use package.tossinvest_rust.Common.{String, ℕ, Bool, true, false, Option, none, some, List}
use package.tossinvest_rust.Common.Text.{append}
use package.tossinvest_rust.Common.Result.{Result, ◌>>=◌, ok, err}
use package.tossinvest_rust.Model.Scalar.{Scalars}
use package.tossinvest_rust.Model.Enums.{Currency, currency_wire}
use package.tossinvest_rust.Model.Status.{OrderListFilter, filter_wire}
use package.tossinvest_rust.Model.Orders.{OrderId}
use package.tossinvest_rust.Model.Requests.{OrderCreateRequest, quantity_based, amount_based}
use package.tossinvest_rust.Rate.Groups.{RateLimitGroup}
use package.tossinvest_rust.Client.Error.{TransportError}
use package.tossinvest_rust.Client.Transport.{
  Http, RawRequest, get, post, query, query_opt, set_retryable, json_body, account,
}

abbrev is_some : Option String → Bool
is_some none = false
is_some (some s) = true

unfoldable pub has_client_order_id : {S : Scalars} → OrderCreateRequest S → Bool
has_client_order_id (quantity_based o) = is_some o.client_order_id
has_client_order_id (amount_based o) = is_some o.client_order_id

module _ (H : Http) (seq : ℕ) where
  abbrev Built : Type 0
  Built = Result (RawRequest H) TransportError

  -- `AccountClient::call` scopes each request to its account.
  unfoldable pub holdings : Option String → RawRequest H
  unfolding get query_opt account
  holdings symbol =
      account seq (query_opt "symbol" symbol (get H "/api/v1/holdings" RateLimitGroup.asset))

  unfoldable pub create_order :
      {S : Scalars} → OrderCreateRequest S → Result (List ℕ) TransportError → Built
  unfolding post json_body set_retryable account has_client_order_id
  create_order order body = do
    req ← json_body body (post H "/api/v1/orders" RateLimitGroup.order)
    ok (account seq (set_retryable (has_client_order_id order) req))

  unfoldable pub modify_order : OrderId → Result (List ℕ) TransportError → Built
  unfolding post json_body account
  modify_order order_id body = do
    req ←
        json_body body
          (post H (append "/api/v1/orders/" (append order_id "/modify")) RateLimitGroup.order)
    ok (account seq req)

  unfoldable pub cancel_order : OrderId → RawRequest H
  unfolding post account
  cancel_order order_id =
      account seq
        (post H (append "/api/v1/orders/" (append order_id "/cancel")) RateLimitGroup.order)

  unfoldable pub orders :
      OrderListFilter → Option String → Option String → Option String → RawRequest H
  unfolding get query query_opt account filter_wire
  orders filter symbol from to = account seq (
      query_opt "to" to (
        query_opt "from" from (
          query_opt "symbol" symbol (
            query "status" (filter_wire filter)
              (get H "/api/v1/orders" RateLimitGroup.order_history)))))

  unfoldable pub get_order : OrderId → RawRequest H
  unfolding get account
  get_order order_id =
      account seq (get H (append "/api/v1/orders/" order_id) RateLimitGroup.order_history)

  unfoldable pub buying_power : Currency → RawRequest H
  unfolding get query account currency_wire
  buying_power currency = account seq (
      query "currency" (currency_wire currency)
        (get H "/api/v1/buying-power" RateLimitGroup.order_info))

  unfoldable pub sellable_quantity : String → RawRequest H
  unfolding get query account
  sellable_quantity symbol =
      account seq
        (query "symbol" symbol (get H "/api/v1/sellable-quantity" RateLimitGroup.order_info))

  unfoldable pub commissions : RawRequest H
  unfolding get account
  commissions = account seq (get H "/api/v1/commissions" RateLimitGroup.order_info)
