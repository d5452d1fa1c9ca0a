-- ===== src/Client/Endpoints/Safe.antt =====
-- crates/tossinvest/src/api.rs: every endpoint, as one type of calls; how its request is authorized,
-- scoped and retried.
pub mod Sent
use mathlib.Core.Path.{subst}
use package.tossinvest_rust.Common.{
  arith, String, ℕ, ◌≡◌, refl, sym, ap, ◌∙◌, Bool, true, false, not, if◌then◌else◌, Option, none,
  some, List,
}
use package.tossinvest_rust.Common.Result.{Result, ok, err, ok_injective, err≢ok}
use package.tossinvest_rust.Model.Scalar.{Scalars}
use package.tossinvest_rust.Model.Enums.{Currency}
use package.tossinvest_rust.Model.Status.{OrderListFilter}
use package.tossinvest_rust.Model.Orders.{OrderId}
use package.tossinvest_rust.Model.Requests.{OrderCreateRequest}
use package.tossinvest_rust.Rate.Groups.{RateLimitGroup}
use package.tossinvest_rust.Client.Error.{TransportError}
use package.tossinvest_rust.Client.Transport.{
  Http, RawRequest, Method, get_method, post_method, bearer, get, post, query, query_opt, account,
  set_retryable, json_body,
}
use package.tossinvest_rust.Client.Endpoints
use package.tossinvest_rust.Client.Endpoints.{has_client_order_id}
use package.tossinvest_rust.Client.Endpoints.Market
use package.tossinvest_rust.Client.Endpoints.Market.{CandleInterval}

-- The methods of `TossClient` and `AccountClient`; the encoder's result for a body is given.
pub data Endpoint (S : Scalars) : Type 0 where
  prices stocks : List String → Endpoint S
  orderbook price_limits stock_warnings : String → Endpoint S
  trades : String → Option ℕ → Endpoint S
  candles : String → CandleInterval → Option ℕ → Option String → Endpoint S
  exchange_rate : Currency → Currency → Option String → Endpoint S
  kr_market_calendar us_market_calendar : Option String → Endpoint S
  accounts : Endpoint S
  holdings : Option String → Endpoint S
  create_order : OrderCreateRequest S → Result (List ℕ) TransportError → Endpoint S
  modify_order : OrderId → Result (List ℕ) TransportError → Endpoint S
  cancel_order get_order : OrderId → Endpoint S
  orders : OrderListFilter → Option String → Option String → Option String → Endpoint S
  buying_power : Currency → Endpoint S
  sellable_quantity : String → Endpoint S
  commissions : Endpoint S

-- The methods of `AccountClient`.
abbrev pub is_account_call : {S : Scalars} → Endpoint S → Bool
is_account_call (prices _) = false
is_account_call (stocks _) = false
is_account_call (orderbook _) = false
is_account_call (price_limits _) = false
is_account_call (stock_warnings _) = false
is_account_call (trades _ _) = false
is_account_call (candles _ _ _ _) = false
is_account_call (exchange_rate _ _ _) = false
is_account_call (kr_market_calendar _) = false
is_account_call (us_market_calendar _) = false
is_account_call accounts = false
is_account_call _ = true

-- The methods that change something at the server and carry no idempotency key.
abbrev pub is_unkeyed_mutation : {S : Scalars} → Endpoint S → Bool
is_unkeyed_mutation (create_order order _) = not (has_client_order_id order)
is_unkeyed_mutation (modify_order _ _) = true
is_unkeyed_mutation (cancel_order _) = true
is_unkeyed_mutation _ = false

module _ (H : Http) (seq : ℕ) {S : Scalars} where
  -- The request that the method hands to `call`.
  unfoldable pub request : Endpoint S → Result (RawRequest H) TransportError
  unfolding Market.prices Market.stocks Market.orderbook Market.price_limits Market.stock_warnings
      Market.trades Market.candles Market.exchange_rate Market.kr_market_calendar
      Market.us_market_calendar Market.accounts Endpoints.holdings Endpoints.create_order
      Endpoints.modify_order Endpoints.cancel_order Endpoints.get_order Endpoints.orders
      Endpoints.buying_power Endpoints.sellable_quantity Endpoints.commissions
  request (prices symbols) = ok (Market.prices H symbols)
  request (stocks symbols) = ok (Market.stocks H symbols)
  request (orderbook symbol) = ok (Market.orderbook H symbol)
  request (price_limits symbol) = ok (Market.price_limits H symbol)
  request (stock_warnings symbol) = ok (Market.stock_warnings H symbol)
  request (trades symbol count) = ok (Market.trades H symbol count)
  request (candles symbol interval count before) =
      ok (Market.candles H symbol interval count before)
  request (exchange_rate base quote date_time) = ok (Market.exchange_rate H base quote date_time)
  request (kr_market_calendar date) = ok (Market.kr_market_calendar H date)
  request (us_market_calendar date) = ok (Market.us_market_calendar H date)
  request accounts = ok (Market.accounts H)
  request (holdings symbol) = ok (Endpoints.holdings H seq symbol)
  request (create_order order body) = Endpoints.create_order H seq order body
  request (modify_order order_id body) = Endpoints.modify_order H seq order_id body
  request (cancel_order order_id) = ok (Endpoints.cancel_order H seq order_id)
  request (get_order order_id) = ok (Endpoints.get_order H seq order_id)
  request (orders filter symbol from to) = ok (Endpoints.orders H seq filter symbol from to)
  request (buying_power currency) = ok (Endpoints.buying_power H seq currency)
  request (sellable_quantity symbol) = ok (Endpoints.sellable_quantity H seq symbol)
  request commissions = ok (Endpoints.commissions H seq)

-- How a request is authorized, scoped and retried.
abbrev pub Shaped : {H : Http} → Option ℕ → Bool → RawRequest H → Type 0
Shaped scope again req = (req.auth ≡ bearer) × (req.account ≡ scope) × (req.retryable ≡ again)

not-not : (b : Bool) → b ≡ not (not b)
not-not true = refl
not-not false = refl

abbrev pub scope_of : {S : Scalars} → ℕ → Endpoint S → Option ℕ
scope_of seq c = if is_account_call c then some seq else none

module _ (H : Http) (seq : ℕ) {S : Scalars} where
  -- A request that is built has the shape that the endpoint's kind asks for.
  abbrev IsShaped : Endpoint S → Result (RawRequest H) TransportError → Type 0
  IsShaped c (ok req) = Shaped (scope_of seq c) (not (is_unkeyed_mutation c)) req
  IsShaped c (err e) = Unit

  request-IsShaped : (c : Endpoint S) → IsShaped c (request H seq c)
  unfolding request Market.prices Market.stocks Market.orderbook Market.price_limits
      Market.stock_warnings Market.trades Market.candles Market.exchange_rate
      Market.kr_market_calendar Market.us_market_calendar Market.accounts Endpoints.holdings
      Endpoints.create_order Endpoints.modify_order Endpoints.cancel_order Endpoints.get_order
      Endpoints.orders Endpoints.buying_power Endpoints.sellable_quantity Endpoints.commissions get
      post query query_opt account set_retryable json_body
  request-IsShaped (prices symbols) = (refl, refl, refl)
  request-IsShaped (stocks symbols) = (refl, refl, refl)
  request-IsShaped (orderbook symbol) = (refl, refl, refl)
  request-IsShaped (price_limits symbol) = (refl, refl, refl)
  request-IsShaped (stock_warnings symbol) = (refl, refl, refl)
  request-IsShaped (trades symbol count) = ground arith
  request-IsShaped (candles symbol interval count before) = ground arith
  request-IsShaped (exchange_rate base quote date_time) = ground arith
  request-IsShaped (kr_market_calendar date) = ground arith
  request-IsShaped (us_market_calendar date) = ground arith
  request-IsShaped accounts = (refl, refl, refl)
  request-IsShaped (holdings symbol) = ground arith
  request-IsShaped (create_order order (ok bytes)) =
      (refl, refl, not-not (has_client_order_id order))
  request-IsShaped (create_order order (err e)) = tt
  request-IsShaped (modify_order order_id (ok bytes)) = (refl, refl, refl)
  request-IsShaped (modify_order order_id (err e)) = tt
  request-IsShaped (cancel_order order_id) = (refl, refl, refl)
  request-IsShaped (get_order order_id) = (refl, refl, refl)
  request-IsShaped (orders filter symbol from to) = ground arith
  request-IsShaped (buying_power currency) = (refl, refl, refl)
  request-IsShaped (sellable_quantity symbol) = (refl, refl, refl)
  request-IsShaped commissions = (refl, refl, refl)

-- The request of an endpoint that is built asks for a bearer token; it belongs to the account exactly
-- if the endpoint does; and it may be retried unless it is a mutation without an idempotency key.
pub request-shape :
    {S : Scalars} (H : Http) (seq : ℕ) (c : Endpoint S) (req : RawRequest H)
    → request H seq c ≡ ok req
    → (req.auth ≡ bearer)
      × (req.account ≡ (if is_account_call c then some seq else none))
      × (req.retryable ≡ not (is_unkeyed_mutation c))
request-shape H seq c req built = subst (IsShaped H seq c) built (request-IsShaped H seq c)
