-- ===== src/Tests/ClientRuns.antt =====
-- Runs of the client: a server that fails twice, an order without a key, and the wire types.
use package.tossinvest_rust.Common.{
  String, ℕ, ◌≤◌, ◌≡◌, refl, ◌&&◌, none, [], arith, string_key, leb, ltb, if◌then◌else◌,
}
use package.tossinvest_rust.Common.HashMap
use package.tossinvest_rust.Common.HashMap.{HashMap}
use package.tossinvest_rust.Common.Result.{ok, err}
use package.tossinvest_rust.Model.Enums.{Side}
use package.tossinvest_rust.Model.ErrorCode
use package.tossinvest_rust.Model.Requests.{OrderCreateRequest, market}
use package.tossinvest_rust.Rate.Groups.{RateLimitGroup}
use package.tossinvest_rust.Client.Error.{api, TransportError, classify, is_retryable}
use package.tossinvest_rust.Client.Error.Laws.{is_retryable-unknown}
use package.tossinvest_rust.Client.Transport.{Http, RawRequest, RawResponse, get}
use package.tossinvest_rust.Client.Retry.{World, default_policy, backoff, is_retryable_status}
use package.tossinvest_rust.Client.Retry.Backoff.{backoff_mono}
use package.tossinvest_rust.Tests.Worlds.{whole}

abbrev pub http : Http
http = record {
  HeaderMap = HashMap String String;
  no_headers = [];
  insert = HashMap.insert;
  lookup = HashMap.get;
  header_value = λ v. ok v;
  is_success = λ status. leb 200 status && leb status 299;
  is_success_lem = λ status. refl;
  lookup-insert_self = HashMap.get-insert_self;
}

abbrev pub answer_with : ℕ → RawResponse http
answer_with status = record { status = status; headers = []; body = [] }

-- A 503, a timeout, and then a success.
abbrev pub flaky : World http
flaky = record {
  answer = λ n.
      if ltb n 2
      then ok (answer_with 503)
      else if ltb n 3
      then err TransportError.timeout
      else ok (answer_with 200);
  parked_until = λ n. none;
  now = λ n. n;
}

abbrev list_orders : RawRequest http
list_orders = get http "/api/v1/orders" RateLimitGroup.order_history

abbrev pub keyless : OrderCreateRequest whole
keyless = market "005930" Side.buy (record { amount = 10 })

backoff_mono_example :
    (backoff default_policy 1 none ≤ backoff default_policy 20 none)
    × (backoff default_policy 20 none ≤ default_policy.max_delay)
backoff_mono_example = backoff_mono default_policy 1 20 (omega arith)

is_retryable-unknown_example :
    is_retryable (
      api 503
        (ErrorCode.unknown "new-code")
        (classify 503 (ErrorCode.unknown "new-code") none)
        ""
        none)
    ≡ is_retryable_status 503
is_retryable-unknown_example = is_retryable-unknown 503 "new-code" "" none none

abbrev key : String
key = "key_1"
