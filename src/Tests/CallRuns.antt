-- ===== src/Tests/CallRuns.antt =====
-- Runs of `call`.
use package.tossinvest_rust.Common.{String, ℕ, ◌≡◌, refl, some, string_key}
use package.tossinvest_rust.Common.HashMap
use package.tossinvest_rust.Common.Text.{append}
use package.tossinvest_rust.Common.I64.{show_i64}
use package.tossinvest_rust.Common.Result.{Result, ok, err}
use package.tossinvest_rust.Client.Error.{Error}
use package.tossinvest_rust.Client.Transport.{RawRequest, post, account}
use package.tossinvest_rust.Client.Retry.{default_policy}
use package.tossinvest_rust.Client.Call.{
  Readers, authorization, account_header, add_header, authorize, scope, header_arg, prepare,
}
use package.tossinvest_rust.Client.Call.Headers.{KeepsAuthorization}
use package.tossinvest_rust.Client.Endpoints
use package.tossinvest_rust.Client.Endpoints.Once.{IsSentOnce}
use package.tossinvest_rust.Client.Endpoints.Safe.{Endpoint, request}
use package.tossinvest_rust.Client.Endpoints.Safe.Sent.{account_call-headers, unkeyed-IsSentOnce}
use package.tossinvest_rust.Tests.ClientRuns.{http, flaky}
use package.tossinvest_rust.Tests.Worlds.{whole}

-- A reader of payloads that are numbers of bytes.
abbrev reader : Readers whole ℕ
reader = record {
  read_result = λ bytes. ok (record { result = 0 });
  read_error = λ bytes. err "no envelope";
}

abbrev token : Result String Error
token = ok "T"

abbrev cancel_o1 : Endpoint whole
cancel_o1 = Endpoint.cancel_order "o-1"

abbrev cancel_request : RawRequest http
cancel_request = Endpoints.cancel_order http 7 "o-1"

abbrev cancel_sent : RawRequest http
cancel_sent = add_header account_header "7" (add_header authorization "Bearer T" cancel_request)

cancel_built : request http 7 cancel_o1 ≡ ok cancel_request
unfolding request
cancel_built = refl

cancel_ready : prepare token cancel_request ≡ ok cancel_sent
unfolding prepare authorize scope header_arg show_i64 Endpoints.cancel_order post account append
cancel_ready = refl

other_name : KeepsAuthorization http
other_name value h = HashMap.get-insert_ne account_header authorization value h (λ e. different e)
  where
    different : ¬ (account_header ≡ authorization)
    different e = cc

account_call-headers_example :
    (t : String) × (v : String) × (n : String) × (token ≡ ok t)
    × (http.header_value (append "Bearer " t) ≡ ok v)
    × (http.header_value (show_i64 7) ≡ ok n)
    × (HashMap.get authorization cancel_sent.headers ≡ some v)
    × (HashMap.get account_header cancel_sent.headers ≡ some n)
account_call-headers_example =
    account_call-headers 7 cancel_o1 token cancel_request cancel_sent other_name refl cancel_built
      cancel_ready

unkeyed-IsSentOnce_example : IsSentOnce flaky default_policy cancel_sent
unkeyed-IsSentOnce_example =
    unkeyed-IsSentOnce flaky default_policy 7 cancel_o1 token cancel_request cancel_sent refl
      cancel_built cancel_ready
