-- ===== src/Tests/AuthRuns.antt =====
-- Runs of the token manager: two tasks that need a token at the same time.
use package.tossinvest_rust.Common.{
  String, ℕ, ◌+◌, ◌≡◌, refl, Option, none, some, [], arith, ℕ_discrete, ltb, if◌then◌else◌,
}
use package.tossinvest_rust.Common.Table.{update}
use package.tossinvest_rust.Common.I64.{as_i64, i64_add, i64_lt}
use package.tossinvest_rust.Common.Result.{Result, ok, err}
use package.tossinvest_rust.Client.Error.{Error, TransportError}
use package.tossinvest_rust.Client.Transport.{
  RawRequest, RawResponse, no_auth, post, auth, form_body,
}
use package.tossinvest_rust.Rate.Groups.{RateLimitGroup}
use package.tossinvest_rust.Client.Auth.{
  Credentials, StoredToken, in_memory, TokenCodec, OAuth2TokenResponse, fresh_token, token_request,
  on_token_response, on_token_answer, refresh,
}
use package.tossinvest_rust.Client.Auth.Laws.{Answered, refresh-Answered, refresh-fresh}
use package.tossinvest_rust.Client.Auth.Flight.{
  calling, waiting, holding, sending, returned, Manager, State, departure, leave, check, acquire,
  recheck, receive, checks, acquires, rechecks, receives, Reach, start, step,
}
use package.tossinvest_rust.Client.Auth.Flight.Exclusive.{single_flight}
use package.tossinvest_rust.Client.Auth.Flight.Phase.{Smooth, begin, go}
use package.tossinvest_rust.Client.Auth.Flight.Burst.{burst-one_request}
use package.tossinvest_rust.Client.Auth.Flight.Served.{waiting-served}
use package.tossinvest_rust.Tests.ClientRuns.{http, answer_with}

abbrev hour : OAuth2TokenResponse
hour = record { access_token = "T"; token_type = "Bearer"; expires_in = 3600 }

-- A codec that reads one answer.
abbrev codec : TokenCodec
codec = record {
  encode_form = λ pairs. ok [];
  read_token = λ bytes. ok hour;
  read_error = λ bytes. err "no error";
}

abbrev creds : Credentials
creds = record { client_id = "id"; client_secret = "secret" }

abbrev manager : Manager
manager = record { http = http; store = in_memory; codec = codec; creds = creds; skew = 60 }

abbrev granted : Result (RawResponse http) TransportError
granted = ok (answer_with 200)

abbrev sent_request : RawRequest http
sent_request = record (auth no_auth (post http "/oauth2/token" RateLimitGroup.auth)) {
  body = some (record { content_type = "application/x-www-form-urlencoded"; bytes = [] });
}

request_built : token_request http codec creds ≡ ok sent_request
unfolding post auth form_body token_request
request_built = refl

-- Both check, the first takes the lock, finds nothing fresh, asks, and has its answer.
abbrev at_start : State manager
at_start = departure in_memory none 1000

unfoldable first_checked : State manager
unfolding check fresh_token
first_checked = check manager at_start 0

unfoldable both_checked : State manager
unfolding first_checked check fresh_token
both_checked = check manager first_checked 1

unfoldable locked : State manager
unfolding both_checked acquire
locked = acquire manager both_checked 0

unfoldable asked : State manager
unfolding locked recheck fresh_token token_request
asked = recheck manager locked 0

unfoldable answered : State manager
unfolding asked receive leave
answered = receive manager asked 0 granted

first_calls : at_start.callers 0 ≡ calling
first_calls = refl

second_calls : first_checked.callers 1 ≡ calling
unfolding first_checked check fresh_token update ℕ_discrete
second_calls = refl

first_waits : both_checked.callers 0 ≡ waiting
unfolding both_checked first_checked check fresh_token update ℕ_discrete
first_waits = refl

lock_free : both_checked.lock ≡ none
unfolding both_checked first_checked check fresh_token update ℕ_discrete
lock_free = refl

second_waits : both_checked.callers 1 ≡ waiting
unfolding both_checked first_checked check fresh_token update ℕ_discrete
second_waits = refl

first_holds : locked.callers 0 ≡ holding
unfolding locked both_checked first_checked acquire check fresh_token update ℕ_discrete
first_holds = refl

first_sends : asked.callers 0 ≡ sending
unfolding asked locked both_checked first_checked recheck acquire check fresh_token token_request
    form_body update ℕ_discrete leave
first_sends = refl

first_back : answered.callers 0 ≡ returned (ok "T")
unfolding answered asked locked both_checked first_checked receive recheck acquire check fresh_token
    token_request form_body update ℕ_discrete leave on_token_answer on_token_response
first_back = refl

granted_fresh :
    fresh_token in_memory (some (record { access_token = "T"; expires_at_unix = 4600 })) 60 1000
    ≡ some "T"
unfolding fresh_token i64_add i64_lt as_i64
granted_fresh = refl

two_waiting : Reach manager at_start both_checked
unfolding both_checked first_checked check
two_waiting = step 1 (step 0 start (checks first_calls)) (checks second_calls)

single_flight_example : (◌≡◌ {A = ℕ} 0 0) × (asked.lock ≡ some 0)
unfolding asked locked recheck acquire
single_flight_example =
    single_flight manager none 1000 0 0 asked
      (step 0 (step 0 two_waiting (acquires first_waits lock_free)) (rechecks first_holds))
      first_sends first_sends

waiting-served_example :
    (t : State manager) × Reach manager both_checked t
    × ((r : Result String Error) × (t.callers 1 ≡ returned r) × (t.lock ≡ none))
waiting-served_example =
    waiting-served manager none 1000 1 both_checked (err TransportError.timeout) two_waiting
      second_waits

burst-Smooth : Smooth manager at_start answered
unfolding answered asked locked both_checked first_checked check acquire recheck receive
    on_token_answer on_token_response i64_add
burst-Smooth =
    go 0
      (go 0
        (go 0 (go 1 (go 0 begin (checks first_calls) tt) (checks second_calls) tt)
          (acquires first_waits lock_free) tt)
        (rechecks first_holds) tt)
      (receives granted first_sends)
      (some (record { access_token = "T"; expires_at_unix = 4600 }), "T", refl, granted_fresh)

abbrev brought : Result String Error
brought = ok "T"

burst-one_request_example :
    (answered.requests ≡ 1)
    × ((t : String) × (brought ≡ ok t)
        × (fresh_token in_memory answered.cache 60 answered.now ≡ some t))
unfolding fresh_token
burst-one_request_example =
    burst-one_request manager none 1000 0 sent_request answered brought request_built refl
      burst-Smooth first_back

refresh-Answered_example :
    Answered in_memory none
      (refresh {H = http} in_memory codec creds none 1000 (λ req. err TransportError.timeout))
refresh-Answered_example =
    refresh-Answered {H = http} in_memory codec creds none 1000 (λ req. err TransportError.timeout)

refresh-fresh_example :
    (after : Option StoredToken) × (refresh in_memory codec creds none 1000
        (λ (req : RawRequest http). granted)
      ≡ (after, ok "T"))
    × (fresh_token in_memory after 60 2000
        ≡ (if ltb (2000 + 60) (1000 + 3600) then some "T" else none))
refresh-fresh_example =
    refresh-fresh in_memory codec creds none 1000 2000 60 (λ req. granted) sent_request
      (answer_with 200) hour request_built refl refl refl (omega arith) (omega arith)
