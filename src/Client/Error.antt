-- ===== src/Client/Error.antt =====
-- crates/tossinvest/src/error.rs: errors of the client and their classification.
pub mod Laws
use package.tossinvest_rust.Common.{
  String, ℕ, Bool, true, false, ◌&&◌, ◌||◌, Option, none, some, leb, ◌==◌, if◌then◌else◌,
}
use package.tossinvest_rust.Model.ErrorCode
use package.tossinvest_rust.Model.ErrorCode.{ErrorCode}

pub data TransportError : Type 0 where
  timeout : TransportError
  connect other url : String → TransportError

unfoldable pub is_transient : TransportError → Bool
is_transient timeout = true
is_transient (connect _) = true
is_transient _ = false

pub data ApiErrorKind : Type 0 where
  rate_limited : Option ℕ → ApiErrorKind
  auth_expired already_terminal operation_in_progress order_hours_closed restricted : ApiErrorKind
  insufficient_funds not_found bad_request server_error other : ApiErrorKind

-- The classification where the code decides nothing.
unfoldable pub classify_status : ℕ → Option ℕ → ApiErrorKind
classify_status status retry_after =
    if status == 404
    then not_found
    else if status == 429
    then rate_limited retry_after
    else if leb 500 status && leb status 599
    then server_error
    else if status == 400 || status == 422
    then bad_request
    else ApiErrorKind.other

unfoldable pub classify : ℕ → ErrorCode → Option ℕ → ApiErrorKind
unfolding classify_status
classify status ErrorCode.edge_rate_limit_exceeded wait = rate_limited wait
classify status ErrorCode.rate_limit_exceeded wait = rate_limited wait
classify status ErrorCode.expired_token wait = auth_expired
classify status ErrorCode.invalid_token wait = auth_expired
classify status ErrorCode.already_filled wait = already_terminal
classify status ErrorCode.already_canceled wait = already_terminal
classify status ErrorCode.already_modified wait = already_terminal
classify status ErrorCode.already_rejected wait = already_terminal
classify status ErrorCode.already_processing wait = operation_in_progress
classify status ErrorCode.request_in_progress wait = operation_in_progress
classify status ErrorCode.order_hours_closed wait = order_hours_closed
classify status ErrorCode.modify_restricted wait = restricted
classify status ErrorCode.cancel_restricted wait = restricted
classify status ErrorCode.stock_restricted wait = restricted
classify status ErrorCode.insufficient_buying_power wait = insufficient_funds
classify status ErrorCode.stock_not_found wait = not_found
classify status ErrorCode.order_not_found wait = not_found
classify status ErrorCode.account_not_found wait = not_found
classify status ErrorCode.exchange_rate_not_found wait = not_found
classify status ErrorCode.internal_error wait = server_error
classify status ErrorCode.maintenance wait = server_error
classify status ErrorCode.invalid_request wait = bad_request
classify status ErrorCode.confirm_high_value_required wait = bad_request
classify status ErrorCode.account_header_required wait = bad_request
classify status ErrorCode.price_out_of_range wait = bad_request
classify status ErrorCode.order_type_not_allowed wait = bad_request
classify status ErrorCode.invalid_tick_size wait = bad_request
classify status ErrorCode.max_order_amount_exceeded wait = bad_request
classify status _ wait = classify_status status wait

pub data Error : Type 0 where
  transport : TransportError → Error
  -- The status, the code, its classification, the message and the request id.
  api : ℕ → ErrorCode → ApiErrorKind → String → Option String → Error
  oauth2 : String → Option String → Error
  decode : String → Error
  invalid_arg : String → String → Error

unfoldable pub is_retryable_kind : ApiErrorKind → Bool
is_retryable_kind (rate_limited _) = true
is_retryable_kind operation_in_progress = true
is_retryable_kind server_error = true
is_retryable_kind _ = false

unfoldable pub is_retryable : Error → Bool
unfolding is_transient is_retryable_kind
is_retryable (transport t) = is_transient t
is_retryable (api status code kind message request_id) = is_retryable_kind kind
is_retryable _ = false

unfoldable pub kind : Error → Option ApiErrorKind
kind (api status code k message request_id) = some k
kind _ = none
