-- ===== src/Model/ErrorCode.antt =====
-- crates/tossinvest-model/src/error.rs and envelope.rs: the error codes of the API, and the envelopes of
-- its answers.
use package.tossinvest_rust.Common.{
  ℕ, String, Bool, true, false, Option, List, [], ◌∷◌, String-discrete,
}
use package.tossinvest_rust.Model.OpenEnum
use package.tossinvest_rust.Model.Scalar.{Scalars}

pub data ErrorCode : Type 0 where
  invalid_request confirm_high_value_required closed_not_supported : ErrorCode
  account_header_required invalid_token edge_blocked expired_token : ErrorCode
  login_user_not_found forbidden stock_not_found exchange_rate_not_found : ErrorCode
  account_not_found order_not_found request_in_progress already_filled : ErrorCode
  already_canceled already_modified already_rejected already_processing : ErrorCode
  insufficient_buying_power order_hours_closed stock_restricted : ErrorCode
  price_out_of_range opposite_pending_order_exists order_type_not_allowed : ErrorCode
  prerequisite_required market_not_supported_for_stock : ErrorCode
  investor_exchange_not_integrated amount_order_outside_regular_hours : ErrorCode
  modify_restricted cancel_restricted edge_rate_limit_exceeded : ErrorCode
  rate_limit_exceeded internal_error maintenance : ErrorCode
  us_modify_quantity_not_supported max_order_amount_exceeded invalid_tick_size : ErrorCode
  unknown : String → ErrorCode

unfoldable pub error_code_wire : ErrorCode → String
error_code_wire invalid_request = "invalid-request"
error_code_wire confirm_high_value_required = "confirm-high-value-required"
error_code_wire closed_not_supported = "closed-not-supported"
error_code_wire account_header_required = "account-header-required"
error_code_wire invalid_token = "invalid-token"
error_code_wire edge_blocked = "edge-blocked"
error_code_wire expired_token = "expired-token"
error_code_wire login_user_not_found = "login-user-not-found"
error_code_wire forbidden = "forbidden"
error_code_wire stock_not_found = "stock-not-found"
error_code_wire exchange_rate_not_found = "exchange-rate-not-found"
error_code_wire account_not_found = "account-not-found"
error_code_wire order_not_found = "order-not-found"
error_code_wire request_in_progress = "request-in-progress"
error_code_wire already_filled = "already-filled"
error_code_wire already_canceled = "already-canceled"
error_code_wire already_modified = "already-modified"
error_code_wire already_rejected = "already-rejected"
error_code_wire already_processing = "already-processing"
error_code_wire insufficient_buying_power = "insufficient-buying-power"
error_code_wire order_hours_closed = "order-hours-closed"
error_code_wire stock_restricted = "stock-restricted"
error_code_wire price_out_of_range = "price-out-of-range"
error_code_wire opposite_pending_order_exists = "opposite-pending-order-exists"
error_code_wire order_type_not_allowed = "order-type-not-allowed"
error_code_wire prerequisite_required = "prerequisite-required"
error_code_wire market_not_supported_for_stock = "market-not-supported-for-stock"
error_code_wire investor_exchange_not_integrated = "investor-exchange-not-integrated"
error_code_wire amount_order_outside_regular_hours = "amount-order-outside-regular-hours"
error_code_wire modify_restricted = "modify-restricted"
error_code_wire cancel_restricted = "cancel-restricted"
error_code_wire edge_rate_limit_exceeded = "edge-rate-limit-exceeded"
error_code_wire rate_limit_exceeded = "rate-limit-exceeded"
error_code_wire internal_error = "internal-error"
error_code_wire maintenance = "maintenance"
error_code_wire us_modify_quantity_not_supported = "us-modify-quantity-not-supported"
error_code_wire max_order_amount_exceeded = "max-order-amount-exceeded"
error_code_wire invalid_tick_size = "invalid-tick-size"
error_code_wire (unknown s) = s

abbrev pub error_code_variants : List ErrorCode
error_code_variants =
    invalid_request ∷ confirm_high_value_required ∷ closed_not_supported ∷ account_header_required
    ∷ invalid_token ∷ edge_blocked ∷ expired_token ∷ login_user_not_found ∷ forbidden
    ∷ stock_not_found ∷ exchange_rate_not_found ∷ account_not_found ∷ order_not_found
    ∷ request_in_progress ∷ already_filled ∷ already_canceled ∷ already_modified ∷ already_rejected
    ∷ already_processing ∷ insufficient_buying_power ∷ order_hours_closed ∷ stock_restricted
    ∷ price_out_of_range ∷ opposite_pending_order_exists ∷ order_type_not_allowed
    ∷ prerequisite_required ∷ market_not_supported_for_stock ∷ investor_exchange_not_integrated
    ∷ amount_order_outside_regular_hours ∷ modify_restricted ∷ cancel_restricted
    ∷ edge_rate_limit_exceeded ∷ rate_limit_exceeded ∷ internal_error ∷ maintenance
    ∷ us_modify_quantity_not_supported ∷ max_order_amount_exceeded ∷ invalid_tick_size ∷ []

unfoldable pub error_code_from : String → ErrorCode
unfolding OpenEnum.from_wire String-discrete error_code_wire
error_code_from = OpenEnum.from_wire error_code_wire unknown error_code_variants

unfoldable pub is_known_code : ErrorCode → Bool
is_known_code (unknown s) = false
is_known_code code = true

pub record ErrorData (S : Scalars) : Type 0 where
  pub field : Option String
  pub allowed_values : Option (List String)
  pub tick_size : Option S.Decimal
  pub nearest_prices : Option (List S.Decimal)
  pub retry_after_seconds : Option ℕ
  pub retry_after_at : Option String

pub record ApiError (S : Scalars) : Type 0 where
  pub request_id : Option String
  pub code : ErrorCode
  pub message : String
  -- `data`.
  pub data_hints : Option (ErrorData S)

pub record ErrorResponse (S : Scalars) : Type 0 where
  pub error : ApiError S

pub record ApiResponse (A : Type 0) : Type 0 where
  pub result : A
