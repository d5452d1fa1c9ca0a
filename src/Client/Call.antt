-- ===== src/Client/Call.antt =====
-- crates/tossinvest/src/client.rs: `TossClient::call`, which authorizes a request, scopes it to its
-- account, sends it and decodes the answer. The token manager's answer and the JSON readers of the two
-- envelopes are arguments.
pub mod Laws
pub mod Headers
use mathlib.Core.Option
use package.tossinvest_rust.Common.{String, ℕ, Bool, Option, none, some, List, [], if◌then◌else◌}
use package.tossinvest_rust.Common.Text.{append}
use package.tossinvest_rust.Common.I64.{show_i64, show_u64}
use package.tossinvest_rust.Common.Result.{Result, ◌>>=◌, ok, err}
use package.tossinvest_rust.Model.Scalar.{Scalars}
use package.tossinvest_rust.Model.ErrorCode.{ErrorResponse, ApiResponse}
use package.tossinvest_rust.Client.Error
use package.tossinvest_rust.Client.Error.{Error, classify}
use package.tossinvest_rust.Client.Transport.{Http, RawRequest, RawResponse, no_auth, bearer}
use package.tossinvest_rust.Client.Retry.{
  RetryPolicy, Effect, World, Outcome, parse_retry_after, send_with_retry,
}

-- `serde_json::from_slice` for a payload and for the error envelope; an error is its text.
pub record Readers (S : Scalars) (A : Type 0) : Type 0 where
  pub read_result : List ℕ → Result (ApiResponse A) String
  pub read_error : List ℕ → Result (ErrorResponse S) String

-- `HeaderValue::from_str` for the value of an argument.
unfoldable pub header_arg : Http → String → String → Result String Error
header_arg H field text = elim (H.header_value text) [
  | err e ↦ err (Error.invalid_arg field e)
  | ok v ↦ ok v
]

abbrev pub authorization : String
authorization = "authorization"

abbrev pub account_header : String
account_header = "X-Tossinvest-Account"

module _ {H : Http} where
  abbrev pub add_header : String → String → RawRequest H → RawRequest H
  add_header name value req = record req { headers = H.insert name value req.headers }

  -- `token` is what `TokenManager::token` returns.
  unfoldable pub authorize : Result String Error → RawRequest H → Result (RawRequest H) Error
  unfolding header_arg
  authorize token req = elim req.auth [
    | no_auth ↦ ok req
    | bearer ↦ do
      t ← token
      value ← header_arg H "authorization" (append "Bearer " t)
      ok (add_header authorization value req)
  ]

  unfoldable pub scope : RawRequest H → Result (RawRequest H) Error
  unfolding header_arg show_i64
  scope req = elim req.account [
    | none ↦ ok req
    | some seq ↦ do
      value ← header_arg H "x-tossinvest-account" (show_i64 seq)
      ok (add_header account_header value req)
  ]

  -- The request as it is sent.
  unfoldable pub prepare : Result String Error → RawRequest H → Result (RawRequest H) Error
  unfolding authorize scope
  prepare token req = do req' ← authorize token req; scope req'

  unfoldable pub decode : {S : Scalars} {A : Type 0} → Readers S A → RawResponse H → Result A Error
  unfolding show_u64 classify parse_retry_after
  decode R resp =
      if H.is_success resp.status
      then elim (R.read_result resp.body) [
        | err e ↦
            err (Error.decode (append e (append " (status " (append (show_u64 resp.status) ")"))))
        | ok parsed ↦ ok parsed.result
      ]
      else elim (R.read_error resp.body) [
        | ok env ↦ err (
            Error.api resp.status env.error.code
              (classify resp.status env.error.code (parse_retry_after resp)) env.error.message
              env.error.request_id)
        | err e ↦ err (
            Error.decode
              (append "error envelope (status " (append (show_u64 resp.status) (append "): " e))))
      ]

  unfoldable pub finish : {S : Scalars} {A : Type 0} → Readers S A → Outcome H → Result A Error
  unfolding decode
  finish R (err e) = err (Error.transport e)
  finish R (ok resp) = decode R resp

  -- The result and the effects; `none` is fuel that ran out.
  unfoldable pub call :
      {S : Scalars} {A : Type 0}
      → World H
      → RetryPolicy
      → Result String Error
      → Readers S A
      → RawRequest H
      → Option (Result A Error × List Effect)
  unfolding prepare finish send_with_retry
  call w policy token R req = elim (prepare token req) [
    | err e ↦ some (err e, [])
    | ok req' ↦ Option.map (λ p. (finish R p.0, p.1)) (send_with_retry w policy req')
  ]
