-- ===== src/Client/Error/Laws.antt =====
-- crates/tossinvest/src/error.rs and client.rs: the two notions of an error that is worth a retry.
use package.tossinvest_rust.Common.{String, ℕ, ◌≡◌, Option, arith}
use package.tossinvest_rust.Model.ErrorCode
use package.tossinvest_rust.Client.Error.{
  api, classify, classify_status, is_retryable, is_retryable_kind,
}
use package.tossinvest_rust.Client.Retry.{is_retryable_status, is_server_status}

-- An API error with a code that the client does not know is retryable, in the classification, for
-- exactly the statuses after which the request pipeline tries again.
pub is_retryable-unknown :
    (status : ℕ) (code message : String) (wait : Option ℕ) (request_id : Option String)
    → is_retryable (
        api status
          (ErrorCode.unknown code)
          (classify status (ErrorCode.unknown code) wait)
          message
          request_id)
      ≡ is_retryable_status status
unfolding is_retryable classify classify_status is_retryable_kind is_retryable_status
    is_server_status
is_retryable-unknown status code message wait request_id = ground arith
