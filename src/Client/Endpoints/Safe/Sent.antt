-- ===== src/Client/Endpoints/Safe/Sent.antt =====
-- crates/tossinvest/src/api.rs and client.rs: what becomes of an endpoint's request in `call`.
use package.tossinvest_rust.Common.{arith, String, ℕ, ◌≡◌, refl, ap, ◌∙◌, true, not, some}
use package.tossinvest_rust.Common.Text.{append}
use package.tossinvest_rust.Common.I64.{show_i64}
use package.tossinvest_rust.Common.Result.{Result, ok}
use package.tossinvest_rust.Model.Scalar.{Scalars}
use package.tossinvest_rust.Client.Error.{Error}
use package.tossinvest_rust.Client.Transport.{Http, RawRequest}
use package.tossinvest_rust.Client.Retry.{RetryPolicy, World}
use package.tossinvest_rust.Client.Call.{authorization, account_header, prepare}
use package.tossinvest_rust.Client.Call.Headers.{
  IsAccountCall, KeepsAuthorization, prepare-headers, prepare-whole,
}
use package.tossinvest_rust.Client.Endpoints.Once.{IsSentOnce, not_retryable-IsSentOnce}
use package.tossinvest_rust.Client.Endpoints.Safe.{
  Endpoint, is_account_call, is_unkeyed_mutation, request, request-shape,
}

unkeyed-account :
    {S : Scalars} (c : Endpoint S) → is_unkeyed_mutation c ≡ true → is_account_call c ≡ true
unkeyed-account c h = ground arith

module _ {S : Scalars} {H : Http} where
  request-IsAccountCall :
      (seq : ℕ) (c : Endpoint S) (req : RawRequest H)
      → is_account_call c ≡ true
      → request H seq c ≡ ok req
      → IsAccountCall seq req
  request-IsAccountCall seq c req own built =
      let (bearing, scoped, _) = request-shape H seq c req built in
      (bearing, scoped ∙ (rw own refl))

  -- Every method of `AccountClient` sends the number of its account: whatever the method and its
  -- arguments, if the request is built and prepared, its headers name the account and carry the token.
  pub account_call-headers :
      (seq : ℕ) (c : Endpoint S) (token : Result String Error) (req sent : RawRequest H)
      → KeepsAuthorization H
      → is_account_call c ≡ true
      → request H seq c ≡ ok req
      → prepare token req ≡ ok sent
      → (t : String) × (v : String) × (n : String) × (token ≡ ok t)
        × (H.header_value (append "Bearer " t) ≡ ok v)
        × (H.header_value (show_i64 seq) ≡ ok n)
        × (H.lookup authorization sent.headers ≡ some v)
        × (H.lookup account_header sent.headers ≡ some n)
  account_call-headers seq c token req sent keeps own built ready =
      prepare-headers token req sent seq keeps (request-IsAccountCall seq c req own built) ready

  -- A mutation without an idempotency key - an order without one, a change, a cancellation - is sent
  -- to the server exactly once, as it is prepared and whatever the network answers, so that a retry
  -- cannot make it twice.
  pub unkeyed-IsSentOnce :
      (w : World H) (policy : RetryPolicy) (seq : ℕ) (c : Endpoint S) (token : Result String Error)
      (req sent : RawRequest H)
      → is_unkeyed_mutation c ≡ true
      → request H seq c ≡ ok req
      → prepare token req ≡ ok sent
      → IsSentOnce w policy sent
  unkeyed-IsSentOnce w policy seq c token req sent plain built ready =
      let (_, _, tried) = request-shape H seq c req built in
      let (_, _, _, _, _, _, whole) =
        prepare-whole token req sent seq
          (request-IsAccountCall seq c req (unkeyed-account c plain) built) ready in
      not_retryable-IsSentOnce w policy sent (ap (λ r. r.retryable) whole ∙ tried ∙ ap not plain)
