-- ===== src/Client/Endpoints/Once.antt =====
-- crates/tossinvest/src/api.rs and client.rs: how often a mutation of an account's orders is sent.
use package.tossinvest_rust.Common.{ℕ, ◌≡◌, refl, sym, ap, ◌∙◌, false, some, List}
use package.tossinvest_rust.Common.Result.{Result, ok, err, ok_injective}
use package.tossinvest_rust.Model.Scalar.{Scalars}
use package.tossinvest_rust.Model.Orders.{OrderId}
use package.tossinvest_rust.Model.Requests.{OrderCreateRequest}
use package.tossinvest_rust.Client.Error.{TransportError}
use package.tossinvest_rust.Client.Transport.{
  Http, RawRequest, post, json_body, set_retryable, account,
}
use package.tossinvest_rust.Client.Retry.{RetryPolicy, Effect, World, Outcome, send_with_retry}
use package.tossinvest_rust.Client.Retry.Counts.{sends}
use package.tossinvest_rust.Client.Retry.Laws.{send_with_retry_lem}
use package.tossinvest_rust.Client.Endpoints.{has_client_order_id, create_order, cancel_order}

module _ {H : Http} where
  -- The request is sent once, whatever the network answers.
  abbrev pub IsSentOnce : World H → RetryPolicy → RawRequest H → Type 0
  IsSentOnce w policy req =
      (r : Outcome H) × (es : List Effect) × (send_with_retry w policy req ≡ some (r, es))
      × (sends es ≡ 1)

  pub not_retryable-IsSentOnce :
      (w : World H) (policy : RetryPolicy) (req : RawRequest H)
      → req.retryable ≡ false
      → IsSentOnce w policy req
  not_retryable-IsSentOnce w policy req h =
      let (r, es, ran, _, _, _, _, _, _, single) = send_with_retry_lem w policy req in
      (r, es, ran, single h)

  -- An order without an idempotency key is sent to the server exactly once, whatever the network
  -- answers, so that a retry cannot place it twice.
  pub create_order-IsSentOnce :
      {S : Scalars} (w : World H) (policy : RetryPolicy) (seq : ℕ) (order : OrderCreateRequest S)
      (body : Result (List ℕ) TransportError) (req : RawRequest H)
      → has_client_order_id order ≡ false
      → create_order H seq order body ≡ ok req
      → IsSentOnce w policy req
  unfolding create_order json_body post set_retryable account
  create_order-IsSentOnce w policy seq order (ok bytes) req keyless built =
      not_retryable-IsSentOnce w policy req
        (ap (λ r. r.retryable) (sym (ok_injective built)) ∙ keyless)
  create_order-IsSentOnce w policy seq order (err e) req keyless built = cc

  -- A cancellation is sent exactly once, whatever the network answers.
  pub cancel_order-IsSentOnce :
      (w : World H) (policy : RetryPolicy) (seq : ℕ) (order_id : OrderId)
      → IsSentOnce w policy (cancel_order H seq order_id)
  unfolding cancel_order post account
  cancel_order-IsSentOnce w policy seq order_id =
      not_retryable-IsSentOnce w policy (cancel_order H seq order_id) refl
