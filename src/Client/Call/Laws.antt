-- ===== src/Client/Call/Laws.antt =====
-- crates/tossinvest/src/client.rs, `TossClient::call`: where each result comes from.
use package.tossinvest_rust.Common.{String, ◌≡◌, ◌⊎◌, true, false, some, List, []}
use package.tossinvest_rust.Common.Result.{Result, ok, err}
use package.tossinvest_rust.Model.Scalar.{Scalars}
use package.tossinvest_rust.Model.ErrorCode.{ErrorResponse, ApiResponse}
use package.tossinvest_rust.Client.Error.{Error, classify}
use package.tossinvest_rust.Client.Transport.{Http, RawRequest, RawResponse}
use package.tossinvest_rust.Client.Retry.{
  RetryPolicy, Effect, World, Outcome, parse_retry_after, send_with_retry,
}
use package.tossinvest_rust.Client.Call.{Readers, prepare, decode}

module _ {H : Http} {S : Scalars} {A : Type 0} (R : Readers S A) where
  -- A payload, or an error envelope, that the reader refuses.
  abbrev pub Unreadable : RawResponse H → Type 0
  Unreadable resp =
      ((e : String) × (H.is_success resp.status ≡ true) × (R.read_result resp.body ≡ err e))
      ⊎ ((e : String) × (H.is_success resp.status ≡ false) × (R.read_error resp.body ≡ err e))

  -- An answer that is not a success gives the error of its envelope, classified from the status, the
  -- code and `Retry-After`; what cannot be read, and nothing else, gives a decoding error.
  abbrev pub FromResponse : RawResponse H → Result A Error → Type 0
  FromResponse resp (ok a) =
      (H.is_success resp.status ≡ true)
      × ((p : ApiResponse A) × (R.read_result resp.body ≡ ok p) × (p.result ≡ a))
  FromResponse resp (err e) =
      ((text : String) × (e ≡ Error.decode text) × Unreadable resp)
      ⊎ ((H.is_success resp.status ≡ false)
          × ((env : ErrorResponse S) × (R.read_error resp.body ≡ ok env)
              × (e
                  ≡ Error.api resp.status env.error.code
                      (classify resp.status env.error.code (parse_retry_after resp))
                      env.error.message env.error.request_id)))

  abbrev pub FromOutcome : Outcome H → Result A Error → Type 0
  FromOutcome (err t) r = r ≡ err (Error.transport t)
  FromOutcome (ok resp) r = FromResponse resp r

  -- Either nothing was sent, because the request could not be prepared, or the result is that of the
  -- last answer to the prepared request.
  abbrev pub Explained :
      World H
      → RetryPolicy
      → Result String Error
      → RawRequest H
      → Result A Error
      → List Effect
      → Type 0
  Explained w policy token req r es =
      ((e : Error) × (prepare token req ≡ err e) × (r ≡ err e) × (es ≡ []))
      ⊎ ((sent : RawRequest H) × (out : Outcome H) × (prepare token req ≡ ok sent)
          × (send_with_retry w policy sent ≡ some (out, es))
          × FromOutcome out r)
