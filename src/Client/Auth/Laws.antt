-- ===== src/Client/Auth/Laws.antt =====
-- crates/tossinvest/src/auth.rs, `TokenManager::refresh`: what an answer of the token endpoint does.
use package.tossinvest_rust.Common.{
  String, ℕ, ◌+◌, ◌<◌, ◌^◌, ◌≡◌, refl, true, false, none, some, ◌⊎◌, inl, inr, ltb, if◌then◌else◌,
  Bool-cases, arith,
}
use package.tossinvest_rust.Common.I64.{i64_add, i64_lt, as_i64}
use package.tossinvest_rust.Common.I64.Laws.{as_i64_lem, i64_add_lem, i64_lt_lem}
use package.tossinvest_rust.Common.Result.{Result, ok, err, Result-cases}
use package.tossinvest_rust.Client.Error.{Error, TransportError, is_retryable}
use package.tossinvest_rust.Client.Transport.{Http, RawRequest, RawResponse}
use package.tossinvest_rust.Client.Auth.{
  Credentials, StoredToken, TokenStore, TokenCodec, OAuth2TokenResponse, fresh_token, token_request,
  oauth2_error, on_token_response, on_token_answer, refresh,
}

-- An error that another request could not mend, or one of the transport.
abbrev pub IsFinal : Error → Type 0
IsFinal e = ((t : TransportError) × (e ≡ Error.transport t)) ⊎ (is_retryable e ≡ false)

-- What a result may be: an error and the cache as it was, or the token that is now cached.
abbrev pub Answered : (C : TokenStore) → C.Cache → C.Cache × Result String Error → Type 0
Answered C cache (after, err e) = (after ≡ cache) × IsFinal e
Answered C cache (after, ok t) =
    (stored : StoredToken) × (C.load after ≡ some stored) × (stored.access_token ≡ t)

-- The freshness test where the cutoff does not wrap around.
pub cutoff_lem :
    (now skew expiry : ℕ)
    → now + skew < 2 ^ 63
    → expiry < 2 ^ 63
    → i64_lt (i64_add now (as_i64 skew)) expiry ≡ ltb (now + skew) expiry
cutoff_lem now skew expiry clock life =
    rw (as_i64_lem skew (omega arith), i64_add_lem now skew clock)
      (i64_lt_lem (now + skew) expiry clock life)

module _ {H : Http} (C : TokenStore) (K : TokenCodec) where
  oauth2_error-IsFinal : (resp : RawResponse H) → is_retryable (oauth2_error K resp) ≡ false
  unfolding oauth2_error is_retryable
  oauth2_error-IsFinal resp = elim (Result-cases (K.read_error resp.body)) [
    | inl (e, unread) ↦ rw (unread, oauth2_error)
    | inr (e, read) ↦ rw (read, oauth2_error)
  ]

  on_token_response-Answered :
      (cache : C.Cache) (now : ℕ) (resp : RawResponse H)
      → Answered C cache (on_token_response C K cache now resp)
  unfolding on_token_response is_retryable
  on_token_response-Answered cache now resp = elim (Bool-cases (H.is_success resp.status)) [
    | inl good ↦ elim (Result-cases (K.read_token resp.body)) [
      | inl (e, unread) ↦ rw (good, unread, on_token_response) (refl, inr refl)
      | inr (body, read) ↦ rw (good, read, on_token_response) (_, C.load-save _ cache, refl)
    ]
    | inr bad ↦ rw (bad, on_token_response) (refl, inr (oauth2_error-IsFinal resp))
  ]

  on_token_answer-Answered :
      (cache : C.Cache) (now : ℕ) (answer : Result (RawResponse H) TransportError)
      → Answered C cache (on_token_answer C K cache now answer)
  unfolding on_token_answer
  on_token_answer-Answered cache now (err e) = (refl, inl (e, refl))
  on_token_answer-Answered cache now (ok resp) = on_token_response-Answered cache now resp

  -- Whatever the transport answers to the token request: a refresh that fails leaves the cache as it
  -- was, and its error is that of the transport or one that `is_retryable` rejects; a refresh that
  -- succeeds leaves the token that it returns in the cache.
  pub refresh-Answered :
      (creds : Credentials) (cache : C.Cache) (now : ℕ)
      (answer : RawRequest H → Result (RawResponse H) TransportError)
      → Answered C cache (refresh C K creds cache now answer)
  unfolding refresh
  refresh-Answered creds cache now answer = elim (Result-cases (token_request H K creds)) [
    | inl (e, unbuilt) ↦ rw (unbuilt, refresh) (refl, inl (e, refl))
    | inr (req, built) ↦ rw (built, refresh) (on_token_answer-Answered cache now (answer req))
  ]

  -- The token that a success brings is returned and cached, and from then on it counts as fresh
  -- exactly while more than the skew is left of its life. The times are such that no sum leaves the
  -- range of an `i64`.
  pub refresh-fresh :
      (creds : Credentials) (cache : C.Cache) (now later skew : ℕ)
      (answer : RawRequest H → Result (RawResponse H) TransportError) (req : RawRequest H)
      (resp : RawResponse H) (body : OAuth2TokenResponse)
      → token_request H K creds ≡ ok req
      → answer req ≡ ok resp
      → H.is_success resp.status ≡ true
      → K.read_token resp.body ≡ ok body
      → now + body.expires_in < 2 ^ 63
      → later + skew < 2 ^ 63
      → (after : C.Cache) × (refresh C K creds cache now answer ≡ (after, ok body.access_token))
        × (fresh_token C after skew later
            ≡ (if ltb (later + skew) (now + body.expires_in) then some body.access_token else none))
  unfolding refresh on_token_answer on_token_response fresh_token
  refresh-fresh creds cache now later skew answer req resp body built answered good read life
        clock =
      let stored : StoredToken = record {
        access_token = body.access_token;
        expires_at_unix = i64_add now body.expires_in;
      } in
      (
        C.save stored cache,
        rw (built, refresh)
            (rw (answered, on_token_answer) (rw (good, read, on_token_response) refl)),
        rw (C.load-save stored cache, fresh_token)
            (rw
              (
                i64_add_lem now body.expires_in life,
                cutoff_lem later skew (now + body.expires_in) clock life,
              )
              refl),
      )
