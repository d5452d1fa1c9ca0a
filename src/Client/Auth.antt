-- ===== src/Client/Auth.antt =====
-- crates/tossinvest/src/auth.rs: credentials, the token store and the token manager, as one caller runs
-- it. `serde` and the form encoder are other packages: the record `TokenCodec` takes their answers. The
-- clock, the environment and the network's answer are arguments; `now_unix` is an `i64`.
pub mod Laws
pub mod Flight
use package.tossinvest_rust.Common.{
  String, ℕ, ◌≡◌, refl, Option, none, some, List, [], ◌∷◌, if◌then◌else◌,
}
use package.tossinvest_rust.Common.Text.{append}
use package.tossinvest_rust.Common.I64.{as_i64, i64_add, i64_lt, show_u64}
use package.tossinvest_rust.Common.Result.{Result, ◌>>=◌, ok, err}
use package.tossinvest_rust.Rate.Groups.{RateLimitGroup}
use package.tossinvest_rust.Client.Error
use package.tossinvest_rust.Client.Error.{Error, TransportError}
use package.tossinvest_rust.Client.Transport.{
  Http, RawRequest, RawResponse, no_auth, post, auth, form_body,
}

pub record Credentials : Type 0 where
  pub client_id : String
  pub client_secret : String

unfoldable pub credentials : String → String → Credentials
credentials id secret = record { client_id = id; client_secret = secret }

-- One variable of the environment.
unfoldable pub env_var : (String → Option String) → String → Result String Error
env_var env name = elim (env name) [
  | none ↦ err (Error.invalid_arg name "environment variable not set")
  | some v ↦ ok v
]

unfoldable pub from_env : (String → Option String) → Result Credentials Error
unfolding env_var credentials
from_env env = do
  id ← env_var env "TOSSINVEST_CLIENT_ID"
  secret ← env_var env "TOSSINVEST_CLIENT_SECRET"
  ok (credentials id secret)

pub record StoredToken : Type 0 where
  pub access_token : String
  pub expires_at_unix : ℕ

-- The trait: a cell that holds at most one token.
pub record TokenStore : Type 1 where
  pub Cache : Type 0
  pub load : Cache → Option StoredToken
  pub save : StoredToken → Cache → Cache
  pub clear : Cache → Cache
  pub load-save : (t : StoredToken) (c : Cache) → load (save t c) ≡ some t
  pub load-clear : (c : Cache) → load (clear c) ≡ none

abbrev pub in_memory : TokenStore
in_memory = record {
  Cache = Option StoredToken;
  load = λ c. c;
  save = λ t c. some t;
  clear = λ c. none;
  load-save = λ t c. refl;
  load-clear = λ c. refl;
}

pub record OAuth2TokenResponse : Type 0 where
  pub access_token : String
  pub token_type : String
  pub expires_in : ℕ

pub record OAuth2ErrorResponse : Type 0 where
  pub error : String
  pub error_description : Option String

-- `serde_urlencoded::to_string` and `serde_json::from_slice`; an error is its text.
pub record TokenCodec : Type 0 where
  pub encode_form : List (String × String) → Result (List ℕ) String
  pub read_token : List ℕ → Result OAuth2TokenResponse String
  pub read_error : List ℕ → Result OAuth2ErrorResponse String

-- `map_err` on a serializer's failure, and `?` from a transport error.
abbrev pub refused :
    {A : Type 0} → (String → TransportError) → Result A String → Result A TransportError
refused f (ok a) = ok a
refused f (err e) = err (f e)

abbrev pub lift : {A : Type 0} → Result A TransportError → Result A Error
lift (ok a) = ok a
lift (err e) = err (Error.transport e)

-- `skew` is `self.skew.as_secs()`.
unfoldable pub fresh_token : (C : TokenStore) → C.Cache → ℕ → ℕ → Option String
unfolding i64_add i64_lt as_i64
fresh_token C cache skew now = elim (C.load cache) [
  | none ↦ none
  | some t ↦
      if i64_lt (i64_add now (as_i64 skew)) t.expires_at_unix then some t.access_token else none
]

unfoldable pub token_request :
    (H : Http) → TokenCodec → Credentials → Result (RawRequest H) TransportError
unfolding post auth form_body
token_request H K creds =
    form_body
      (refused (λ e. TransportError.other (append "serialize form: " e))
        (K.encode_form (
          ("grant_type", "client_credentials")
          ∷ ("client_id", creds.client_id)
          ∷ ("client_secret", creds.client_secret)
          ∷ [])))
      (auth no_auth (post H "/oauth2/token" RateLimitGroup.auth))

-- The error of a token endpoint's answer that is not a success.
unfoldable pub oauth2_error : {H : Http} → TokenCodec → RawResponse H → Error
unfolding show_u64
oauth2_error K resp = elim (K.read_error resp.body) [
  | ok e ↦ Error.oauth2 e.error e.error_description
  | err e ↦ Error.oauth2 (append "http " (show_u64 resp.status)) none
]

module _ {H : Http} (C : TokenStore) (K : TokenCodec) where
  -- What `refresh` does with the answer: the cache afterwards, and the result.
  unfoldable pub on_token_response : C.Cache → ℕ → RawResponse H → C.Cache × Result String Error
  unfolding oauth2_error i64_add
  on_token_response cache now resp =
      if H.is_success resp.status
      then elim (K.read_token resp.body) [
        | err e ↦ (cache, err (Error.decode (append "oauth2 token response: " e)))
        | ok body ↦ (
          C.save
              (record {
                access_token = body.access_token;
                expires_at_unix = i64_add now body.expires_in;
              })
              cache,
          ok body.access_token,
        )
      ]
      else (cache, err (oauth2_error K resp))

  unfoldable pub on_token_answer :
      C.Cache → ℕ → Result (RawResponse H) TransportError → C.Cache × Result String Error
  unfolding on_token_response
  on_token_answer cache now (err e) = (cache, err (Error.transport e))
  on_token_answer cache now (ok resp) = on_token_response cache now resp

  -- `answer` is what the transport answers to the request, and `now` the clock then.
  unfoldable pub refresh :
      Credentials
      → C.Cache
      → ℕ
      → (RawRequest H → Result (RawResponse H) TransportError)
      → C.Cache × Result String Error
  unfolding token_request on_token_answer
  refresh creds cache now answer = elim (token_request H K creds) [
    | err e ↦ (cache, err (Error.transport e))
    | ok req ↦ on_token_answer cache now (answer req)
  ]

-- After a 401.
unfoldable pub invalidate : (C : TokenStore) → C.Cache → C.Cache
invalidate C cache = C.clear cache
