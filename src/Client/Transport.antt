-- ===== src/Client/Transport.antt =====
-- crates/tossinvest/src/transport.rs: requests and responses. `reqwest`'s header maps and `serde`'s
-- encoders are other packages: the record `Http` takes what the client calls of them.
use package.tossinvest_rust.Common.{
  String, ℕ, ◌≡◌, Bool, true, false, ◌&&◌, leb, Option, none, some, List, [], ◌∷◌, ◌++◌,
}
use package.tossinvest_rust.Common.Result.{Result, ok, err}
use package.tossinvest_rust.Rate.Groups.{RateLimitGroup}
use package.tossinvest_rust.Client.Error.{TransportError}

pub record Http : Type 1 where
  pub HeaderMap : Type 0
  pub no_headers : HeaderMap
  pub insert : String → String → HeaderMap → HeaderMap
  -- `get(name)` and `to_str().ok()`.
  pub lookup : String → HeaderMap → Option String
  -- `HeaderValue::from_str`: the value, or why it is refused.
  pub header_value : String → Result String String
  -- `StatusCode::is_success`.
  pub is_success : ℕ → Bool
  pub is_success_lem : (status : ℕ) → is_success status ≡ (leb 200 status && leb status 299)
  -- What is inserted is found.
  pub lookup-insert_self :
      (name value : String) (h : HeaderMap) → lookup name (insert name value h) ≡ some value

pub data Method : Type 0 where
  get_method post_method : Method

pub data AuthRequirement : Type 0 where
  no_auth bearer : AuthRequirement

pub record RawBody : Type 0 where
  pub content_type : String
  pub bytes : List ℕ

pub record RawRequest (H : Http) : Type 0 where
  pub method : Method
  pub path : String
  pub query : List (String × String)
  pub headers : H.HeaderMap
  pub body : Option RawBody
  pub group : RateLimitGroup
  pub auth : AuthRequirement
  pub account : Option ℕ
  pub retryable : Bool

pub record RawResponse (H : Http) : Type 0 where
  pub status : ℕ
  pub headers : H.HeaderMap
  pub body : List ℕ

unfoldable pub header : {H : Http} → RawResponse H → String → Option String
header {H} resp name = H.lookup name resp.headers

module _ (H : Http) where
  unfoldable pub get : String → RateLimitGroup → RawRequest H
  get path group = record {
    method = get_method;
    path = path;
    query = [];
    headers = H.no_headers;
    body = none;
    group = group;
    auth = bearer;
    account = none;
    retryable = true;
  }

  unfoldable pub post : String → RateLimitGroup → RawRequest H
  post path group = record {
    method = post_method;
    path = path;
    query = [];
    headers = H.no_headers;
    body = none;
    group = group;
    auth = bearer;
    account = none;
    retryable = false;
  }

module _ {H : Http} where
  unfoldable pub query : String → String → RawRequest H → RawRequest H
  query key value req = record req { query = req.query ++ (key, value) ∷ [] }

  unfoldable pub query_opt : String → Option String → RawRequest H → RawRequest H
  query_opt key none req = req
  query_opt key (some v) req = record req { query = req.query ++ (key, v) ∷ [] }

  unfoldable pub auth : AuthRequirement → RawRequest H → RawRequest H
  auth requirement req = record req { auth = requirement }

  unfoldable pub account : ℕ → RawRequest H → RawRequest H
  account seq req = record req { account = some seq }

  unfoldable pub set_retryable : Bool → RawRequest H → RawRequest H
  set_retryable retryable req = record req { retryable = retryable }

  -- The body that the encoder made, or its failure.
  unfoldable pub json_body :
      Result (List ℕ) TransportError → RawRequest H → Result (RawRequest H) TransportError
  json_body (err e) req = err e
  json_body (ok bytes) req =
      ok (record req { body = some (record { content_type = "application/json"; bytes = bytes }) })

  unfoldable pub form_body :
      Result (List ℕ) TransportError → RawRequest H → Result (RawRequest H) TransportError
  form_body (err e) req = err e
  form_body (ok bytes) req = ok (record req {
    body = some (record { content_type = "application/x-www-form-urlencoded"; bytes = bytes });
  })
