-- ===== src/Client/Reqwest.antt =====
-- crates/tossinvest/src/transport.rs, `ReqwestTransport`: how a request becomes one of `reqwest`, and
-- what its failures become. `url` and `reqwest` are other packages: the record `Sockets` takes what the
-- transport calls of them. The network's answer to the request that is sent is an argument.
use package.tossinvest_rust.Common.{
  String, ℕ, ◌≡◌, refl, Bool, false, ◌||◌, Option, none, some, List, [], ◌∷◌, Bool-cases, inl, inr,
  if◌then◌else◌,
}
use package.tossinvest_rust.Common.Text.{append}
use package.tossinvest_rust.Common.Result.{Result, ◌>>=◌, ok, err}
use package.tossinvest_rust.Client.Error.{TransportError, is_transient}
use package.tossinvest_rust.Client.Transport.{Http, Method, RawBody, RawRequest, RawResponse}

pub record Sockets (H : Http) : Type 1 where
  pub Url : Type 0
  -- `Url::parse` and `join`; an error is its text.
  pub parse : String → Result Url String
  pub join : Url → String → Result Url String
  -- `reqwest::Client`, its requests under construction, and its failures.
  pub Client : Type 0
  pub new_client : Client
  pub Builder : Type 0
  pub request : Client → Method → Url → Builder
  pub query : List (String × String) → Builder → Builder
  pub headers : H.HeaderMap → Builder → Builder
  pub header : String → String → Builder → Builder
  pub body : List ℕ → Builder → Builder
  pub Failure : Type 0
  pub is_timeout : Failure → Bool
  pub is_connect : Failure → Bool
  pub text : Failure → String

-- What `send` returns: a failure, or the status and headers with the body, whose bytes can fail too.
pub record Arrived (H : Http) (F : Type 0) : Type 0 where
  pub status : ℕ
  pub headers : H.HeaderMap
  pub bytes : Result (List ℕ) F

module _ {H : Http} where
  pub record ReqwestTransport (N : Sockets H) : Type 0 where
    pub client : N.Client
    pub base_url : N.Url

  unfoldable pub new : (N : Sockets H) → N.Url → ReqwestTransport N
  new N base_url = record { client = N.new_client; base_url = base_url }

  unfoldable pub with_client : (N : Sockets H) → N.Client → N.Url → ReqwestTransport N
  with_client N client base_url = record { client = client; base_url = base_url }

  unfoldable pub map_reqwest_error : (N : Sockets H) → N.Failure → TransportError
  map_reqwest_error N e =
      if N.is_timeout e
      then TransportError.timeout
      else if N.is_connect e
      then TransportError.connect (N.text e)
      else TransportError.other (N.text e)

  -- `map_err(map_reqwest_error)`.
  abbrev map_failure : {A : Type 0} (N : Sockets H) → Result A N.Failure → Result A TransportError
  map_failure N (ok a) = ok a
  map_failure N (err e) = err (map_reqwest_error N e)

  unfoldable pub join_path : (N : Sockets H) → N.Url → String → Result N.Url TransportError
  join_path N base path = elim (N.join base path) [
    | ok url ↦ ok url
    | err e ↦ err (TransportError.url (append path (append ": " e)))
  ]

  abbrev add_query : (N : Sockets H) → List (String × String) → N.Builder → N.Builder
  add_query N [] b = b
  add_query N (p ∷ ps) b = N.query (p ∷ ps) b

  abbrev add_body : (N : Sockets H) → Option RawBody → N.Builder → N.Builder
  add_body N none b = b
  add_body N (some body) b = N.body body.bytes (N.header "content-type" body.content_type b)

  -- The request that is sent.
  unfoldable pub assemble : (N : Sockets H) → N.Client → N.Url → RawRequest H → N.Builder
  assemble N client url req =
      add_body N req.body
        (N.headers req.headers (add_query N req.query (N.request client req.method url)))

  unfoldable pub receive :
      (N : Sockets H)
      → Result (Arrived H N.Failure) N.Failure
      → Result (RawResponse H) TransportError
  unfolding map_reqwest_error
  receive N answer = do
    resp ← map_failure N answer
    body ← map_failure N resp.bytes
    ok (record { status = resp.status; headers = resp.headers; body = body })

  unfoldable pub execute :
      (N : Sockets H)
      → (N.Builder → Result (Arrived H N.Failure) N.Failure)
      → ReqwestTransport N
      → RawRequest H
      → Result (RawResponse H) TransportError
  unfolding join_path assemble receive
  execute N network transport req = do
    url ← join_path N transport.base_url req.path
    receive N (network (assemble N transport.client url req))

  -- The failures that the retry loop takes for transient are the timeouts and the failed connections.
  pub map_reqwest_error-transient :
      (N : Sockets H) (e : N.Failure)
      → is_transient (map_reqwest_error N e) ≡ (N.is_timeout e || N.is_connect e)
  unfolding is_transient map_reqwest_error
  map_reqwest_error-transient N e = elim (Bool-cases (N.is_timeout e)) [
    | inl late ↦ rw late refl
    | inr answered ↦ elim (Bool-cases (N.is_connect e)) [
      | inl cut ↦ rw (answered, cut) refl
      | inr met ↦ rw (answered, met) refl
    ]
  ]

  join_path-err :
      (N : Sockets H) (base : N.Url) (path e : String)
      → N.join base path ≡ err e
      → join_path N base path ≡ err (TransportError.url (append path (append ": " e)))
  unfolding join_path
  join_path-err N base path e refused = rw (refused, join_path) refl

  -- A path that does not join the base URL fails with an error that is not transient, whatever the
  -- network would answer.
  pub execute-join :
      (N : Sockets H) (network : N.Builder → Result (Arrived H N.Failure) N.Failure)
      (transport : ReqwestTransport N) (req : RawRequest H) (e : String)
      → N.join transport.base_url req.path ≡ err e
      → (x : TransportError) × (execute N network transport req ≡ err x) × (is_transient x ≡ false)
  unfolding execute is_transient
  execute-join N network transport req e refused = (
    TransportError.url (append req.path (append ": " e)),
    rw (join_path-err N transport.base_url req.path e refused, execute) refl,
    refl,
  )
