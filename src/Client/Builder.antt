-- ===== src/Client/Builder.antt =====
-- crates/tossinvest/src/client.rs, `TossClient`, `AccountClient` and `TossClientBuilder`, with the
-- configuration of config.rs and `TokenManager::new` of auth.rs. A transport or a token store that the
-- user passes is of a type of the user's.
pub mod Laws
use package.tossinvest_rust.Common.{String, ℕ, ◌≡◌, refl, Option, none, some, List}
use package.tossinvest_rust.Common.Result.{Result, ok, err}
use package.tossinvest_rust.Model.Scalar.{Scalars}
use package.tossinvest_rust.Rate.Env.{RateEnv}
use package.tossinvest_rust.Rate.Registry.{Registry, with_base_limits}
use package.tossinvest_rust.Client.Error
use package.tossinvest_rust.Client.Error.{Error}
use package.tossinvest_rust.Client.Transport
use package.tossinvest_rust.Client.Transport.{Http, RawRequest}
use package.tossinvest_rust.Client.Reqwest
use package.tossinvest_rust.Client.Reqwest.{Sockets, ReqwestTransport}
use package.tossinvest_rust.Client.Retry.{RetryPolicy, Effect, World, default_policy}
use package.tossinvest_rust.Client.Auth.{Credentials, StoredToken, TokenStore, in_memory}
use package.tossinvest_rust.Client.Call
use package.tossinvest_rust.Client.Call.{Readers}

-- Durations are nanoseconds.
pub record ClientConfig : Type 0 where
  pub base_url : String
  pub retry : RetryPolicy
  pub token_skew : ℕ

unfoldable pub default_client_config : ClientConfig
unfolding default_policy
default_client_config = record {
  base_url = "https://openapi.tossinvest.com";
  retry = default_policy;
  token_skew = 60000000000;
}

-- What the client takes of other packages, and the user's own types of transports and stores.
pub record Packages : Type 1 where
  pub http : Http
  pub sockets : Sockets http
  pub rates : RateEnv
  pub Custom : Type 0
  pub CustomStore : TokenStore

abbrev unwrap_or : {A : Type 0} → A → Option A → A
unwrap_or d none = d
unwrap_or d (some a) = a

module _ (P : Packages) where
  -- `Arc<dyn Transport>`.
  pub data TransportObject : Type 0 where
    reqwest : ReqwestTransport P.sockets → TransportObject
    custom : P.Custom → TransportObject

  -- `Arc<dyn TokenStore>`: `InMemoryTokenStore`, or a store of the user's, with what it holds.
  pub data StoreObject : Type 0 where
    memory_cell : in_memory.Cache → StoreObject
    custom_cell : P.CustomStore.Cache → StoreObject

  abbrev pub load_object : StoreObject → Option StoredToken
  load_object (memory_cell c) = in_memory.load c
  load_object (custom_cell c) = P.CustomStore.load c

  abbrev pub save_object : StoredToken → StoreObject → StoreObject
  save_object t (memory_cell c) = memory_cell (in_memory.save t c)
  save_object t (custom_cell c) = custom_cell (P.CustomStore.save t c)

  abbrev pub clear_object : StoreObject → StoreObject
  clear_object (memory_cell c) = memory_cell (in_memory.clear c)
  clear_object (custom_cell c) = custom_cell (P.CustomStore.clear c)

  pub load_object-save :
      (t : StoredToken) (c : StoreObject) → load_object (save_object t c) ≡ some t
  load_object-save t (memory_cell c) = refl
  load_object-save t (custom_cell c) = P.CustomStore.load-save t c

  pub load_object-clear : (c : StoreObject) → load_object (clear_object c) ≡ none
  load_object-clear (memory_cell c) = refl
  load_object-clear (custom_cell c) = P.CustomStore.load-clear c

  -- The store that a call of the trait object's methods reaches.
  abbrev pub object_store : TokenStore
  object_store = record {
    Cache = StoreObject;
    load = load_object;
    save = save_object;
    clear = clear_object;
    load-save = load_object-save;
    load-clear = load_object-clear;
  }

  pub record TokenManager : Type 0 where
    pub creds : Credentials
    pub store : StoreObject
    pub transport : TransportObject
    pub limiter : Registry P.rates
    pub skew : ℕ

  -- `Inner`.
  pub record TossClient : Type 0 where
    pub transport : TransportObject
    pub tokens : TokenManager
    pub limiter : Registry P.rates
    pub retry : RetryPolicy

  pub record AccountClient : Type 0 where
    pub client : TossClient
    pub seq : ℕ

  pub record TossClientBuilder : Type 0 where
    pub credentials : Credentials
    pub config : ClientConfig
    pub store : Option StoreObject
    pub transport : Option TransportObject

module _ {P : Packages} where
  unfoldable pub new_manager :
      Credentials → StoreObject P → TransportObject P → Registry P.rates → ℕ → TokenManager P
  new_manager creds store transport limiter skew = record {
    creds = creds;
    store = store;
    transport = transport;
    limiter = limiter;
    skew = skew;
  }

  unfoldable pub new_builder : Credentials → TossClientBuilder P
  unfolding default_client_config
  new_builder creds = record {
    credentials = creds;
    config = default_client_config;
    store = none;
    transport = none;
  }

  unfoldable pub base_url : String → TossClientBuilder P → TossClientBuilder P
  base_url url b = record b { config = record (b.config) { base_url = url } }

  unfoldable pub config : ClientConfig → TossClientBuilder P → TossClientBuilder P
  config c b = record b { config = c }

  unfoldable pub retry : RetryPolicy → TossClientBuilder P → TossClientBuilder P
  retry policy b = record b { config = record (b.config) { retry = policy } }

  unfoldable pub token_store : StoreObject P → TossClientBuilder P → TossClientBuilder P
  token_store store b = record b { store = some store }

  unfoldable pub transport : TransportObject P → TossClientBuilder P → TossClientBuilder P
  transport t b = record b { transport = some t }

  -- The client, once the base URL is parsed and the registry made.
  unfoldable pub assemble : TossClientBuilder P → P.sockets.Url → Registry P.rates → TossClient P
  unfolding new_manager Reqwest.new
  assemble b base limiter =
      let t = unwrap_or (reqwest (Reqwest.new P.sockets base)) b.transport in
      record {
        transport = t;
        tokens =
            new_manager b.credentials (unwrap_or (memory_cell none) b.store) t limiter
              b.config.token_skew;
        limiter = limiter;
        retry = b.config.retry;
      }

  -- `none` is a panic, of the limiters that the registry starts with.
  unfoldable pub build : TossClientBuilder P → Option (Result (TossClient P) Error)
  unfolding assemble with_base_limits
  build b = elim (P.sockets.parse b.config.base_url) [
    | err e ↦ some (err (Error.invalid_arg "base_url" e))
    | ok base ↦ elim with_base_limits [
      | none ↦ none
      | some limiter ↦ some (ok (assemble b base limiter))
    ]
  ]

  -- `TossClient::new`.
  unfoldable pub new_client : Credentials → Option (Result (TossClient P) Error)
  unfolding build new_builder
  new_client creds = build (new_builder creds)

  unfoldable pub account : ℕ → TossClient P → AccountClient P
  account seq client = record { client = client; seq = seq }

  -- `AccountClient::call`: the request is scoped to the account first.
  unfoldable pub call :
      {S : Scalars} {A : Type 0}
      → AccountClient P
      → World P.http
      → Result String Error
      → Readers S A
      → RawRequest P.http
      → Option (Result A Error × List Effect)
  unfolding Call.call Transport.account
  call a w token R req = Call.call w a.client.retry token R (Transport.account a.seq req)
