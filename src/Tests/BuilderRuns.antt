-- ===== src/Tests/BuilderRuns.antt =====
-- A client that is built from credentials alone.
use package.tossinvest_rust.Common.{String, ℕ, ◌≡◌, ◌⊎◌, Bool, some, List, [], ◌∷◌, not}
use package.tossinvest_rust.Common.Text.{append}
use package.tossinvest_rust.Common.Result.{Result, ok, err}
use package.tossinvest_rust.Client.Error.{Error}
use package.tossinvest_rust.Client.Auth.{Credentials, in_memory}
use package.tossinvest_rust.Client.Reqwest.{Sockets}
use package.tossinvest_rust.Client.Builder.{
  Packages, TossClient, TossClientBuilder, new_builder, build,
}
use package.tossinvest_rust.Client.Builder.Laws.{IsFitted, build-IsFitted}
use package.tossinvest_rust.Tests.ClientRuns.{http}
use package.tossinvest_rust.Tests.Worlds.{billionth_rates}

-- URLs are texts that are not empty; a failure that is `true` is a timeout.
abbrev read_url : String → Result String String
read_url String.[] = err "relative URL without a base"
read_url (String.◌∷◌ c s) = ok (String.◌∷◌ c s)

abbrev sockets : Sockets http
sockets = record {
  Url = String;
  parse = read_url;
  join = λ base path. ok (append base path);
  Client = ℕ;
  new_client = 0;
  Builder = List String;
  request = λ client method url. url ∷ [];
  query = λ ps b. b;
  headers = λ hs b. b;
  header = λ name value b. value ∷ b;
  body = λ bytes b. b;
  Failure = Bool;
  is_timeout = λ late. late;
  is_connect = λ late. not late;
  text = λ late. "failed";
}

abbrev packages : Packages
packages = record {
  http = http;
  sockets = sockets;
  rates = billionth_rates;
  Custom = ℕ;
  CustomStore = in_memory;
}

abbrev secrets : Credentials
secrets = record { client_id = "id"; client_secret = "secret" }

abbrev builder : TossClientBuilder packages
builder = new_builder secrets

build-IsFitted_example :
    ((e : String) × (sockets.parse builder.config.base_url ≡ err e)
      × (build builder ≡ some (err (Error.invalid_arg "base_url" e))))
    ⊎ ((u : String) × (c : TossClient packages) × (sockets.parse builder.config.base_url ≡ ok u)
        × (build builder ≡ some (ok c))
        × IsFitted builder c)
build-IsFitted_example = build-IsFitted builder
