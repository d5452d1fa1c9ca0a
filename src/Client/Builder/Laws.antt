-- ===== src/Client/Builder/Laws.antt =====
-- crates/tossinvest/src/client.rs, `TossClientBuilder::build`: what a client starts with.
use package.tossinvest_rust.Common.{String, ℕ, ◌≡◌, ◌⊎◌, refl, none, some, inl, inr}
use package.tossinvest_rust.Common.HashMap
use package.tossinvest_rust.Common.Result.{ok, err, Result-cases}
use package.tossinvest_rust.Rate.Groups.{RateLimitGroup, group_key}
use package.tossinvest_rust.Rate.Controller.{default_config}
use package.tossinvest_rust.Rate.Limiter.Laws.{at_base}
use package.tossinvest_rust.Rate.Registry.{Registry, with_base_limits}
use package.tossinvest_rust.Rate.Registry.Start.{with_config-covers}
use package.tossinvest_rust.Client.Error.{Error}
use package.tossinvest_rust.Client.Auth.{fresh_token}
use package.tossinvest_rust.Client.Builder.{
  Packages, TossClient, TossClientBuilder, object_store, build, assemble, new_manager,
}

module _ {P : Packages} where
  -- What a client has that is just built, and what it hands to its token manager.
  abbrev pub IsFitted : TossClientBuilder P → TossClient P → Type 0
  IsFitted b c =
      ((g : RateLimitGroup) → HashMap.get g c.limiter ≡ some (at_base g (default_config P.rates)))
      × (c.tokens.limiter ≡ c.limiter)
      × (c.tokens.transport ≡ c.transport)
      × (c.tokens.creds ≡ b.credentials)
      × (c.retry ≡ b.config.retry)

  -- `build` always returns: an error about `base_url` exactly if the URL is refused, or else a client
  -- whose groups are at their base rates, with the retry policy of the configuration, and whose token
  -- manager starts with the credentials given and with the client's limiters and transport.
  pub build-IsFitted :
      (b : TossClientBuilder P)
      → ((e : String) × (P.sockets.parse b.config.base_url ≡ err e)
          × (build b ≡ some (err (Error.invalid_arg "base_url" e))))
        ⊎ ((u : P.sockets.Url) × (c : TossClient P) × (P.sockets.parse b.config.base_url ≡ ok u)
            × (build b ≡ some (ok c))
            × IsFitted b c)
  unfolding build with_base_limits assemble new_manager
  build-IsFitted b = elim (Result-cases (P.sockets.parse b.config.base_url)) [
    | inl (e, refused) ↦ inl (e, refused, rw (refused, build) refl)
    | inr (u, parsed) ↦
        let (limiter, made, covers) = with_config-covers (default_config P.rates) in
        inr (
          u,
          assemble b u limiter,
          parsed,
          rw (parsed, build, made) refl,
          (covers, refl, refl, refl, refl),
        )
  ]

  -- A client without a store of the user's has no token, whatever the time and the skew.
  pub assemble-no_token :
      (b : TossClientBuilder P) (u : P.sockets.Url) (limiter : Registry P.rates) (skew now : ℕ)
      → b.store ≡ none
      → let c = assemble b u limiter in fresh_token (object_store P) c.tokens.store skew now ≡ none
  unfolding assemble new_manager fresh_token
  assemble-no_token b u limiter skew now bare = rw bare refl
