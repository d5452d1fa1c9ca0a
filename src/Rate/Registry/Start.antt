-- ===== src/Rate/Registry/Start.antt =====
-- crates/tossinvest-rate/src/lib.rs: the registry that `with_config` builds.
use package.tossinvest_rust.Common.{◌≡◌, refl, sym, ◌∙◌, ◌⊎◌, inl, inr, some, List, [], ◌∷◌}
use mathlib.Core.List.{Memᴰ}
use mathlib.Core.Path.{subst}
use package.tossinvest_rust.Common.HashMap
use package.tossinvest_rust.Common.HashMap.{get}
use package.tossinvest_rust.Rate.Env.{RateEnv}
use package.tossinvest_rust.Rate.Groups.{
  RateLimitGroup, RateLimitGroup-discrete, group_key, all_groups,
}
use package.tossinvest_rust.Rate.Controller.{AimdConfig}
use package.tossinvest_rust.Rate.Limiter.Laws.{at_base, new-at_base}
use package.tossinvest_rust.Rate.Registry.{Registry, with_groups, with_config}

listed : (g : RateLimitGroup) → Memᴰ g all_groups
listed RateLimitGroup.auth = Memᴰ.head refl
listed RateLimitGroup.account = Memᴰ.tail (Memᴰ.head refl)
listed RateLimitGroup.asset = Memᴰ.tail (Memᴰ.tail (Memᴰ.head refl))
listed RateLimitGroup.stock = Memᴰ.tail (Memᴰ.tail (Memᴰ.tail (Memᴰ.head refl)))
listed RateLimitGroup.market_info = Memᴰ.tail (Memᴰ.tail (Memᴰ.tail (Memᴰ.tail (Memᴰ.head refl))))
listed RateLimitGroup.market_data =
    Memᴰ.tail (Memᴰ.tail (Memᴰ.tail (Memᴰ.tail (Memᴰ.tail (Memᴰ.head refl)))))
listed RateLimitGroup.market_data_chart =
    Memᴰ.tail (Memᴰ.tail (Memᴰ.tail (Memᴰ.tail (Memᴰ.tail (Memᴰ.tail (Memᴰ.head refl))))))
listed RateLimitGroup.order =
    Memᴰ.tail
      (Memᴰ.tail (Memᴰ.tail (Memᴰ.tail (Memᴰ.tail (Memᴰ.tail (Memᴰ.tail (Memᴰ.head refl)))))))
listed RateLimitGroup.order_history = Memᴰ.tail (
    Memᴰ.tail
      (Memᴰ.tail (Memᴰ.tail (Memᴰ.tail (Memᴰ.tail (Memᴰ.tail (Memᴰ.tail (Memᴰ.head refl))))))))
listed RateLimitGroup.order_info = Memᴰ.tail (
    Memᴰ.tail (
      Memᴰ.tail
        (Memᴰ.tail (Memᴰ.tail (Memᴰ.tail (Memᴰ.tail (Memᴰ.tail (Memᴰ.tail (Memᴰ.head refl)))))))))

module _ {E : RateEnv} where
  -- A limiter at the base rate for the groups that are still to come or have one already.
  with_groups-covers :
      (gs : List RateLimitGroup) (cfg : AimdConfig E) (limiters : Registry E)
      → (r : Registry E) × (with_groups gs cfg limiters ≡ some r)
        × ((g : RateLimitGroup)
            → Memᴰ g gs ⊎ (get g limiters ≡ some (at_base g cfg))
            → get g r ≡ some (at_base g cfg))
  unfolding with_groups
  with_groups-covers [] cfg limiters =
      (limiters, refl, λ g h. elim h [ inl m ↦ absurd (elim m [ ]) | inr e ↦ e ])
  with_groups-covers (x ∷ gs) cfg limiters =
      let (r, ran, covers) =
        with_groups-covers gs cfg (HashMap.insert x (at_base x cfg) limiters) in
      (r, rw (new-at_base x cfg, with_groups) ran, λ g h. covers g (entered g h))
    where
      entered :
          (g : RateLimitGroup)
          → Memᴰ g (x ∷ gs) ⊎ (get g limiters ≡ some (at_base g cfg))
          → Memᴰ g gs ⊎ (get g (HashMap.insert x (at_base x cfg) limiters) ≡ some (at_base g cfg))
      entered g (inl (Memᴰ.tail m)) = inl m
      entered g (inl (Memᴰ.head e)) = inr (
          subst (λ y. get y (HashMap.insert x (at_base x cfg) limiters) ≡ some (at_base y cfg))
            (sym e) (HashMap.get-insert_self x (at_base x cfg) limiters))
      entered g (inr found) = elim (RateLimitGroup-discrete x g) [
        | yes e ↦ inr (
            subst (λ y. get y (HashMap.insert x (at_base x cfg) limiters) ≡ some (at_base y cfg)) e
              (HashMap.get-insert_self x (at_base x cfg) limiters))
        | no ne ↦ inr (HashMap.get-insert_ne x g (at_base x cfg) limiters ne ∙ found)
      ]

  -- The registry is built without a panic, and every group has a limiter in it, at the group's base
  -- rate and with the configuration given.
  pub with_config-covers :
      (cfg : AimdConfig E)
      → (r : Registry E) × (with_config cfg ≡ some r)
        × ((g : RateLimitGroup) → get g r ≡ some (at_base g cfg))
  unfolding with_config
  with_config-covers cfg =
      let (r, ran, covers) = with_groups-covers all_groups cfg [] in
      (r, ran, λ g. covers g (inl (listed g)))
