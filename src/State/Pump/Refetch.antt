-- ===== src/State/Pump/Refetch.antt =====
-- crates/tossinvest-state/src/runtime.rs: when the holdings are fetched again.
use mathlib.Core.Path.{subst}
use mathlib.Core.List.{append-nil}
use package.tossinvest_rust.Common.{
  ◌<◌, ◌≡◌, refl, sym, ap, ◌∙◌, Bool, true, false, not, ◌||◌, ◌&&◌, Option, none, some, List, [],
  ◌∷◌, ◌++◌, any, any-append, arith, ltb, Bool-cases, inl, inr, some_injective, none≢some,
}
use package.tossinvest_rust.Common.Result.{ok, err}
use package.tossinvest_rust.Common.HashMap.{keys}
use package.tossinvest_rust.Model.Scalar.{Scalars}
use package.tossinvest_rust.State.Event.{local, Delta, cancel}
use package.tossinvest_rust.State.Projection.{open_server_ids}
use package.tossinvest_rust.State.Ops.{Op, >>=-eq-some}
use package.tossinvest_rust.State.Pump.{
  Pump, Command, Task, is_stale, observe_all, handle_command, spawning, spawn_prices,
  start_sweeping, take_invalidation,
}
use package.tossinvest_rust.State.Pump.Invalidation.{
  IsMarked, same-IsMarked, then-IsMarked, mutate-IsMarked, observe-IsMarked, observe_all-IsMarked,
  tick_all-IsMarked, IsQuiet-submit_optimistic, IsQuiet-confirm, IsQuiet-submit_failed,
  IsQuiet-op_submitted,
}

module _ {S : Scalars} where
  abbrev pub is_refetch : Task S → Bool
  is_refetch Task.holdings_task = true
  is_refetch _ = false

  -- The deltas that went out, the flag after them, and what a refetch needs.
  abbrev pub Accounted : Pump S → Pump S → List (Task S) → Type 0
  Accounted p p' ts =
      (ds : List Delta) × (p'.store.sent ≡ p.store.sent ++ ds)
      × (p'.holdings_dirty ≡ ((p.holdings_dirty || any is_stale ds) && not (any is_refetch ts)))
      × (any is_refetch ts ≡ true → (0 < p.holdings_demand) × (p.holdings_dirty ≡ true))

  marked-Accounted :
      (p p' : Pump S) (ts : List (Task S))
      → any is_refetch ts ≡ false
      → IsMarked p p'
      → Accounted p p' ts
  marked-Accounted p p' ts none_spawned (ds, sent, dirty) =
      (ds, sent, dirty ∙ ground (arith, none_spawned), λ h. absurd (cc (h, none_spawned)))

  spawning-some :
      (m : Option (Pump S)) (ts us : List (Task S)) (p' : Pump S)
      → spawning m ts ≡ some (p', us)
      → (m ≡ some p') × (ts ≡ us)
  spawning-some none ts us p' h = absurd (none≢some h)
  spawning-some (some p) ts us p' h =
      let e = some_injective h in (ap (λ x. some x.0) e, ap (λ x. x.1) e)

  -- A command whose tasks hold no refetch.
  spawning-Accounted :
      (m : Option (Pump S)) (ts us : List (Task S)) (p p' : Pump S)
      → any is_refetch ts ≡ false
      → (m ≡ some p' → IsMarked p p')
      → spawning m ts ≡ some (p', us)
      → Accounted p p' us
  spawning-Accounted m ts us p p' none_spawned f h =
      let (ran, same) = spawning-some m ts us p' h in
      subst (Accounted p p') same (marked-Accounted p p' ts none_spawned (f ran))

  spawn_prices-refetch : (p : Pump S) → any is_refetch (spawn_prices p) ≡ false
  unfolding spawn_prices
  spawn_prices-refetch p =
      elim (keys p.price_demand)
        as (λ x.
          any is_refetch
            (elim x as (λ _. List (Task S)) [ [] ↦ [] | s ∷ ss ↦ Task.prices_task (s ∷ ss) ∷ [] ])
          ≡ false) [ [] ↦ refl | s ∷ ss ↦ refl ]

  start_sweeping-Accounted :
      (p : Pump S) → Accounted p ((start_sweeping p).0) ((start_sweeping p).1)
  unfolding start_sweeping take_invalidation
  start_sweeping-Accounted p = elim (Bool-cases (ltb 0 p.holdings_demand && p.holdings_dirty)) [
    | inl due ↦ rw due (
      [],
      sym (append-nil p.store.sent),
      ground (arith, any-append is_refetch (spawn_prices p) (Task.holdings_task ∷ [])),
      λ _. (ground (arith, due), ground (arith, due)),
    )
    | inr quiet ↦ rw quiet (
        marked-Accounted p p
          (Task.sweep_task (open_server_ids p.store.state) ∷ (spawn_prices p ++ []))
          (any-append is_refetch (spawn_prices p) [] ∙ ground (arith, spawn_prices-refetch p))
          (same-IsMarked p))
  ]

  -- For every command: the flag is on afterwards if it was on or a fill or a closed order was reported,
  -- unless the command started a refetch of the holdings, which turns it off. A refetch starts only
  -- if the flag was on and someone watches the holdings.
  pub handle_command-Accounted :
      (c : Command S) (p p' : Pump S) (ts : List (Task S))
      → handle_command c p ≡ some (p', ts)
      → (ds : List Delta) × (p'.store.sent ≡ p.store.sent ++ ds)
        × (p'.holdings_dirty ≡ ((p.holdings_dirty || any is_stale ds) && not (any is_refetch ts)))
        × (any is_refetch ts ≡ true → (0 < p.holdings_demand) × (p.holdings_dirty ≡ true))
  unfolding handle_command
  handle_command-Accounted Command.start_sweep p p' ts h =
      subst (λ x. Accounted p x.0 x.1) (some_injective h) (start_sweeping-Accounted p)
  handle_command-Accounted (Command.sweep_done orders dropped) p p' ts h =
      spawning-Accounted _ [] ts p p' refl
        (λ ran.
          let (q, first, rest) = >>=-eq-some (observe_all orders p) _ ran in
          then-IsMarked p q p' (observe_all-IsMarked orders p q first)
            (observe_all-IsMarked dropped q p' rest))
        h
  handle_command-Accounted (Command.observed o) p p' ts h =
      spawning-Accounted _ [] ts p p' refl (observe-IsMarked o p p') h
  handle_command-Accounted (Command.submit n intent req) p p' ts h =
      spawning-Accounted _ _ ts p p' refl
        (mutate-IsMarked (Op.submit_optimistic n intent) (IsQuiet-submit_optimistic n intent) p p')
        h
  handle_command-Accounted (Command.submit_result n (ok id)) p p' ts h =
      spawning-Accounted _ [] ts p p' refl
        (mutate-IsMarked (Op.confirm n id) (IsQuiet-confirm n id) p p') h
  handle_command-Accounted (Command.submit_result n (err message)) p p' ts h =
      spawning-Accounted _ [] ts p p' refl
        (mutate-IsMarked (Op.submit_failed (local n) message)
          (IsQuiet-submit_failed (local n) message) p p')
        h
  handle_command-Accounted (Command.cancel_command id) p p' ts h =
      spawning-Accounted _ _ ts p p' refl
        (mutate-IsMarked (Op.op_submitted id cancel) (IsQuiet-op_submitted id cancel) p p') h
  handle_command-Accounted (Command.prices xs) p p' ts h =
      spawning-Accounted _ [] ts p p' refl (tick_all-IsMarked xs p p') h
  handle_command-Accounted (Command.refresh target) p p' ts h =
      subst (λ x. Accounted p x.0 x.1) (some_injective h)
        (marked-Accounted p p (Task.refresh_task target ∷ []) refl (same-IsMarked p))
  handle_command-Accounted Command.demand_changed p p' ts h =
      subst (λ x. Accounted p x.0 x.1) (some_injective h)
        (marked-Accounted p p [] refl (same-IsMarked p))
  handle_command-Accounted Command.wake p p' ts h =
      subst (λ x. Accounted p x.0 x.1) (some_injective h)
        (marked-Accounted p p [] refl (same-IsMarked p))
