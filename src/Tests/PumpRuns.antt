-- ===== src/Tests/PumpRuns.antt =====
-- Runs of the pump, the sweep, the cadence and the leases.
use mathlib.Core.List.{Memᴰ}
use package.tossinvest_rust.Common.{
  ℕ, ◌<◌, ◌≡◌, refl, true, false, not, ◌||◌, ◌&&◌, Option, some, List, [], ◌∷◌, ◌++◌, any, arith,
  String-discrete, string_key,
}
use package.tossinvest_rust.Common.HashMap.{get, values}
use package.tossinvest_rust.Model.Status.{OrderStatus}
use package.tossinvest_rust.Model.Orders.{OrderId, Order}
use package.tossinvest_rust.State.Event.{Delta}
use package.tossinvest_rust.State.Projection.{new, observe_new}
use package.tossinvest_rust.State.Store.{new_store}
use package.tossinvest_rust.State.Pump.{
  Pump, Command, is_stale, handle_command, start_sweeping, sweep_done,
}
use package.tossinvest_rust.State.Pump.Refetch.{is_refetch, handle_command-Accounted}
use package.tossinvest_rust.State.Pump.Sweep.{finish_sweep, finish_sweep_lem, lists}
use package.tossinvest_rust.State.Pump.Cadence.{
  default_scheduler, compute_cadence, compute_cadence_lem, Asked, maximum,
}
use package.tossinvest_rust.State.Pump.Leases.{
  drop_lease, count, release, Counts, drop_lease-Counts,
}
use package.tossinvest_rust.Tests.Worlds.{whole, billionth_rates}
use package.tossinvest_rust.Tests.StateRuns.{order_at}

-- A fresh pump with one watcher of holdings, who has seeded a fetch.
abbrev watched : Pump whole
watched = record {
  store = new_store whole;
  price_demand = [];
  holdings_demand = 1;
  holdings_dirty = true;
}

abbrev swept : Command whole
swept =
    sweep_done (order_at OrderStatus.partial_filled 4 ∷ []) (order_at OrderStatus.filled 10 ∷ [])

handle_command-Accounted_example :
    (ds : List Delta) × ((start_sweeping watched).0.store.sent ≡ watched.store.sent ++ ds)
    × ((start_sweeping watched).0.holdings_dirty ≡ (
        (watched.holdings_dirty || any is_stale ds)
        && not (any is_refetch (start_sweeping watched).1)))
    × (any is_refetch (start_sweeping watched).1 ≡ true
        → (0 < watched.holdings_demand) × (watched.holdings_dirty ≡ true))
unfolding handle_command
handle_command-Accounted_example =
    handle_command-Accounted Command.start_sweep watched (start_sweeping watched).0
      (start_sweeping watched).1 refl

-- "o-1" is no longer listed, and the server knows it as filled.
abbrev answers : OrderId → Option (Order whole)
answers id = some (order_at OrderStatus.filled 10)

finish_sweep_lem_example :
    (dropped : List (Order whole)) × (finish_sweep ("o-1" ∷ []) (some []) answers
      ≡ some (sweep_done [] dropped))
    × ((id : OrderId) (o : Order whole)
        → Memᴰ id ("o-1" ∷ [])
        → lists {S = whole} id [] ≡ false
        → answers id ≡ some o
        → Memᴰ o dropped)
    × ((o : Order whole)
        → Memᴰ o dropped
        → (id : OrderId) × Memᴰ id ("o-1" ∷ [])
          × (lists {S = whole} id [] ≡ false)
          × (answers id ≡ some o))
finish_sweep_lem_example = finish_sweep_lem ("o-1" ∷ []) [] answers

compute_cadence_lem_example :
    (n : ℕ) × Asked default_scheduler
      (values (observe_new (new whole) (order_at OrderStatus.partial_filled 4)).0.orders)
      n
    × (compute_cadence billionth_rates
          (observe_new (new whole) (order_at OrderStatus.partial_filled 4)).0
          default_scheduler
          5000000000
        ≡ maximum n (
            billionth_rates.from_secs (
              billionth_rates.div (billionth_rates.literal 1 0) (
                billionth_rates.max
                  (billionth_rates.mul 5000000000 (billionth_rates.literal 5 1))
                  (billionth_rates.literal 1 1)))))
compute_cadence_lem_example =
    compute_cadence_lem billionth_rates
      (observe_new (new whole) (order_at OrderStatus.partial_filled 4)).0 default_scheduler
      5000000000

no_leases : Counts [] []
unfolding get count
no_leases s = refl

one_lease : Counts (("005930", 1) ∷ []) ("005930" ∷ [])
unfolding get count
one_lease s = ground arith

held : 0 < count "005930" ("005930" ∷ [])
unfolding count String-discrete
held = omega arith

drop_lease-Counts_example :
    Counts (drop_lease "005930" (("005930", 1) ∷ [])) (release "005930" ("005930" ∷ []))
drop_lease-Counts_example =
    drop_lease-Counts "005930" (("005930", 1) ∷ []) ("005930" ∷ []) one_lease held
