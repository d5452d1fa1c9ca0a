-- ===== src/State/System.antt =====
-- crates/tossinvest-state/src/runtime.rs: the runtime as a whole - the handle's calls, the command
-- queue, the pump's turns and the detached tasks. The answers of the network to a task are an
-- argument.
pub mod Steps
pub mod Safe
pub mod Mild
pub mod Ready
pub mod Running
pub mod Places
pub mod Commands
pub mod Resolved
use package.tossinvest_rust.Common.{
  String, ℕ, zero, suc, ◌+◌, ◌-◌, ◌%◌, ◌^◌, Bool, true, false, ◌&&◌, Option, none, some, List, [],
  ◌∷◌, ◌++◌, map, ◌==◌, if◌then◌else◌,
}
use package.tossinvest_rust.Common.Result.{Result, ok, err}
use package.tossinvest_rust.Model.Scalar.{Scalars}
use package.tossinvest_rust.Model.Orders.{OrderId, Order, PriceResponse}
use package.tossinvest_rust.Model.Account.{HoldingsOverview}
use package.tossinvest_rust.Model.Requests.{OrderCreateRequest}
use package.tossinvest_rust.State.Event.{OrderKey, local}
use package.tossinvest_rust.State.Rows.{next_u64}
use package.tossinvest_rust.State.Ops.{Op, ◌>>=◌}
use package.tossinvest_rust.State.Store.{Store, new_store, apply}
use package.tossinvest_rust.State.Pump
use package.tossinvest_rust.State.Pump.{
  Pump, Command, Task, RefreshTarget, all_target, orders_target, holdings_target, order_target,
  prices_target, intent_of, handle_command,
}
use package.tossinvest_rust.State.Pump.Leases
use package.tossinvest_rust.State.Pump.Sweep.{finish_sweep}

-- What the client's calls return to one task; `none` and `false` are errors.
pub record Network (S : Scalars) : Type 0 where
  pub create_order : OrderCreateRequest S → Result OrderId String
  pub cancel_order : OrderId → Bool
  pub get_order : OrderId → Option (Order S)
  pub open_orders : Option (List (Order S))
  pub holdings : Option (HoldingsOverview S)
  pub prices : List String → Option (List (PriceResponse S))

-- What a task does once the network has answered: the mutations that it applies to the store itself,
-- one `apply` each, and then the commands that it sends.
pub record Job (S : Scalars) : Type 0 where
  pub ops : List (Op S)
  pub sends : List (Command S)

abbrev pub listed {ℓ} : {A : Type ℓ} → Option A → List A
listed none = []
listed (some a) = a ∷ []

abbrev pub listing {ℓ} : {A : Type ℓ} → Option (List A) → List A
listing none = []
listing (some xs) = xs

module _ {S : Scalars} where
  unfoldable pub refresh_ops : Network S → RefreshTarget → List (Op S)
  refresh_ops net all_target =
      map (λ o. Op.observe_order o) (listing net.open_orders)
      ++ map (λ h. Op.update_holdings h) (listed net.holdings)
  refresh_ops net orders_target = map (λ o. Op.observe_order o) (listing net.open_orders)
  refresh_ops net holdings_target = map (λ h. Op.update_holdings h) (listed net.holdings)
  refresh_ops net (order_target id) = map (λ o. Op.observe_order o) (listed (net.get_order id))
  refresh_ops net (prices_target symbols) =
      map (λ x. Op.price_tick x) (listing (net.prices symbols))

  unfoldable pub perform : Network S → Task S → Job S
  unfolding refresh_ops finish_sweep
  perform net (Task.sweep_task before) = record {
    ops = [];
    sends = listed (finish_sweep before net.open_orders net.get_order);
  }
  perform net (Task.prices_task symbols) = record {
    ops = [];
    sends = map (λ xs. Command.prices xs) (listed (net.prices symbols));
  }
  perform net Task.holdings_task = record {
    ops = map (λ h. Op.update_holdings h) (listed net.holdings);
    sends = [];
  }
  perform net (Task.create_task n req) = record {
    ops = [];
    sends = Command.submit_result n (net.create_order req) ∷ [];
  }
  perform net (Task.cancel_task id) = record {
    ops = [];
    sends =
        if net.cancel_order id
        then map (λ o. Command.observed o) (listed (net.get_order id))
        else [];
  }
  perform net (Task.refresh_task target) = record {
    ops = refresh_ops net target;
    sends = Command.wake ∷ [];
  }

-- `handles` counts the living handles and leases, the clones of `Arc<Shared>` that a user holds. The
-- pump holds one more.
pub record System (S : Scalars) : Type 0 where
  pub pump : Pump S
  pub queue : List (Command S)
  pub tasks : List (Task S)
  pub jobs : List (Job S)
  pub local_seq : ℕ  -- u64
  pub handles : ℕ
  pub cancelled : Bool
  pub exited : Bool

module _ (S : Scalars) where
  unfoldable pub spawn : System S
  unfolding new_store
  spawn = record {
    pump = record {
      store = new_store S;
      price_demand = [];
      holdings_demand = 0;
      holdings_dirty = false;
    };
    queue = [];
    tasks = [];
    jobs = [];
    local_seq = 1;
    handles = 1;
    cancelled = false;
    exited = false;
  }

module _ {S : Scalars} where
  -- `commands.send`, whose failure is ignored: the pump's receiver is gone with the pump.
  unfoldable pub send : Command S → System S → System S
  send c s = if s.exited then s else record s { queue = s.queue ++ c ∷ [] }

  unfoldable pub send_all : List (Command S) → System S → System S
  unfolding send
  send_all [] s = s
  send_all (c ∷ cs) s = send_all cs (send c s)

  -- The handle's calls.
  unfoldable pub create_order : OrderCreateRequest S → System S → OrderKey × System S
  unfolding send intent_of next_u64
  create_order req s = (
    local s.local_seq,
    send (Command.submit s.local_seq (intent_of req) req)
        (record s { local_seq = next_u64 s.local_seq }),
  )

  unfoldable pub cancel_order : OrderId → System S → System S
  unfolding send
  cancel_order id s = send (Command.cancel_command id) s

  -- The number that the caller waits for, the snapshot's generation once the refresh is done, is left
  -- out, and with it the `oneshot` channel that tells.
  unfoldable pub refresh : RefreshTarget → System S → System S
  unfolding send
  refresh target s = send (Command.refresh target) s

  -- A lease is one more clone of the shared state.
  unfoldable pub watch_price : String → System S → System S
  unfolding send Leases.watch_price
  watch_price symbol s = send Command.demand_changed (record s {
    pump = record (s.pump) { price_demand = Leases.watch_price symbol s.pump.price_demand };
    handles = suc s.handles;
  })

  unfoldable pub watch_holdings : System S → System S
  unfolding send
  watch_holdings s = send Command.demand_changed (record s {
    pump = record (s.pump) { holdings_demand = suc s.pump.holdings_demand; holdings_dirty = true };
    handles = suc s.handles;
  })

  unfoldable pub clone_handle : System S → System S
  clone_handle s = record s { handles = suc s.handles }

  -- One clone less. `Drop for Shared` cancels the token when no clone is left; while the pump runs it
  -- holds one.
  unfoldable pub release : System S → System S
  release s =
      let left = s.handles - 1 in
      record s { handles = left; cancelled = if s.exited && left == 0 then true else s.cancelled }

  unfoldable pub drop_price_lease : String → System S → System S
  unfolding send Leases.drop_lease release
  drop_price_lease symbol s = release (
      send Command.demand_changed (record s {
        pump = record (s.pump) { price_demand = Leases.drop_lease symbol s.pump.price_demand };
      }))

  -- `fetch_sub` on a count that holds this lease.
  unfoldable pub drop_holdings_lease : System S → System S
  unfolding release
  drop_holdings_lease s =
      release (record s { pump = record (s.pump) { holdings_demand = s.pump.holdings_demand - 1 } })

  unfoldable pub shutdown : System S → System S
  shutdown s = record s { cancelled = true }

  -- The turn of a cancelled pump: it leaves its loop, and the commands in the queue with it.
  unfoldable pub stop_turn : System S → Option (System S)
  unfolding apply
  stop_turn s = do
    (store, deltas) ← apply s.pump.store Op.stop
    some (record s { pump = record (s.pump) { store = store }; queue = []; exited = true })

  -- The turn that takes a command.
  unfoldable pub command_turn : Command S → List (Command S) → System S → Option (System S)
  unfolding handle_command
  command_turn c cs s = do
    (p, ts) ← handle_command c s.pump
    some (record s { pump = p; queue = cs; tasks = s.tasks ++ ts })

  -- The turn of a pump that goes on: a command if there is one, or else the timer.
  unfoldable pub open_turn : Bool → List (Command S) → System S → Option (System S)
  unfolding command_turn send
  open_turn timer [] s = some (if timer then send Command.start_sweep s else s)
  open_turn timer (c ∷ cs) s = command_turn c cs s

  -- One turn of the pump's loop. The `select!` is biased: the cancellation, then a command, then the
  -- timer. `none` is a panic.
  unfoldable pub turn : Bool → System S → Option (System S)
  unfolding stop_turn open_turn
  turn timer s = if s.cancelled then stop_turn s else open_turn timer s.queue s
