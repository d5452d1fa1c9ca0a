-- ===== src/State/Closing.antt =====
-- crates/tossinvest-state/src/core/state.rs: how often an order's close is reported, against
-- whether its row is closed.
pub mod Steps
pub mod Runs
use package.tossinvest_rust.Common.{
  ℕ, ◌+◌, ◌≡◌, ◌≢◌, refl, ap, if_pos, if_neg, ◌∙◌, Bool, true, false, Option, none, some, List, [],
  ◌∷◌, ◌++◌, ite, if◌then◌else◌, arith, string_key,
}
use package.tossinvest_rust.Common.HashMap
use package.tossinvest_rust.Common.HashMap.{HashMap, get, insert, remove}
use package.tossinvest_rust.Model.Scalar.{Scalars}
use package.tossinvest_rust.Model.Status
use package.tossinvest_rust.Model.Status.{OrderStatus}
use package.tossinvest_rust.Model.Orders.{OrderId, Order}
use package.tossinvest_rust.State.Event.{
  OrderKey, local, server, OrderKey-discrete, order_key_key, Delta, order_closed, order_upserted,
}
use package.tossinvest_rust.State.View.{OrderView, is_terminal}
use package.tossinvest_rust.State.Rows.{fill_deltas, close_deltas}
use package.tossinvest_rust.State.Projection.{ProjectedState, bump}
use package.tossinvest_rust.State.Invariant.{local_ne_server, server_injective}

abbrev pub bit : Bool → ℕ
bit true = 1
bit false = 0

-- 1 if the delta reports the close of the order, 0 otherwise.
unfoldable pub is_close : OrderId → Delta → ℕ
is_close id (order_closed k _) = ite (OrderKey-discrete k (server id)) 1 0
is_close id _ = 0

-- How many of the deltas report the close of the order.
unfoldable pub closes : OrderId → List Delta → ℕ
closes id [] = 0
closes id (d ∷ ds) = is_close id d + closes id ds

-- 1 if the order has a closed row, 0 otherwise.
unfoldable pub closed_rows : OrderId → HashMap OrderKey OrderView → ℕ
closed_rows id orders = elim (get (server id) orders) [ none ↦ 0 | some v ↦ bit (is_terminal v) ]

pub closes-append :
    (id : OrderId) (ds es : List Delta) → closes id (ds ++ es) ≡ closes id ds + closes id es
unfolding closes
closes-append id [] es = omega arith
closes-append id (d ∷ ds) es = omega (arith, closes-append id ds es)

pub closed_rows-none :
    (id : OrderId) (m : HashMap OrderKey OrderView)
    → get (server id) m ≡ none
    → closed_rows id m ≡ 0
unfolding closed_rows
closed_rows-none id m h = rw (h, closed_rows)

pub closed_rows-some :
    (id : OrderId) (m : HashMap OrderKey OrderView) {v : OrderView}
    → get (server id) m ≡ some v
    → closed_rows id m ≡ bit (is_terminal v)
unfolding closed_rows
closed_rows-some id m h = rw (h, closed_rows)

pub closed_rows-insert :
    (id : OrderId) (k : OrderKey) (v : OrderView) (m : HashMap OrderKey OrderView)
    → closed_rows id (insert k v m)
      ≡ ite (OrderKey-discrete k (server id)) (bit (is_terminal v)) (closed_rows id m)
unfolding closed_rows
closed_rows-insert id k v m = ground (arith, HashMap.get-insert k (server id) v m)

pub closed_rows-insert_server :
    (id oid : OrderId) (w : OrderView) (m : HashMap OrderKey OrderView)
    → (oid ≢ id → closed_rows id (insert (server oid) w m) ≡ closed_rows id m)
      × (oid ≡ id → closed_rows id (insert (server oid) w m) ≡ bit (is_terminal w))
closed_rows-insert_server id oid w m = (
  λ ne. ground (arith, closed_rows-insert id (server oid) w m),
  λ e. ground (arith, closed_rows-insert id (server oid) w m),
)

pub closed_rows-remove_local :
    (id : OrderId) (n : ℕ) (m : HashMap OrderKey OrderView)
    → closed_rows id (remove (local n) m) ≡ closed_rows id m
unfolding closed_rows
closed_rows-remove_local id n m =
    ground (arith, HashMap.get-remove_ne (local n) (server id) m local_ne_server)

pub closed_rows-insert_local :
    (id : OrderId) (n : ℕ) (v : OrderView) (m : HashMap OrderKey OrderView)
    → closed_rows id (insert (local n) v m) ≡ closed_rows id m
unfolding closed_rows
closed_rows-insert_local id n v m =
    ground (arith, HashMap.get-insert_ne (local n) (server id) v m local_ne_server)

pub closes-close_deltas :
    (id : OrderId) (k : OrderKey) (status : OrderStatus)
    → closes id (close_deltas k status)
      ≡ ite (OrderKey-discrete k (server id)) (bit (Status.is_terminal status)) 0
unfolding closes is_close close_deltas
closes-close_deltas id k status = ground arith

module _ {S : Scalars} where
  pub closes-fill_deltas :
      (id : OrderId) (k : OrderKey) (v : OrderView) (o : Order S)
      → closes id (fill_deltas k v o) ≡ 0
  unfolding closes is_close fill_deltas
  closes-fill_deltas id k v o = ground arith

  pub bump-orders : (s : ProjectedState S) (ds : List Delta) → (bump s ds).0.orders ≡ s.orders
  unfolding bump
  bump-orders s [] = refl
  bump-orders s (d ∷ ds) = refl

  pub bump-deltas : (s : ProjectedState S) (ds : List Delta) → (bump s ds).1 ≡ ds
  unfolding bump
  bump-deltas s [] = refl
  bump-deltas s (d ∷ ds) = refl

  -- The account that a mutation keeps: the closes that it reports are the rows that it closes.
  abbrev pub Balanced : OrderId → ProjectedState S → ProjectedState S × List Delta → Type 0
  Balanced id s r = closed_rows id r.0.orders ≡ closed_rows id s.orders + closes id r.1

  pub bump-Balanced :
      (id : OrderId) (s t : ProjectedState S) (ds : List Delta)
      → closed_rows id t.orders ≡ closed_rows id s.orders + closes id ds
      → Balanced id s (bump t ds)
  bump-Balanced id s t ds h = rw (bump-orders t ds, bump-deltas t ds) h

  pub unchanged-Balanced : (id : OrderId) (s : ProjectedState S) → Balanced id s (s, [])
  unfolding closes
  unchanged-Balanced id s = omega arith
