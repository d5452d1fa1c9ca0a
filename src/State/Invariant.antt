-- ===== src/State/Invariant.antt =====
-- crates/tossinvest-state/src/core/state.rs: the invariant of the projected state, and that every
-- operation keeps it.
pub mod RowChanges
pub mod Preserved
pub mod Runs
use mathlib.Core.Path.{subst₂}
use package.tossinvest_rust.Common.{
  ℕ, ◌≡◌, ◌≢◌, sym, ap, ◌∙◌, true, false, none, some, inl, inr, arith, string_key,
}
use package.tossinvest_rust.Common.HashMap
use package.tossinvest_rust.Common.HashMap.{HashMap, get, insert, remove}
use package.tossinvest_rust.Model.Scalar.{Scalars}
use package.tossinvest_rust.Model.Status
use package.tossinvest_rust.Model.Orders.{OrderId}
use package.tossinvest_rust.State.Event.{OrderKey, local, server, order_key_key}
use package.tossinvest_rust.State.View.{OrderView, is_terminal, is_closed, lifecycle_of_status}
use package.tossinvest_rust.State.Projection.{ProjectedState}

-- A row under a server id agrees with its key, is confirmed, and is closed exactly when its status
-- is terminal, with the reason of that status. A row under a local id is a submission
-- that is still pending.
abbrev pub RowIsValid : OrderKey → OrderView → Type 0
RowIsValid (local n) v =
    (v.key ≡ local n)
    × (v.server_id ≡ none)
    × (v.optimistic ≡ true)
    × (is_terminal v ≡ false)
    × (v.status ≡ Status.pending)
RowIsValid (server id) v =
    (v.key ≡ server id)
    × (v.server_id ≡ some id)
    × (v.optimistic ≡ false)
    × (is_terminal v ≡ Status.is_terminal v.status)
    × (is_terminal v ≡ true → v.lifecycle ≡ lifecycle_of_status v.status)

abbrev pub Rows : HashMap OrderKey OrderView → Type 0
Rows orders = (k : OrderKey) (v : OrderView) → get k orders ≡ some v → RowIsValid k v

-- The routing index sends an id to its own key, and holds exactly the ids that have a row.
abbrev pub Routes : HashMap OrderId OrderKey → HashMap OrderKey OrderView → Type 0
Routes index orders =
    ((id : OrderId) (k : OrderKey) → get id index ≡ some k → k ≡ server id)
    × ((id : OrderId) (k : OrderKey)
        → get id index ≡ some k
        → (v : OrderView) × (get (server id) orders ≡ some v))
    × ((id : OrderId) (v : OrderView)
        → get (server id) orders ≡ some v
        → get id index ≡ some (server id))

pub record Inv {S : Scalars} (s : ProjectedState S) : Type 0 where
  pub rows : Rows s.orders
  pub routes : Routes s.server_index s.orders

pub Rows-insert :
    (k : OrderKey) (v : OrderView) (m : HashMap OrderKey OrderView)
    → Rows m
    → RowIsValid k v
    → Rows (insert k v m)
Rows-insert k v m rows valid j w h = elim (HashMap.get-insert-cases k j v w m h) [
  | inl (p, q) ↦ subst₂ RowIsValid p q valid
  | inr (p, q) ↦ rows j w q
]

pub Rows-remove : (k : OrderKey) (m : HashMap OrderKey OrderView) → Rows m → Rows (remove k m)
Rows-remove k m rows j w h = rows j w (HashMap.get-remove-cases k j w m h).1

pub lifecycle_of_status-closed :
    (s : Status.OrderStatus) → is_closed (lifecycle_of_status s) ≡ Status.is_terminal s
unfolding is_closed lifecycle_of_status Status.is_terminal
lifecycle_of_status-closed s = ground arith

pub server_injective : {a b : OrderId} → server a ≡ server b → a ≡ b
server_injective e = cc

pub local_ne_server : {n : ℕ} {id : OrderId} → local n ≢ server id
local_ne_server e = cc

-- A write at a key that is already routed, or local, keeps the routing.
pub Routes-update :
    (k : OrderKey) (v : OrderView) (index : HashMap OrderId OrderKey)
    (m : HashMap OrderKey OrderView)
    → Routes index m
    → ((id : OrderId) → k ≡ server id → get id index ≡ some (server id))
    → Routes index (insert k v m)
Routes-update k v index m (own, present, tracked) routed = (own, present', tracked')
  where
    present' :
        (id : OrderId) (j : OrderKey)
        → get id index ≡ some j
        → (w : OrderView) × (get (server id) (insert k v m) ≡ some w)
    present' id j h = elim (order_key_key.eq_dec k (server id)) [
      | yes p ↦ (v, rw (← p) (HashMap.get-insert_self k v m))
      | no q ↦
          let (w, found) = present id j h in (w, HashMap.get-insert_ne k (server id) v m q ∙ found)
    ]

    tracked' :
        (id : OrderId) (w : OrderView)
        → get (server id) (insert k v m) ≡ some w
        → get id index ≡ some (server id)
    tracked' id w h = elim (HashMap.get-insert-cases k (server id) v w m h) [
      | inl (p, q) ↦ routed id p
      | inr (p, q) ↦ tracked id w q
    ]

-- A new id is routed to its row.
pub Routes-new :
    (id : OrderId) (v : OrderView) (index : HashMap OrderId OrderKey)
    (m : HashMap OrderKey OrderView)
    → Routes index m
    → Routes (insert id (server id) index) (insert (server id) v m)
Routes-new id v index m (own, present, tracked) = (own', present', tracked')
  where
    own' :
        (i : OrderId) (j : OrderKey) → get i (insert id (server id) index) ≡ some j → j ≡ server i
    own' i j h = elim (HashMap.get-insert-cases id i (server id) j index h) [
      | inl (p, q) ↦ sym q ∙ ap server p
      | inr (p, q) ↦ own i j q
    ]

    present' :
        (i : OrderId) (j : OrderKey)
        → get i (insert id (server id) index) ≡ some j
        → (w : OrderView) × (get (server i) (insert (server id) v m) ≡ some w)
    present' i j h = elim (HashMap.get-insert-cases id i (server id) j index h) [
      | inl (p, q) ↦ (v, rw (← p) (HashMap.get-insert_self (server id) v m))
      | inr (p, q) ↦
          let (w, found) = present i j q in
          (
            w,
            HashMap.get-insert_ne (server id) (server i) v m (λ e. p (server_injective e)) ∙ found,
          )
    ]

    tracked' :
        (i : OrderId) (w : OrderView)
        → get (server i) (insert (server id) v m) ≡ some w
        → get i (insert id (server id) index) ≡ some (server i)
    tracked' i w h = elim (HashMap.get-insert-cases (server id) (server i) v w m h) [
      | inl (p, q) ↦ rw (← server_injective p) (HashMap.get-insert_self id (server id) index)
      | inr (p, q) ↦
          HashMap.get-insert_ne id i (server id) index (λ e. p (ap server e)) ∙ tracked i w q
    ]

pub Routes-remove_local :
    (n : ℕ) (index : HashMap OrderId OrderKey) (m : HashMap OrderKey OrderView)
    → Routes index m
    → Routes index (remove (local n) m)
Routes-remove_local n index m (own, present, tracked) = (
  own,
  λ id j h.
      let (w, found) = present id j h in
      (w, HashMap.get-remove_ne (local n) (server id) m local_ne_server ∙ found),
  λ id w h. tracked id w (HashMap.get-remove-cases (local n) (server id) w m h).1,
)
