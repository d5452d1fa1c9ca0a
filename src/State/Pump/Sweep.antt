-- ===== src/State/Pump/Sweep.antt =====
-- crates/tossinvest-state/src/runtime.rs, `spawn_sweep`: what a sweep fetches. The answers of the
-- client's `orders` and `get_order` are given; `none` is an error.
use mathlib.Core.Path.{subst}
use mathlib.Core.List.{Memᴰ}
use package.tossinvest_rust.Common.{
  ◌≡◌, refl, sym, ◌∙◌, Bool, true, false, Option, none, some, List, [], ◌∷◌, map, ite,
  String-discrete, ap, Bool-cases, Option-cases, inl, inr, ◌⊎◌,
}
use package.tossinvest_rust.Model.Scalar.{Scalars}
use package.tossinvest_rust.Model.Orders.{OrderId, Order}
use package.tossinvest_rust.State.Pump.{Command, sweep_done}

unfoldable pub contains : OrderId → List OrderId → Bool
contains id [] = false
contains id (x ∷ xs) = ite (String-discrete x id) true (contains id xs)

-- `before.difference(&present)`.
unfoldable pub difference : List OrderId → List OrderId → List OrderId
unfolding contains
difference [] present = []
difference (id ∷ before) present =
    let rest = difference before present in
    elim (contains id present) [ true ↦ rest | false ↦ id ∷ rest ]

module _ {S : Scalars} where
  -- The orders that `get_order` finds.
  unfoldable pub fetch_all : (OrderId → Option (Order S)) → List OrderId → List (Order S)
  fetch_all get_order [] = []
  fetch_all get_order (id ∷ ids) =
      let rest = fetch_all get_order ids in elim (get_order id) [ none ↦ rest | some o ↦ o ∷ rest ]

  unfoldable pub finish_sweep :
      List OrderId → Option (List (Order S)) → (OrderId → Option (Order S)) → Option (Command S)
  unfolding difference fetch_all
  finish_sweep before none get_order = none
  finish_sweep before (some orders) get_order =
      some
        (sweep_done orders (fetch_all get_order (difference before (map (λ o. o.order_id) orders))))

  abbrev pub lists : OrderId → List (Order S) → Bool
  lists id orders = contains id (map (λ o. o.order_id) orders)

cases_cons : {A : Type 0} {a b : A} {l : List A} → Memᴰ a (b ∷ l) → (a ≡ b) ⊎ Memᴰ a l
cases_cons (Memᴰ.head e) = inl e
cases_cons (Memᴰ.tail m) = inr m

difference-covers :
    (before present : List OrderId) (id : OrderId)
    → Memᴰ id before
    → contains id present ≡ false
    → Memᴰ id (difference before present)
unfolding difference
difference-covers [] present id m absent = elim m [ ]
difference-covers (x ∷ before) present id (Memᴰ.head e) absent =
    rw (subst (λ y. contains y present ≡ false) e absent, difference) (Memᴰ.head e)
difference-covers (x ∷ before) present id (Memᴰ.tail m) absent =
    let rest = difference-covers before present id m absent in
    elim (Bool-cases (contains x present)) [
      | inl listed ↦ rw (listed, difference) rest
      | inr dropped ↦ rw (dropped, difference) (Memᴰ.tail rest)
    ]

difference-from :
    (before present : List OrderId) (id : OrderId)
    → Memᴰ id (difference before present)
    → Memᴰ id before × (contains id present ≡ false)
unfolding difference
difference-from [] present id m = elim m [ ]
difference-from (x ∷ before) present id m = elim (Bool-cases (contains x present)) [
  | inl listed ↦
      let (old, absent) = difference-from before present id (rw (listed, difference) at m) in
      (Memᴰ.tail old, absent)
  | inr dropped ↦ elim (cases_cons (rw (dropped, difference) at m)) [
    | inl e ↦ (Memᴰ.head e, subst (λ y. contains y present ≡ false) (sym e) dropped)
    | inr later ↦
        let (old, absent) = difference-from before present id later in (Memᴰ.tail old, absent)
  ]
]

module _ {S : Scalars} where
  fetch_all-covers :
      (get_order : OrderId → Option (Order S)) (ids : List OrderId) (id : OrderId) (o : Order S)
      → Memᴰ id ids
      → get_order id ≡ some o
      → Memᴰ o (fetch_all get_order ids)
  unfolding fetch_all
  fetch_all-covers get_order [] id o m found = elim m [ ]
  fetch_all-covers get_order (x ∷ ids) id o (Memᴰ.head e) found =
      rw (subst (λ y. get_order y ≡ some o) e found, fetch_all) (Memᴰ.head refl)
  fetch_all-covers get_order (x ∷ ids) id o (Memᴰ.tail m) found =
      let rest = fetch_all-covers get_order ids id o m found in
      elim (Option-cases (get_order x)) [
        | inl lost ↦ rw (lost, fetch_all) rest
        | inr (o', other) ↦ rw (other, fetch_all) (Memᴰ.tail rest)
      ]

  fetch_all-from :
      (get_order : OrderId → Option (Order S)) (ids : List OrderId) (o : Order S)
      → Memᴰ o (fetch_all get_order ids)
      → (id : OrderId) × Memᴰ id ids × (get_order id ≡ some o)
  unfolding fetch_all
  fetch_all-from get_order [] o m = elim m [ ]
  fetch_all-from get_order (x ∷ ids) o m = elim (Option-cases (get_order x)) [
    | inl lost ↦
        let (id, old, found) = fetch_all-from get_order ids o (rw (lost, fetch_all) at m) in
        (id, Memᴰ.tail old, found)
    | inr (o', other) ↦ elim (cases_cons (rw (other, fetch_all) at m)) [
      | inl e ↦ (x, Memᴰ.head refl, other ∙ ap some (sym e))
      | inr later ↦
          let (id, old, found) = fetch_all-from get_order ids o later in (id, Memᴰ.tail old, found)
    ]
  ]

  -- A sweep whose list call succeeds hands the pump the listed orders and the dropped ones. An order
  -- that was open before and is not listed is among the dropped ones if it can be fetched, and each
  -- dropped order was fetched for an id that was open before and is not listed.
  pub finish_sweep_lem :
      (before : List OrderId) (orders : List (Order S)) (get_order : OrderId → Option (Order S))
      → (dropped : List (Order S)) × (finish_sweep before (some orders) get_order
          ≡ some (sweep_done orders dropped))
        × ((id : OrderId) (o : Order S)
            → Memᴰ id before
            → lists id orders ≡ false
            → get_order id ≡ some o
            → Memᴰ o dropped)
        × ((o : Order S)
            → Memᴰ o dropped
            → (id : OrderId) × Memᴰ id before × (lists id orders ≡ false) × (get_order id ≡ some o))
  unfolding finish_sweep
  finish_sweep_lem before orders get_order =
      let present = map (λ o. o.order_id) orders in
      (
        fetch_all get_order (difference before present),
        refl,
        λ id o m absent found.
            fetch_all-covers get_order _ id o (difference-covers before present id m absent) found,
        λ o m.
            let (id, kept, found) = fetch_all-from get_order (difference before present) o m in
            let (old, absent) = difference-from before present id kept in (id, old, absent, found),
      )
