-- ===== src/State/Projection/Observe.antt =====
-- crates/tossinvest-state/src/core/state.rs: `observe_order` of a tracked order, as one equation for
-- a closed row and one for an open row.
use package.tossinvest_rust.Common.{
  ◌≡◌, refl, sym, ◌∙◌, ◌||◌, some_injective, none≢some, Bool-cases, inl, inr, true, false, none,
  some, List, [], ◌∷◌, ◌++◌, if◌then◌else◌, ite, arith, string_key,
}
use package.tossinvest_rust.Common.HashMap.{get, insert}
use package.tossinvest_rust.Model.Scalar.{Scalars}
use package.tossinvest_rust.Model.Status.{OrderStatus-discrete}
use package.tossinvest_rust.Model.Orders.{Order}
use package.tossinvest_rust.State.Event.{OrderKey, order_key_key, Delta, order_upserted}
use package.tossinvest_rust.State.View.{OrderView, is_terminal}
use package.tossinvest_rust.State.Rows.{is_empty, fill_deltas, fill_fits, close_deltas, absorbed}
use package.tossinvest_rust.State.Projection.{
  ProjectedState, bump, observe_known, observe_new, observe_order,
}

module _ {S : Scalars} where
  -- What the observation of an open row reports.
  unfoldable pub observed_deltas : OrderKey → OrderView → Order S → List Delta
  observed_deltas key view order =
      ite (OrderStatus-discrete order.status view.status) (fill_deltas key view order)
        (fill_deltas key view order ++ order_upserted key ∷ close_deltas key order.status)

  abbrev pub with_row : ProjectedState S → OrderKey → OrderView → ProjectedState S
  with_row s key view = record s { orders = insert key view s.orders }

  pub observe_known_closed :
      (s : ProjectedState S) (k : OrderKey) (v : OrderView) (o : Order S)
      → is_terminal v ≡ true
      → observe_known s k v o ≡ (s, [])
  unfolding observe_known
  observe_known_closed s k v o h = rw h

  bump_or_keep :
      (s : ProjectedState S) (ds : List Delta)
      → (if is_empty ds then (s, []) else bump s ds) ≡ bump s ds
  unfolding bump
  bump_or_keep s [] = refl
  bump_or_keep s (d ∷ ds) = refl

  pub observe_known_open :
      (s : ProjectedState S) (k : OrderKey) (v : OrderView) (o : Order S)
      → is_terminal v ≡ false
      → observe_known s k v o ≡ bump (with_row s k (absorbed v o)) (observed_deltas k v o)
  unfolding observe_known observed_deltas
  observe_known_open s k v o h =
      rw h (ground (arith, bump_or_keep (with_row s k (absorbed v o)) (fill_deltas k v o)))

  pub observe_order_new :
      (s : ProjectedState S) (o : Order S)
      → get o.order_id s.server_index ≡ none
      → observe_order s o ≡ some (observe_new s o)
  unfolding observe_order
  observe_order_new s o h = rw (h, observe_order)

  pub observe_order_known :
      (s : ProjectedState S) (o : Order S) {k : OrderKey} {v : OrderView}
      → get o.order_id s.server_index ≡ some k
      → get k s.orders ≡ some v
      → (is_terminal v || fill_fits v o) ≡ true
      → observe_order s o ≡ some (observe_known s k v o)
  unfolding observe_order
  observe_order_known s o h row fits = rw (h, observe_order) (rw (row, fits))

  -- What an observation returns, if it does.
  pub observe_order_returned :
      (s : ProjectedState S) (o : Order S) {k : OrderKey} {v : OrderView}
      {r : ProjectedState S × List Delta}
      → get o.order_id s.server_index ≡ some k
      → get k s.orders ≡ some v
      → observe_order s o ≡ some r
      → observe_known s k v o ≡ r
  unfolding observe_order
  observe_order_returned s o {v = v} h row e = elim (Bool-cases (is_terminal v || fill_fits v o)) [
    | inl fits ↦ some_injective (sym (observe_order_known s o h row fits) ∙ e)
    | inr misfit ↦ absurd (none≢some (sym (overflown misfit) ∙ e))
  ]
    where
      overflown : (is_terminal v || fill_fits v o) ≡ false → observe_order s o ≡ none
      overflown misfit = rw (h, observe_order) (rw (row, misfit))

  -- An indexed id without a row is the panic of `expect("indexed key exists")`.
  pub observe_order_lost :
      (s : ProjectedState S) (o : Order S) {k : OrderKey}
      → get o.order_id s.server_index ≡ some k
      → get k s.orders ≡ none
      → observe_order s o ≡ none
  unfolding observe_order
  observe_order_lost s o h lost = rw (h, observe_order) (rw lost)
