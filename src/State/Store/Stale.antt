-- ===== src/State/Store/Stale.antt =====
-- crates/tossinvest-state/src/core/state.rs:99 and runtime.rs:90: an observation that is folded but
-- not published.
use package.tossinvest_rust.Common.{◌≡◌, refl, ap, ◌∙◌, false, some, [], if_pos, string_key}
use package.tossinvest_rust.Common.HashMap
use package.tossinvest_rust.Common.HashMap.{get}
use package.tossinvest_rust.Model.Scalar.{Scalars}
use package.tossinvest_rust.Model.Status.{OrderStatus-discrete}
use package.tossinvest_rust.Model.Orders.{Order}
use package.tossinvest_rust.State.Event.{OrderKey, order_key_key}
use package.tossinvest_rust.State.View.{OrderView, is_terminal, lifecycle_for, absorb}
use package.tossinvest_rust.State.Rows.{parse_dec, fill_deltas, fill_fits, absorbed}
use package.tossinvest_rust.State.Projection.{ProjectedState, bump}
use package.tossinvest_rust.State.Projection.Observe.{
  observed_deltas, with_row, observe_known_open, observe_order_known,
}
use package.tossinvest_rust.State.Ops.{Op, step}
use package.tossinvest_rust.State.Store.{Store, apply, commit}

module _ {S : Scalars} where
  quiet :
      (o : Order S) (key : OrderKey) (view : OrderView)
      → o.status ≡ view.status
      → S.ltb (parse_dec S view.filled) o.execution.filled_quantity ≡ false
      → observed_deltas key view o ≡ []
  unfolding observed_deltas fill_deltas
  quiet o key view same no_fill =
      rw no_fill (if_pos (OrderStatus-discrete o.status view.status) same _ _)

  stepped :
      (s : ProjectedState S) (o : Order S) (key : OrderKey) (view : OrderView)
      → get o.order_id s.server_index ≡ some key
      → get key s.orders ≡ some view
      → is_terminal view ≡ false
      → S.ltb (parse_dec S view.filled) o.execution.filled_quantity ≡ false
      → observed_deltas key view o ≡ []
      → step (Op.observe_order o) s ≡ some (with_row s key (absorbed view o), [])
  unfolding step bump fill_fits
  stepped s o key view indexed row open_row no_fill none_reported =
      observe_order_known s o indexed row (rw (open_row, no_fill) refl)
      ∙ ap some (
          observe_known_open s key view o open_row
          ∙ ap (bump (with_row s key (absorbed view o))) none_reported)

  -- An observation of a tracked open row that brings the status that the row has and no new fill
  -- rewrites the row in the canonical copy, with the lifecycle of that status, but reports nothing:
  -- the published snapshot, the deltas sent and the generation stay as they were.
  pub apply-unpublished :
      (st : Store S) (o : Order S) (key : OrderKey) (view : OrderView)
      → get o.order_id st.write.server_index ≡ some key
      → get key st.write.orders ≡ some view
      → is_terminal view ≡ false
      → o.status ≡ view.status
      → S.ltb (parse_dec S view.filled) o.execution.filled_quantity ≡ false
      → (st' : Store S) × (apply st (Op.observe_order o) ≡ some (st', []))
        × (get key st'.write.orders ≡ some (absorbed view o))
        × ((absorbed view o).lifecycle ≡ lifecycle_for o.status false)
        × (st'.state ≡ st.state)
        × (st'.sent ≡ st.sent)
        × (st'.write.generation ≡ st.write.generation)
  unfolding apply commit absorbed absorb
  apply-unpublished st o key view indexed row open_row same no_fill =
      let moved =
        stepped st.write o key view indexed row open_row no_fill (quiet o key view same no_fill) in
      (
        record st { write = with_row st.write key (absorbed view o) },
        rw (moved, apply),
        HashMap.get-insert_self key (absorbed view o) st.write.orders,
        refl,
        refl,
        refl,
        refl,
      )
