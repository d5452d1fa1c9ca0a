-- ===== src/State/Generation.antt =====
-- crates/tossinvest-state/src/core/state.rs: the generation counts the mutations that report a change.
use package.tossinvest_rust.Common.{
  String, ℕ, none≢some, ◌≡◌, refl, sym, ap, ◌∙◌, some, List, [], ◌∷◌, inl, inr, if◌then◌else◌,
  Option-cases, Bool-cases, some_injective, string_key,
}
use mathlib.Core.Path.{subst}
use package.tossinvest_rust.Common.HashMap.{get}
use package.tossinvest_rust.Model.Scalar.{Scalars}
use package.tossinvest_rust.Model.Orders.{OrderId, Order}
use package.tossinvest_rust.State.Event.{OrderKey, local, order_key_key, OpKind, Delta}
use package.tossinvest_rust.State.View.{OrderView, is_terminal}
use package.tossinvest_rust.State.Rows.{next_u64, is_empty}
use package.tossinvest_rust.State.Projection.{
  ProjectedState, bump, observe_known, observe_new, observe_order, submit_optimistic, rekey,
  confirm, submit_failed, op_submitted, update_holdings, price_tick, stop,
}
use package.tossinvest_rust.State.Projection.Observe.{
  observe_known_closed, observe_known_open, observe_order_new, observe_order_returned,
  observe_order_lost,
}
use package.tossinvest_rust.State.Ops.{Op, step}

module _ {S : Scalars} where
  -- One more if there is something to report, and the same number if there is not.
  abbrev pub Counted : ProjectedState S → ProjectedState S × List Delta → Type 0
  Counted s r = r.0.generation ≡ (if is_empty r.1 then s.generation else next_u64 s.generation)

  bump-Counted :
      (s t : ProjectedState S) (ds : List Delta)
      → t.generation ≡ s.generation
      → Counted s (bump t ds)
  unfolding bump
  bump-Counted s t [] e = e
  bump-Counted s t (d ∷ ds) e = ap next_u64 e

  observe_known-Counted :
      (s : ProjectedState S) (k : OrderKey) (v : OrderView) (o : Order S)
      → Counted s (observe_known s k v o)
  observe_known-Counted s k v o = elim (Bool-cases (is_terminal v)) [
    | inl shut ↦ rw (observe_known_closed s k v o shut)
    | inr open_row ↦ rw (observe_known_open s k v o open_row) (bump-Counted s _ _ refl)
  ]

  observe_order-Counted :
      (s : ProjectedState S) (o : Order S) (r : ProjectedState S × List Delta)
      → observe_order s o ≡ some r
      → Counted s r
  unfolding observe_new
  observe_order-Counted s o r e = elim (Option-cases (get o.order_id s.server_index)) [
    | inl unseen ↦
        subst (Counted s) (some_injective (sym (observe_order_new s o unseen) ∙ e))
          (bump-Counted s _ _ refl)
    | inr (k, seen) ↦ elim (Option-cases (get k s.orders)) [
      | inl lost ↦ absurd (none≢some (sym (observe_order_lost s o seen lost) ∙ e))
      | inr (v, found) ↦
          subst (Counted s) (observe_order_returned s o seen found e)
            (observe_known-Counted s k v o)
    ]
  ]

  rekey-Counted : (s : ProjectedState S) (n : ℕ) (sid : OrderId) → Counted s (rekey s n sid)
  unfolding rekey
  rekey-Counted s n sid = elim (Option-cases (get (local n) s.orders)) [
    | inl missing ↦ rw (missing, rekey)
    | inr (w, found) ↦ rw (found, rekey) (bump-Counted s _ _ refl)
  ]

  confirm-Counted : (s : ProjectedState S) (n : ℕ) (sid : OrderId) → Counted s (confirm s n sid)
  unfolding confirm
  confirm-Counted s n sid = elim (Option-cases (get sid s.server_index)) [
    | inl unseen ↦ rw (unseen, confirm) (rekey-Counted s n sid)
    | inr (k, seen) ↦ rw (seen, confirm) (bump-Counted s _ _ refl)
  ]

  submit_failed-Counted :
      (s : ProjectedState S) (k : OrderKey) (message : String)
      → Counted s (submit_failed s k message)
  unfolding submit_failed
  submit_failed-Counted s k message = elim (Option-cases (get k s.orders)) [
    | inl missing ↦ rw (missing, submit_failed) (bump-Counted s s _ refl)
    | inr (w, found) ↦ rw (found, submit_failed) (bump-Counted s _ _ refl)
  ]

  op_submitted-Counted :
      (s : ProjectedState S) (sid : OrderId) (kind : OpKind) → Counted s (op_submitted s sid kind)
  unfolding op_submitted
  op_submitted-Counted s sid kind = elim (Option-cases (get sid s.server_index)) [
    | inl unseen ↦ rw (unseen, op_submitted)
    | inr (k, seen) ↦
        rw (seen, op_submitted)
          (bump-Counted s _ _ (elim (Option-cases (get k s.orders)) [
            | inl missing ↦ rw missing
            | inr (v, found) ↦ rw found (elim (Bool-cases (is_terminal v)) [
              | inl shut ↦ rw shut
              | inr open_row ↦ rw open_row
            ])
          ]))
  ]

  stop-Counted : (s : ProjectedState S) → Counted s (stop s)
  unfolding stop
  stop-Counted s = elim (Bool-cases s.is_stopped) [
    | inl old ↦ simp old
    | inr running ↦ simp running (bump-Counted s _ _ refl)
  ]

  -- Whatever the state, a mutation that reports deltas raises the generation by one (as a `u64`),
  -- and one that reports none leaves it.
  pub step-generation :
      (op : Op S) (s : ProjectedState S) (r : ProjectedState S × List Delta)
      → step op s ≡ some r
      → r.0.generation ≡ (if is_empty r.1 then s.generation else next_u64 s.generation)
  unfolding step update_holdings price_tick submit_optimistic
  step-generation (Op.observe_order o) s r e = observe_order-Counted s o r e
  step-generation (Op.submit_optimistic n intent) s r e =
      subst (Counted s) (some_injective e) (bump-Counted s _ _ refl)
  step-generation (Op.confirm n sid) s r e =
      subst (Counted s) (some_injective e) (confirm-Counted s n sid)
  step-generation (Op.submit_failed k message) s r e =
      subst (Counted s) (some_injective e) (submit_failed-Counted s k message)
  step-generation (Op.op_submitted sid kind) s r e =
      subst (Counted s) (some_injective e) (op_submitted-Counted s sid kind)
  step-generation (Op.update_holdings x) s r e =
      subst (Counted s) (some_injective e) (bump-Counted s _ _ refl)
  step-generation (Op.price_tick p) s r e =
      subst (Counted s) (some_injective e) (bump-Counted s _ _ refl)
  step-generation Op.stop s r e = subst (Counted s) (some_injective e) (stop-Counted s)
