-- ===== src/State/Pump/Invalidation.antt =====
-- crates/tossinvest-state/src/runtime.rs: which commands mark the holdings stale.
use mathlib.Core.Path.{subst}
use mathlib.Core.List.{append-nil, append_assoc}
use package.tossinvest_rust.Common.{
  String, ℕ, ◌≡◌, refl, sym, ap, ◌∙◌, false, ◌||◌, some, List, [], ◌∷◌, ◌++◌, any, any-append,
  arith, Bool-cases, Option-cases, inl, inr, some_injective, none≢some, string_key,
}
use package.tossinvest_rust.Common.HashMap.{get}
use package.tossinvest_rust.Model.Scalar.{Scalars}
use package.tossinvest_rust.Model.Orders.{OrderId, Order, PriceResponse}
use package.tossinvest_rust.State.Event.{OrderKey, local, Delta, OpKind, order_key_key}
use package.tossinvest_rust.State.Rows.{OptimisticOrder}
use package.tossinvest_rust.State.Projection.{
  ProjectedState, bump, submit_optimistic, rekey, confirm, submit_failed, op_submitted, price_tick,
}
use package.tossinvest_rust.State.Ops.{Op, step, >>=-eq-some}
use package.tossinvest_rust.State.Store.{Store, commit, apply}
use package.tossinvest_rust.State.Pump.{
  Pump, is_stale, mark_invalidation, mutate, observe, observe_all, tick_all,
}

module _ {S : Scalars} where
  bump-deltas : (s : ProjectedState S) (ds : List Delta) → (bump s ds).1 ≡ ds
  unfolding bump
  bump-deltas s [] = refl
  bump-deltas s (d ∷ ds) = refl

  commit-sent :
      (st : Store S) (r : ProjectedState S × List Delta) → (commit st r).sent ≡ st.sent ++ r.1
  unfolding commit
  commit-sent st (w, []) = sym (append-nil st.sent)
  commit-sent st (w, d ∷ ds) = refl

  commit-write : (st : Store S) (r : ProjectedState S × List Delta) → (commit st r).write ≡ r.0
  unfolding commit
  commit-write st (w, []) = refl
  commit-write st (w, d ∷ ds) = refl

  applied :
      (st : Store S) (op : Op S) (r : ProjectedState S × List Delta)
      → step op st.write ≡ some r
      → apply st op ≡ some (commit st r, r.1)
  unfolding apply
  applied st op r stepped = rw (stepped, apply)

  pub apply-sent :
      (st : Store S) (op : Op S) (p : Store S × List Delta)
      → apply st op ≡ some p
      → (step op st.write ≡ some (p.0.write, p.1)) × (p.0.sent ≡ st.sent ++ p.1)
  unfolding apply
  apply-sent st op p h = elim (Option-cases (step op st.write)) [
    | inl panics ↦ absurd (none≢some (sym (rw (panics, apply)) ∙ h))
    | inr (r, stepped) ↦
        subst (λ q. (step op st.write ≡ some (q.0.write, q.1)) × (q.0.sent ≡ st.sent ++ q.1))
          (some_injective (sym (applied st op r stepped) ∙ h))
          (stepped ∙ ap (λ w. some (w, r.1)) (sym (commit-write st r)), commit-sent st r)
  ]

  -- The mutations that report neither a fill nor a closed order.
  abbrev IsQuiet : Op S → Type 0
  IsQuiet op =
      (s : ProjectedState S) (r : ProjectedState S × List Delta)
      → step op s ≡ some r
      → any is_stale r.1 ≡ false

  confirm-quiet :
      (s : ProjectedState S) (n : ℕ) (id : OrderId) → any is_stale ((confirm s n id).1) ≡ false
  unfolding is_stale bump confirm rekey
  confirm-quiet s n id = elim (Option-cases (get id s.server_index)) [
    | inl unseen ↦ elim (Option-cases (get (local n) s.orders)) [
      | inl missing ↦ rw (unseen, confirm) (rw (missing, rekey))
      | inr (v, found) ↦ rw (unseen, confirm) (rw (found, rekey))
    ]
    | inr (k, seen) ↦ rw (seen, confirm)
  ]

  op_submitted-quiet :
      (s : ProjectedState S) (id : OrderId) (kind : OpKind)
      → any is_stale ((op_submitted s id kind).1) ≡ false
  unfolding is_stale bump op_submitted
  op_submitted-quiet s id kind = elim (Option-cases (get id s.server_index)) [
    | inl unseen ↦ rw (unseen, op_submitted)
    | inr (k, seen) ↦ rw (seen, op_submitted)
  ]

  pub IsQuiet-submit_optimistic :
      (n : ℕ) (intent : OptimisticOrder) → IsQuiet (Op.submit_optimistic n intent)
  unfolding step submit_optimistic is_stale bump
  IsQuiet-submit_optimistic n intent s r h = ap (λ x. any is_stale x.1) (sym (some_injective h))

  pub IsQuiet-confirm : (n : ℕ) (id : OrderId) → IsQuiet (Op.confirm n id)
  unfolding step
  IsQuiet-confirm n id s r h =
      ap (λ x. any is_stale x.1) (sym (some_injective h)) ∙ confirm-quiet s n id

  pub IsQuiet-submit_failed :
      (k : OrderKey) (message : String) → IsQuiet (Op.submit_failed k message)
  unfolding step submit_failed is_stale bump
  IsQuiet-submit_failed k message s r h = ap (λ x. any is_stale x.1) (sym (some_injective h))

  pub IsQuiet-op_submitted : (id : OrderId) (kind : OpKind) → IsQuiet (Op.op_submitted id kind)
  unfolding step
  IsQuiet-op_submitted id kind s r h =
      ap (λ x. any is_stale x.1) (sym (some_injective h)) ∙ op_submitted-quiet s id kind

  IsQuiet-price_tick : (x : PriceResponse S) → IsQuiet (Op.price_tick x)
  unfolding step price_tick is_stale bump
  IsQuiet-price_tick x s r h = ap (λ y. any is_stale y.1) (sym (some_injective h))

  -- The deltas that went out, and the flag: it is set if one of them is a fill or a closed order, and
  -- keeps its value if none is.
  abbrev pub IsMarked : Pump S → Pump S → Type 0
  IsMarked p p' =
      (ds : List Delta) × (p'.store.sent ≡ p.store.sent ++ ds)
      × (p'.holdings_dirty ≡ (p.holdings_dirty || any is_stale ds))

  pub same-IsMarked : (p : Pump S) → IsMarked p p
  same-IsMarked p = ([], sym (append-nil p.store.sent), ground arith)

  pub then-IsMarked : (p q r : Pump S) → IsMarked p q → IsMarked q r → IsMarked p r
  then-IsMarked p q r (ds, sent, dirty) (es, sent', dirty') = (
    ds ++ es,
    sent' ∙ ap (λ x. x ++ es) sent ∙ append_assoc p.store.sent ds es,
    dirty' ∙ ground (arith, dirty, any-append is_stale ds es),
  )

  pub mutate-IsMarked :
      (op : Op S) → IsQuiet op → (p p' : Pump S) → mutate op p ≡ some p' → IsMarked p p'
  unfolding mutate
  mutate-IsMarked op quiet p p' h =
      let (q, applied, rest) = >>=-eq-some (apply p.store op) _ h in
      let (stepped, sent) = apply-sent p.store op q applied in
      subst (IsMarked p) (some_injective rest)
        (q.1, sent, ground (arith, quiet p.store.write (q.0.write, q.1) stepped))

  pub observe-IsMarked : (o : Order S) (p p' : Pump S) → observe o p ≡ some p' → IsMarked p p'
  unfolding observe mark_invalidation
  observe-IsMarked o p p' h =
      let (q, applied, rest) = >>=-eq-some (apply p.store (Op.observe_order o)) _ h in
      let (stepped, sent) = apply-sent p.store (Op.observe_order o) q applied in
      subst (IsMarked p) (some_injective rest) (elim (Bool-cases (any is_stale q.1)) [
        | inl stale ↦ rw stale (q.1, sent, ground (arith, stale))
        | inr fresh ↦ rw fresh (q.1, sent, ground (arith, fresh))
      ])

  pub observe_all-IsMarked :
      (os : List (Order S)) (p p' : Pump S) → observe_all os p ≡ some p' → IsMarked p p'
  unfolding observe_all
  observe_all-IsMarked [] p p' h = subst (IsMarked p) (some_injective h) (same-IsMarked p)
  observe_all-IsMarked (o ∷ os) p p' h =
      let (q, first, rest) = >>=-eq-some (observe o p) _ h in
      then-IsMarked p q p' (observe-IsMarked o p q first) (observe_all-IsMarked os q p' rest)

  pub tick_all-IsMarked :
      (xs : List (PriceResponse S)) (p p' : Pump S) → tick_all xs p ≡ some p' → IsMarked p p'
  unfolding tick_all
  tick_all-IsMarked [] p p' h = subst (IsMarked p) (some_injective h) (same-IsMarked p)
  tick_all-IsMarked (x ∷ xs) p p' h =
      let (q, first, rest) = >>=-eq-some (mutate (Op.price_tick x) p) _ h in
      then-IsMarked p q p' (mutate-IsMarked (Op.price_tick x) (IsQuiet-price_tick x) p q first)
        (tick_all-IsMarked xs q p' rest)
