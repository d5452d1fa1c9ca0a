-- ===== src/State/Store/Laws.antt =====
-- crates/tossinvest-state/src/runtime.rs, `Store::apply`: the snapshot against the canonical copy,
-- when the mutations are applied one after the other.
use mathlib.Core.Path.{subst}
use package.tossinvest_rust.Common.{
  ◌≡◌, refl, sym, ◌∙◌, some, List, [], ◌∷◌, All, if◌then◌else◌, Option-cases, inl, inr, none≢some,
  some_injective,
}
use package.tossinvest_rust.Model.Scalar.{Scalars}
use package.tossinvest_rust.State.Event.{Delta}
use package.tossinvest_rust.State.Rows.{is_empty, next_u64}
use package.tossinvest_rust.State.Projection.{ProjectedState}
use package.tossinvest_rust.State.Generation.{step-generation}
use package.tossinvest_rust.State.Invariant.{Inv}
use package.tossinvest_rust.State.Invariant.Runs.{step-Inv_at, new-Inv}
use package.tossinvest_rust.State.Fills.{Fills, IsMildOp, step-Fills, new-Fills}
use package.tossinvest_rust.State.Ops.{Op, step, IsRuntimeOp}
use package.tossinvest_rust.State.Store.{Store, new_store, commit, apply, apply_all}

module _ {S : Scalars} where
  -- The canonical copy keeps the invariant, and the snapshot has its generation.
  pub record InStep (st : Store S) : Type 0 where
    pub valid : Inv st.write
    pub published : st.state.generation ≡ st.write.generation

  commit-InStep :
      (st : Store S) (r : ProjectedState S × List Delta)
      → InStep st
      → Inv r.0
      → r.0.generation
        ≡ (if is_empty r.1 then st.write.generation else next_u64 st.write.generation)
      → InStep (commit st r)
  unfolding commit
  commit-InStep st (w, []) h i e = record { valid = i; published = h.published ∙ sym e }
  commit-InStep st (w, d ∷ ds) h i e = record { valid = i; published = refl }

  pub apply-InStep :
      (op : Op S) (st : Store S) (p : Store S × List Delta)
      → InStep st
      → IsRuntimeOp op
      → apply st op ≡ some p
      → InStep p.0
  unfolding apply
  apply-InStep op st p h own ran = elim (Option-cases (step op st.write)) [
    | inl failed ↦ absurd (none≢some (rw (failed, apply) at ran))
    | inr (r, stepped) ↦
        subst (λ (x : Store S × List Delta). InStep x.0)
          (some_injective (rw (stepped, apply) at ran))
          (commit-InStep st r h (step-Inv_at op st.write r own h.valid stepped)
            (step-generation op st.write r stepped))
  ]

  pub apply_all-InStep :
      (ops : List (Op S)) (st st' : Store S)
      → InStep st
      → All IsRuntimeOp ops
      → apply_all st ops ≡ some st'
      → InStep st'
  unfolding apply_all
  apply_all-InStep [] st st' h own ran = subst InStep (some_injective ran) h
  apply_all-InStep (op ∷ ops) st st' h own ran = elim (Option-cases (apply st op)) [
    | inl failed ↦ absurd (none≢some (rw (failed, apply_all) at ran))
    | inr (p, applied) ↦
        apply_all-InStep ops p.0 st' (apply-InStep op st p h own.0 applied) own.1
          (rw (applied, apply_all) at ran)
  ]

  -- A store in step whose canonical copy has no negative filled quantity.
  pub record Ready (st : Store S) : Type 0 where
    pub in_step : InStep st
    pub fills : Fills S st.write.orders

  commit-write : (st : Store S) (r : ProjectedState S × List Delta) → (commit st r).write ≡ r.0
  unfolding commit
  commit-write st (w, []) = refl
  commit-write st (w, d ∷ ds) = refl

  pub apply-Ready :
      (op : Op S) (st : Store S)
      → IsRuntimeOp op
      → IsMildOp op
      → Ready st
      → (p : Store S × List Delta) × (apply st op ≡ some p) × Ready p.0
  unfolding apply
  apply-Ready op st own mild h =
      let (r, stepped, fills) = step-Fills op st.write mild h.in_step.valid h.fills in
      let applied : apply st op ≡ some (commit st r, r.1) = rw (stepped, apply) refl in
      (
        (commit st r, r.1),
        applied,
        record {
          in_step = apply-InStep op st (commit st r, r.1) h.in_step own applied;
          fills =
              subst (λ (w : ProjectedState S). Fills S w.orders) (sym (commit-write st r)) fills;
        },
      )

  pub apply_all-Ready :
      (ops : List (Op S)) (st : Store S)
      → All IsRuntimeOp ops
      → All IsMildOp ops
      → Ready st
      → (st' : Store S) × (apply_all st ops ≡ some st') × Ready st'
  unfolding apply_all
  apply_all-Ready [] st own mild h = (st, refl, h)
  apply_all-Ready (op ∷ ops) st own mild h =
      let (p, applied, h') = apply-Ready op st own.0 mild.0 h in
      let (q, ran, h'') = apply_all-Ready ops p.0 own.1 mild.1 h' in
      (q, rw (applied, apply_all) ran, h'')

pub new_store-Ready : (S : Scalars) → Ready (new_store S)
unfolding new_store
new_store-Ready S = record {
  in_step = record { valid = new-Inv S; published = refl };
  fills = new-Fills S;
}

-- From a fresh store the mutations that the runtime makes, applied one after the other, all return
-- if no order that they observe has a negative filled quantity: the canonical copy then keeps the
-- invariant, and the published snapshot has its generation.
pub apply_all-new :
    {S : Scalars} (ops : List (Op S))
    → All IsRuntimeOp ops
    → All IsMildOp ops
    → (st : Store S) × (apply_all (new_store S) ops ≡ some st)
      × Inv st.write
      × (st.state.generation ≡ st.write.generation)
apply_all-new {S} ops own mild =
    let (st, ran, kept) = apply_all-Ready ops (new_store S) own mild (new_store-Ready S) in
    (st, ran, kept.in_step.valid, kept.in_step.published)
