-- ===== src/State/Store/Races/OneWriter.antt =====
-- crates/tossinvest-state/src/runtime.rs, `Store::apply` with the one writer that the file's header
-- promises.
use mathlib.Core.List.{append-nil, append_assoc}
use package.tossinvest_rust.Common.{
  ◌≡◌, refl, sym, ◌∙◌, ap, some, List, [], ◌∷◌, ◌++◌, All, ◌⊎◌, inl, inr, Option-cases, none≢some,
  some_injective,
}
use package.tossinvest_rust.Common.Table.{update_self}
use package.tossinvest_rust.Model.Scalar.{Scalars}
use package.tossinvest_rust.State.Event.{Delta}
use package.tossinvest_rust.State.Projection.{ProjectedState}
use package.tossinvest_rust.State.Ops.{Op, step, IsRuntimeOp}
use package.tossinvest_rust.State.Store.{Store, new_store, apply, apply_all, commit}
use package.tossinvest_rust.State.Store.Laws.{apply_all-InStep, new_store-Ready}
use package.tossinvest_rust.State.Store.Races.{
  Pc, idle, publishing, notifying, Racing, initial, folded, Move, fold, publish, notify, finish,
  Solo, begin, more,
}

module _ {S : Scalars} where
  -- The store of the sequential model once the thread has done what it still has to do.
  abbrev pub settled_at : Racing S → Pc S → Store S
  settled_at s idle = record { state = s.state; write = s.write; sent = s.sent }
  settled_at s (publishing w ds) = record { state = w; write = s.write; sent = s.sent ++ ds }
  settled_at s (notifying ds) = record { state = s.state; write = s.write; sent = s.sent ++ ds }

  abbrev pub settled : Racing S → Store S
  settled s = settled_at s (s.pc 0)

  -- Either a mutation of the sequential store, or nothing that it could see.
  abbrev Simulated : Racing S → Racing S → Type 0
  Simulated s t =
      (settled t ≡ settled s)
      ⊎ ((op : Op S) × IsRuntimeOp op
          × ((ds : List Delta) × (apply (settled s) op ≡ some (settled t, ds))))

  folded-settled :
      (s : Racing S) (r : ProjectedState S × List Delta)
      → s.pc 0 ≡ idle
      → settled (folded s 0 r) ≡ commit (settled_at s idle) r
  unfolding folded commit
  folded-settled s (w, []) e = rw e refl
  folded-settled s (w, d ∷ ds) e = rw (update_self s.pc 0 (publishing w (d ∷ ds))) refl

  fold-applies :
      (s : Racing S) (op : Op S) (r : ProjectedState S × List Delta)
      → s.pc 0 ≡ idle
      → step op s.write ≡ some r
      → apply (settled s) op ≡ some (settled (folded s 0 r), r.1)
  unfolding apply
  fold-applies s op r e ran = rw (folded-settled s r e, e) (rw (ran, apply) refl)

  -- What remains to be done is the same before and after every move but a fold.
  Move-Simulated : {s t : Racing S} → Move s 0 t → Simulated s t
  Move-Simulated {s} (fold op r e ok ran) = inr (op, ok, (r.1, fold-applies s op r e ran))
  Move-Simulated {s} (publish w ds e) = inl (rw (update_self s.pc 0 (notifying ds), e) refl)
  Move-Simulated {s} (notify d ds e) =
      inl (rw (update_self s.pc 0 (notifying ds), e) (rw (append_assoc s.sent (d ∷ []) ds) refl))
  Move-Simulated {s} (finish e) =
      inl (rw (update_self s.pc 0 idle, e) (rw (append-nil s.sent) refl))

  apply_all-snoc :
      (ops : List (Op S)) (st : Store S) (op : Op S) {st' st'' : Store S} {ds : List Delta}
      → apply_all st ops ≡ some st'
      → apply st' op ≡ some (st'', ds)
      → apply_all st (ops ++ op ∷ []) ≡ some st''
  unfolding apply_all
  apply_all-snoc [] st op {st'} {st''} {ds} ran last =
      rw (some_injective ran) (rw (last, apply_all) refl)
  apply_all-snoc (o ∷ ops) st op ran last = elim (Option-cases (apply st o)) [
    | inl lost ↦ absurd (none≢some (sym (rw (lost, apply_all) refl) ∙ ran))
    | inr (q, applied) ↦
        rw (applied, apply_all)
          (apply_all-snoc ops q.0 op (sym (rw (applied, apply_all) refl) ∙ ran) last)
  ]

  All-snoc :
      (ops : List (Op S)) (op : Op S)
      → All IsRuntimeOp ops
      → IsRuntimeOp op
      → All IsRuntimeOp (ops ++ op ∷ [])
  All-snoc [] op h own = (own, tt)
  All-snoc (o ∷ ops) op h own = (h.0, All-snoc ops op h.1 own)

  -- A list of mutations whose sequential run ends in the store that the thread still has to finish.
  abbrev Refines : Racing S → Type 0
  Refines s =
      (ops : List (Op S)) × All IsRuntimeOp ops × (apply_all (new_store S) ops ≡ some (settled s))

  Solo-Refines : {s : Racing S} → Solo (initial S) s → Refines s
  unfolding apply_all new_store
  Solo-Refines begin = ([], tt, refl)
  Solo-Refines (more solo move) =
      let (ops, ok, ran) = Solo-Refines solo in
      elim (Move-Simulated move) [
        | inl same ↦ (ops, ok, ran ∙ ap some (sym same))
        | inr (op, own, (ds, applied)) ↦ (
          ops ++ op ∷ [],
          All-snoc ops op ok own,
          apply_all-snoc ops (new_store S) op ran applied,
        )
      ]

-- With one thread that mutates, every state that it reaches from the start stands for a sequential
-- run: there are mutations of the runtime that `apply_all` makes, one after the other, on a fresh
-- store, and that end in the store that the thread leaves when it has published and sent what it
-- holds. So the snapshot of that store has the generation of its canonical copy.
pub one_writer-refines :
    {S : Scalars} (s : Racing S)
    → Solo (initial S) s
    → (ops : List (Op S)) × All IsRuntimeOp ops
      × (apply_all (new_store S) ops ≡ some (settled s))
      × ((settled s).state.generation ≡ (settled s).write.generation)
one_writer-refines {S} s solo =
    let (ops, ok, ran) = Solo-Refines solo in
    let kept = apply_all-InStep ops (new_store S) (settled s) (new_store-Ready S).in_step ok ran in
    (ops, ok, ran, kept.published)
