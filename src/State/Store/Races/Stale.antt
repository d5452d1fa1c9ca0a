-- ===== src/State/Store/Races/Stale.antt =====
-- crates/tossinvest-state/src/runtime.rs, `Store::apply` on two threads: the copy is published after
-- the lock is released, so the copies can be published in the other order.
use mathlib.Core.Path.{subst}
use package.tossinvest_rust.Common.{
  ℕ, ◌≡◌, ◌≢◌, refl, sym, ◌∙◌, some, List, [], ◌∷◌, ◌++◌, false, ap, Bool, if◌then◌else◌,
}
use package.tossinvest_rust.Common.Table.{update, update_self, update_ne}
use package.tossinvest_rust.Model.Scalar.{Scalars}
use package.tossinvest_rust.State.Event.{Delta}
use package.tossinvest_rust.State.Rows.{is_empty, next_u64}
use package.tossinvest_rust.State.Projection.{ProjectedState}
use package.tossinvest_rust.State.Ops.{Op, step, IsRuntimeOp}
use package.tossinvest_rust.State.Generation.{step-generation}
use package.tossinvest_rust.State.Store.Races.{
  idle, publishing, notifying, Racing, folded, fold, publish, notify, finish, Moves, here, next,
  trans,
}

module _ {S : Scalars} where
  -- What a run of thread i alone leaves: the copies as they were and the other threads where they
  -- stood.
  record Left (s : Racing S) (i : ℕ) (state : ProjectedState S) (t : Racing S) : Type 0 where
    done : t.pc i ≡ idle
    others : (j : ℕ) → i ≢ j → t.pc j ≡ s.pc j
    write_kept : t.write ≡ s.write
    shown : t.state ≡ state

  -- A thread that has published can send its deltas and return.
  drain :
      (ds : List Delta) (s : Racing S) (i : ℕ)
      → s.pc i ≡ notifying ds
      → (t : Racing S) × Moves s t × Left s i s.state t
  drain [] s i e = (
    record s { pc = update s.pc i idle },
    next i here (finish e),
    record {
      done = update_self s.pc i idle;
      others = λ j ne. update_ne s.pc i j idle ne;
      write_kept = refl;
      shown = refl;
    },
  )
  drain (d ∷ ds) s i e =
      let s' : Racing S = record s { sent = s.sent ++ d ∷ []; pc = update s.pc i (notifying ds) } in
      let (t, m, l) = drain ds s' i (update_self s.pc i (notifying ds)) in
      (
        t,
        trans (next i here (notify d ds e)) m,
        record {
          done = l.done;
          others = λ j ne. l.others j ne ∙ update_ne s.pc i j (notifying ds) ne;
          write_kept = l.write_kept;
          shown = l.shown;
        },
      )

  -- A thread that has folded can publish its copy, send its deltas and return.
  release :
      (s : Racing S) (i : ℕ) (w : ProjectedState S) (ds : List Delta)
      → s.pc i ≡ publishing w ds
      → (t : Racing S) × Moves s t × Left s i w t
  release s i w ds e =
      let s' : Racing S = record s { state = w; pc = update s.pc i (notifying ds) } in
      let (t, m, l) = drain ds s' i (update_self s.pc i (notifying ds)) in
      (
        t,
        trans (next i here (publish w ds e)) m,
        record {
          done = l.done;
          others = λ j ne. l.others j ne ∙ update_ne s.pc i j (notifying ds) ne;
          write_kept = l.write_kept;
          shown = l.shown;
        },
      )

  -- The state after thread i has folded, its result having deltas.
  folded-publishing :
      (s : Racing S) (i : ℕ) (r : ProjectedState S × List Delta)
      → is_empty r.1 ≡ false
      → (folded s i r).pc ≡ update s.pc i (publishing r.0 r.1)
  unfolding folded
  folded-publishing s i (w, []) h = cc
  folded-publishing s i (w, d ∷ ds) h = refl

  folded-write :
      (s : Racing S) (i : ℕ) (r : ProjectedState S × List Delta) → (folded s i r).write ≡ r.0
  unfolding folded
  folded-write s i (w, []) = refl
  folded-write s i (w, d ∷ ds) = refl

counted : {e : Bool} {m k : ℕ} (n : ℕ) → m ≡ (if e then n else k) → e ≡ false → m ≡ k
counted {e} {m} {k} n h f = subst (λ e'. m ≡ (if e' then n else k)) f h

-- Two threads i and j stand outside `apply`, each with a mutation, and j's follows i's in the
-- canonical copy; both report deltas. Then there is an interleaving after which both have returned
-- and the published snapshot is i's copy although the canonical copy is j's, one generation later.
pub publication-overtaken :
    {S : Scalars} (s : Racing S) (i j : ℕ) (a b : Op S) (ra rb : ProjectedState S × List Delta)
    → i ≢ j
    → s.pc i ≡ idle
    → s.pc j ≡ idle
    → IsRuntimeOp a
    → IsRuntimeOp b
    → step a s.write ≡ some ra
    → step b ra.0 ≡ some rb
    → is_empty ra.1 ≡ false
    → is_empty rb.1 ≡ false
    → (t : Racing S) × Moves s t
      × (t.pc i ≡ idle)
      × (t.pc j ≡ idle)
      × (t.state ≡ ra.0)
      × (t.write ≡ rb.0)
      × (t.write.generation ≡ next_u64 t.state.generation)
publication-overtaken {S} s i j a b ra rb ne ei ej oka okb rana ranb da db =
    let s1 : Racing S = folded s i ra in
    let s2 : Racing S = folded s1 j rb in
    let pc1 = folded-publishing s i ra da in
    let pc2 = folded-publishing s1 j rb db in
    let j1 : s1.pc j ≡ idle =
      ap (λ f. f j) pc1 ∙ update_ne s.pc i j (publishing ra.0 ra.1) ne ∙ ej in
    let i1 = ap (λ f. f i) pc1 ∙ update_self s.pc i (publishing ra.0 ra.1) in
    let i2 =
      ap (λ f. f i) pc2 ∙ update_ne s1.pc j i (publishing rb.0 rb.1) (λ e. ne (sym e)) ∙ i1 in
    let j2 = ap (λ f. f j) pc2 ∙ update_self s1.pc j (publishing rb.0 rb.1) in
    let ran2 : step b s1.write ≡ some rb =
      subst (λ w. step b w ≡ some rb) (sym (folded-write s i ra)) ranb in
    let (t, mt, lt) = release s2 j rb.0 rb.1 j2 in
    let i3 = lt.others i (λ e. ne (sym e)) ∙ i2 in
    let (u, mu, lu) = release t i ra.0 ra.1 i3 in
    let written : u.write ≡ rb.0 = lu.write_kept ∙ lt.write_kept ∙ folded-write s1 j rb in
    (
      u,
      trans (next j (next i here (fold a ra ei oka rana)) (fold b rb j1 okb ran2)) (trans mt mu),
      lu.done,
      lu.others j ne ∙ lt.done,
      lu.shown,
      written,
      ap (λ w. w.generation) written
          ∙ counted ra.0.generation (step-generation b ra.0 rb ranb) db
          ∙ ap (λ w. next_u64 w.generation) (sym lu.shown),
    )
