-- ===== src/State/Store/Races/Published.antt =====
-- crates/tossinvest-state/src/runtime.rs, `Store::apply`: what a snapshot can be, whatever the order
-- in which the threads move.
use mathlib.Core.Path.{subst}
use mathlib.Core.List.{Memᴰ}
use package.tossinvest_rust.Common.{ℕ, refl, List, [], ◌∷◌}
use package.tossinvest_rust.Common.Table.{update, update_all}
use package.tossinvest_rust.Model.Scalar.{Scalars}
use package.tossinvest_rust.State.Event.{Delta}
use package.tossinvest_rust.State.Projection.{ProjectedState}
use package.tossinvest_rust.State.Invariant.{Inv}
use package.tossinvest_rust.State.Invariant.Runs.{step-Inv_at, new-Inv}
use package.tossinvest_rust.State.Store.Races.{
  Pc, idle, publishing, notifying, Racing, initial, folded, Move, fold, publish, notify, finish,
  Moves, here, next,
}

module _ {S : Scalars} where
  abbrev pub Waiting : List (ProjectedState S) → Pc S → Type 0
  Waiting folds (publishing w ds) = Memᴰ w folds
  Waiting folds _ = Unit

  -- The canonical copy keeps the invariant; the snapshot, and what waits to be published, are copies
  -- that were folded.
  record Kept (s : Racing S) : Type 0 where
    valid : Inv s.write
    past : Memᴰ s.state s.folds
    waiting : (j : ℕ) → Waiting s.folds (s.pc j)

  Waiting-cons :
      (w : ProjectedState S) (folds : List (ProjectedState S)) (p : Pc S)
      → Waiting folds p
      → Waiting (w ∷ folds) p
  Waiting-cons w folds idle h = tt
  Waiting-cons w folds (publishing v ds) h = Memᴰ.tail h
  Waiting-cons w folds (notifying ds) h = tt

  Waiting-update :
      (folds : List (ProjectedState S)) (pc : ℕ → Pc S) (i : ℕ) (p : Pc S)
      → ((j : ℕ) → Waiting folds (pc j))
      → Waiting folds p
      → (j : ℕ) → Waiting folds (update pc i p j)
  Waiting-update folds pc i p h own = update_all (λ j q. Waiting folds q) pc i p (λ j ne. h j) own

  folded-Kept :
      (s : Racing S) (i : ℕ) (r : ProjectedState S × List Delta)
      → Kept s
      → Inv r.0
      → Kept (folded s i r)
  unfolding folded
  folded-Kept s i (w, []) k v = record { valid = v; past = k.past; waiting = k.waiting }
  folded-Kept s i (w, d ∷ ds) k v = record {
    valid = v;
    past = Memᴰ.tail k.past;
    waiting =
        Waiting-update (w ∷ s.folds) s.pc i (publishing w (d ∷ ds))
          (λ j. Waiting-cons w s.folds (s.pc j) (k.waiting j)) (Memᴰ.head refl);
  }

  Move-Kept : {s : Racing S} {i : ℕ} {t : Racing S} → Move s i t → Kept s → Kept t
  Move-Kept {s} {i} (fold op r e ok ran) k =
      folded-Kept s i r k (step-Inv_at op s.write r ok k.valid ran)
  Move-Kept {s} {i} (publish w ds e) k = record {
    valid = k.valid;
    past = subst (Waiting s.folds) e (k.waiting i);
    waiting = Waiting-update s.folds s.pc i (notifying ds) k.waiting tt;
  }
  Move-Kept {s} {i} (notify d ds e) k = record {
    valid = k.valid;
    past = k.past;
    waiting = Waiting-update s.folds s.pc i (notifying ds) k.waiting tt;
  }
  Move-Kept {s} {i} (finish e) k = record {
    valid = k.valid;
    past = k.past;
    waiting = Waiting-update s.folds s.pc i idle k.waiting tt;
  }

  Moves-Kept : {s t : Racing S} → Moves s t → Kept s → Kept t
  Moves-Kept here k = k
  Moves-Kept (next i m move) k = Move-Kept move (Moves-Kept m k)

-- In every interleaving of the threads' calls of `apply`: the canonical copy keeps the invariant, the
-- published snapshot is a canonical copy that some thread folded (or the first one), and what a
-- thread has folded and not yet published is such a copy too.
pub published_past :
    {S : Scalars} (s : Racing S)
    → Moves (initial S) s
    → Inv s.write × Memᴰ s.state s.folds × ((j : ℕ) → Waiting s.folds (s.pc j))
published_past {S} s m =
    let fresh : Kept (initial S) = record {
      valid = new-Inv S;
      past = Memᴰ.head refl;
      waiting = λ j. tt;
    } in
    let k = Moves-Kept m fresh in (k.valid, k.past, k.waiting)
