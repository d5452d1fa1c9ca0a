-- ===== src/State/Store/Races.antt =====
-- crates/tossinvest-state/src/runtime.rs, `Store::apply` on several threads. The lock covers the fold
-- alone: a thread that folded a mutation with deltas publishes its copy later, and then sends the
-- deltas one by one. The pump, `spawn_refresh` and `spawn_holdings` are such threads.
pub mod Published
pub mod OneWriter
pub mod Stale
use package.tossinvest_rust.Common.{ℕ, ◌≡◌, some, List, [], ◌∷◌, ◌++◌}
use package.tossinvest_rust.Common.Table.{update}
use package.tossinvest_rust.Model.Scalar.{Scalars}
use package.tossinvest_rust.State.Event.{Delta}
use package.tossinvest_rust.State.Projection
use package.tossinvest_rust.State.Projection.{ProjectedState}
use package.tossinvest_rust.State.Ops.{Op, step, IsRuntimeOp}

-- Where a thread stands in `apply`.
pub data Pc (S : Scalars) : Type 0 where
  idle : Pc S
  publishing : ProjectedState S → List Delta → Pc S
  notifying : List Delta → Pc S

-- `folds` lists the canonical copies that were folded for publication, the latest first, and the
-- first snapshot at the end.
pub record Racing (S : Scalars) : Type 0 where
  pub state : ProjectedState S
  pub write : ProjectedState S
  pub sent : List Delta
  pub pc : ℕ → Pc S
  pub folds : List (ProjectedState S)

abbrev pub initial : (S : Scalars) → Racing S
initial S = record {
  state = Projection.new S;
  write = Projection.new S;
  sent = [];
  pc = λ _. idle;
  folds = Projection.new S ∷ [];
}

module _ {S : Scalars} where
  -- The critical section: without deltas `apply` returns at once.
  unfoldable pub folded : Racing S → ℕ → ProjectedState S × List Delta → Racing S
  folded s i (w, []) = record s { write = w }
  folded s i (w, d ∷ ds) = record s {
    write = w;
    pc = update s.pc i (publishing w (d ∷ ds));
    folds = w ∷ s.folds;
  }

  pub data Move (s : Racing S) (i : ℕ) : Racing S → Type 0 where
    fold :
        (op : Op S) (r : ProjectedState S × List Delta)
        → s.pc i ≡ idle
        → IsRuntimeOp op
        → step op s.write ≡ some r
        → Move s i (folded s i r)
    publish :
        (snapshot : ProjectedState S) (ds : List Delta)
        → s.pc i ≡ publishing snapshot ds
        → Move s i (record s { state = snapshot; pc = update s.pc i (notifying ds) })
    notify :
        (d : Delta) (ds : List Delta)
        → s.pc i ≡ notifying (d ∷ ds)
        → Move s i (record s { sent = s.sent ++ d ∷ []; pc = update s.pc i (notifying ds) })
    finish : s.pc i ≡ notifying [] → Move s i (record s { pc = update s.pc i idle })

  -- Moves of any threads, and moves of the one thread 0.
  pub data Moves (s : Racing S) : Racing S → Type 0 where
    here : Moves s s
    next : {t u : Racing S} (i : ℕ) → Moves s t → Move t i u → Moves s u

  pub data Solo (s : Racing S) : Racing S → Type 0 where
    begin : Solo s s
    more : {t u : Racing S} → Solo s t → Move t 0 u → Solo s u

  pub trans : {s t u : Racing S} → Moves s t → Moves t u → Moves s u
  trans m here = m
  trans m (next i n move) = next i (trans m n) move
