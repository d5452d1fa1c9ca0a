-- ===== src/State/Store.antt =====
-- crates/tossinvest-state/src/runtime.rs, `Store`: the canonical copy, the published snapshot and the
-- broadcast of deltas. `none` is a panic inside the mutation.
pub mod Laws
pub mod Stale
pub mod Races
use package.tossinvest_rust.Common.{Option, none, some, List, [], ◌∷◌, ◌++◌, if◌then◌else◌}
use package.tossinvest_rust.Model.Scalar.{Scalars}
use package.tossinvest_rust.State.Event.{Delta}
use package.tossinvest_rust.State.Rows.{is_empty}
use package.tossinvest_rust.State.Projection
use package.tossinvest_rust.State.Projection.{ProjectedState}
use package.tossinvest_rust.State.Ops.{Op, step}

pub record Store (S : Scalars) : Type 0 where
  pub state : ProjectedState S
  pub write : ProjectedState S
  pub sent : List Delta

module _ (S : Scalars) where
  unfoldable pub new_store : Store S
  new_store = record { state = Projection.new S; write = Projection.new S; sent = [] }

module _ {S : Scalars} where
  -- What `apply` does with the result of the mutation: nothing to publish if there are no deltas.
  unfoldable pub commit : Store S → ProjectedState S × List Delta → Store S
  commit st (w, ds) =
      if is_empty ds
      then record st { write = w }
      else record { state = w; write = w; sent = st.sent ++ ds }

  unfoldable pub apply : Store S → Op S → Option (Store S × List Delta)
  unfolding commit
  apply st op = elim (step op st.write) [ none ↦ none | some r ↦ some (commit st r, r.1) ]

  -- The mutations one after the other, as the single-writer pump makes them.
  unfoldable pub apply_all : Store S → List (Op S) → Option (Store S)
  apply_all st [] = some st
  apply_all st (op ∷ ops) = elim (apply st op) [ none ↦ none | some (st', ds) ↦ apply_all st' ops ]
