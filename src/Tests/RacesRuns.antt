-- ===== src/Tests/RacesRuns.antt =====
-- Interleavings of two threads that apply mutations.
use package.tossinvest_rust.Common.{ℕ, arith, ◌≡◌, ◌≢◌, refl, false, some, List, All, string_key}
use mathlib.Core.List.{Memᴰ}
use package.tossinvest_rust.State.Event.{order_key_key, Delta}
use package.tossinvest_rust.State.Rows.{is_empty, next_u64}
use package.tossinvest_rust.State.Projection.{ProjectedState, new, submit_optimistic, bump}
use package.tossinvest_rust.State.Ops.{Op, step, IsRuntimeOp}
use package.tossinvest_rust.State.Invariant.{Inv}
use package.tossinvest_rust.State.Store.{new_store, apply_all}
use package.tossinvest_rust.State.Store.Races.{
  idle, Racing, initial, folded, Move, fold, Moves, here, next, begin, more,
}
use package.tossinvest_rust.State.Store.Races.OneWriter.{settled, one_writer-refines}
use package.tossinvest_rust.State.Store.Races.Published.{Waiting, published_past}
use package.tossinvest_rust.State.Store.Races.Stale.{publication-overtaken}
use package.tossinvest_rust.Tests.Worlds.{whole}
use package.tossinvest_rust.Tests.StateRuns.{intent}

abbrev first : ProjectedState whole × List Delta
first = (submit_optimistic (new whole) 1 intent).1

abbrev second : ProjectedState whole × List Delta
second = (submit_optimistic first.0 2 intent).1

first_ran : step (Op.submit_optimistic 1 intent) (new whole) ≡ some first
unfolding step
first_ran = refl

second_ran : step (Op.submit_optimistic 2 intent) first.0 ≡ some second
unfolding step
second_ran = refl

first_reports : is_empty first.1 ≡ false
unfolding submit_optimistic bump
first_reports = refl

second_reports : is_empty second.1 ≡ false
unfolding submit_optimistic bump
second_reports = refl

one_ne_two : ◌≢◌ {A = ℕ} 1 2
one_ne_two e = omega arith

publication-overtaken_example :
    (t : Racing whole) × Moves (initial whole) t
    × (t.pc 1 ≡ idle)
    × (t.pc 2 ≡ idle)
    × (t.state ≡ first.0)
    × (t.write ≡ second.0)
    × (t.write.generation ≡ next_u64 t.state.generation)
publication-overtaken_example =
    publication-overtaken (initial whole) 1 2 (Op.submit_optimistic 1 intent)
      (Op.submit_optimistic 2 intent) first second one_ne_two refl refl tt tt first_ran second_ran
      first_reports second_reports

abbrev after_fold : Racing whole
after_fold = folded (initial whole) 0 first

fold_first : Move (initial whole) 0 after_fold
fold_first = fold (Op.submit_optimistic 1 intent) first refl tt first_ran

one_writer-refines_example :
    (ops : List (Op whole)) × All IsRuntimeOp ops
    × (apply_all (new_store whole) ops ≡ some (settled after_fold))
    × ((settled after_fold).state.generation ≡ (settled after_fold).write.generation)
one_writer-refines_example = one_writer-refines after_fold (more begin fold_first)

published_past_example :
    Inv after_fold.write
    × Memᴰ after_fold.state after_fold.folds
    × ((j : ℕ) → Waiting after_fold.folds (after_fold.pc j))
published_past_example = published_past after_fold (next 0 here fold_first)
