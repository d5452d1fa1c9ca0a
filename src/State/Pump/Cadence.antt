-- ===== src/State/Pump/Cadence.antt =====
-- crates/tossinvest-state/src/runtime.rs, `compute_cadence`: the interval to the next sweep.
use mathlib.Core.Path.{subst}
use mathlib.Core.List.{Memᴰ}
use package.tossinvest_rust.Common.{
  ℕ, ◌≡◌, refl, sym, ap, ◌∙◌, ◌⊎◌, All, Bool, true, false, ◌||◌, List, [], ◌∷◌, leb, any,
  if◌then◌else◌, arith, Bool-cases, inl, inr,
}
use package.tossinvest_rust.Common.HashMap.{values}
use package.tossinvest_rust.Model.Scalar.{Scalars}
use package.tossinvest_rust.Rate.Env.{RateEnv}
use package.tossinvest_rust.State.View.{
  OrderView, Lifecycle, submitting_pending, submit_rejected, working, closing, closed,
  unknown_status, is_closing, is_active, is_working,
}
use package.tossinvest_rust.State.Event.{OpKind}
use package.tossinvest_rust.State.Projection.{ProjectedState}

-- Durations are nanoseconds.
pub record SchedulerConfig : Type 0 where
  pub hot : ℕ
  pub working : ℕ
  pub idle : ℕ

unfoldable pub default_scheduler : SchedulerConfig
default_scheduler = record { hot = 400000000; working = 1000000000; idle = 5000000000 }

unfoldable pub is_hot : OrderView → Bool
is_hot v = v.optimistic || is_closing v.lifecycle

-- The loop over the rows: it stops at the first hot one. The result is `(hot, working)`.
unfoldable pub scan_rows : List OrderView → Bool → Bool × Bool
unfolding is_hot
scan_rows [] works = (false, works)
scan_rows (v ∷ vs) works =
    let rest = scan_rows vs (if is_working v then true else works) in
    if is_hot v then (true, works) else rest

unfoldable pub pick_tier : SchedulerConfig → Bool × Bool → ℕ
pick_tier config (hot, works) =
    if hot then config.hot else if works then config.working else config.idle

abbrev pub maximum : ℕ → ℕ → ℕ
maximum a b = if leb a b then b else a

module _ (E : RateEnv) where
  -- The interval of half the effective rate, which counts as at least 0.1.
  unfoldable pub min_interval : E.F → ℕ
  min_interval eff_tps =
      E.from_secs (E.div (E.literal 1 0) (E.max (E.mul eff_tps (E.literal 5 1)) (E.literal 1 1)))

  unfoldable pub compute_cadence : {S : Scalars} → ProjectedState S → SchedulerConfig → E.F → ℕ
  unfolding scan_rows pick_tier min_interval
  compute_cadence snap config eff_tps =
      maximum (pick_tier config (scan_rows (values snap.orders) false)) (min_interval eff_tps)

-- Which interval of the configuration the rows ask for.
unfoldable pub tier : SchedulerConfig → List OrderView → ℕ
tier config rows =
    if any is_hot rows
    then config.hot
    else if any is_working rows
    then config.working
    else config.idle

merge : (a b c : Bool) → ((if a then true else b) || c) ≡ (b || (a || c))
merge a b c = ground arith

pick-scan :
    (config : SchedulerConfig) (rows : List OrderView) (works : Bool)
    → pick_tier config (scan_rows rows works) ≡ (
        if any is_hot rows
        then config.hot
        else if works || any is_working rows
        then config.working
        else config.idle)
unfolding pick_tier scan_rows
pick-scan config [] works = ground arith
pick-scan config (v ∷ vs) works =
    let rest = pick-scan config vs (if is_working v then true else works) in
    elim (Bool-cases (is_hot v)) [
      | inl hot ↦ rw hot refl
      | inr cold ↦ rw cold (rest ∙ rw (merge (is_working v) works (any is_working vs)) refl)
    ]

-- A row with an operation in flight: a submission or a change that the server has not answered.
abbrev pub IsHotRow : OrderView → Type 0
IsHotRow v = (v.optimistic ≡ true) ⊎ ((k : OpKind) × (v.lifecycle ≡ closing k))

is_hot-IsHotRow : (v : OrderView) → is_hot v ≡ true → IsHotRow v
unfolding is_hot is_closing
is_hot-IsHotRow v h = elim (Bool-cases v.optimistic) [
  | inl fresh ↦ inl fresh
  | inr told ↦
      inr (closed_of v.lifecycle (subst (λ b. (b || is_closing v.lifecycle) ≡ true) told h))
]
  where
    closed_of : (l : Lifecycle) → is_closing l ≡ true → (k : OpKind) × (l ≡ closing k)
    closed_of (closing k) e = (k, refl)
    closed_of submitting_pending e = cc
    closed_of (submit_rejected x) e = cc
    closed_of working e = cc
    closed_of (closed x) e = cc
    closed_of unknown_status e = cc

is_hot-quiet : (v : OrderView) → is_hot v ≡ false → ¬ (IsHotRow v)
unfolding is_hot is_closing
is_hot-quiet v h (inl fresh) = cc (subst (λ b. (b || is_closing v.lifecycle) ≡ false) fresh h)
is_hot-quiet v h (inr (k, e)) =
    absurd (not_quiet v.optimistic (subst (λ l. (v.optimistic || is_closing l) ≡ false) e h))
  where
    not_quiet : (b : Bool) → ¬ ((b || true) ≡ false)
    not_quiet true e = cc
    not_quiet false e = cc

is_active-working : (v : OrderView) → is_working v ≡ true → ¬ (IsHotRow v) → v.lifecycle ≡ working
unfolding is_active
is_active-working v h cold = named v.lifecycle refl h
  where
    named : (l : Lifecycle) → v.lifecycle ≡ l → is_active l ≡ true → v.lifecycle ≡ working
    named working e h = e
    named (closing k) e h = absurd (cold (inr (k, e)))
    named submitting_pending e h = cc
    named (submit_rejected x) e h = cc
    named (closed x) e h = cc
    named unknown_status e h = cc

is_active-idle : (v : OrderView) → is_working v ≡ false → ¬ (v.lifecycle ≡ working)
unfolding is_active
is_active-idle v h e = cc (subst (λ l. is_active l ≡ false) e h)

module _ (f : OrderView → Bool) where
  any-found :
      (rows : List OrderView) → any f rows ≡ true → (v : OrderView) × Memᴰ v rows × (f v ≡ true)
  any-found [] h = cc
  any-found (v ∷ rows) h = elim (Bool-cases (f v)) [
    | inl here ↦ (v, Memᴰ.head refl, here)
    | inr other ↦
        let (w, there, k) = any-found rows (subst (λ b. (b || any f rows) ≡ true) other h) in
        (w, Memᴰ.tail there, k)
  ]

  any-none :
      (P : OrderView → Type 0) (rows : List OrderView)
      → ((v : OrderView) → f v ≡ false → P v)
      → any f rows ≡ false
      → All P rows
  any-none P [] g h = tt
  any-none P (v ∷ rows) g h = elim (Bool-cases (f v)) [
    | inl here ↦ cc (subst (λ b. (b || any f rows) ≡ false) here h)
    | inr other ↦ (g v other, any-none P rows g (subst (λ b. (b || any f rows) ≡ false) other h))
  ]

All-Mem :
    (P : OrderView → Type 0) {v : OrderView} (rows : List OrderView)
    → All P rows
    → Memᴰ v rows
    → P v
All-Mem P [] h m = elim m [ ]
All-Mem P (w ∷ rows) h (Memᴰ.head e) = subst P (sym e) h.0
All-Mem P (w ∷ rows) h (Memᴰ.tail m) = All-Mem P rows h.1 m

-- The interval that the configuration has for the rows, wherever the row that decides stands.
abbrev pub Asked : SchedulerConfig → List OrderView → ℕ → Type 0
Asked config rows n =
    ((v : OrderView) × Memᴰ v rows × IsHotRow v × (n ≡ config.hot))
    ⊎ ((v : OrderView) × Memᴰ v rows
        × All (λ w. ¬ (IsHotRow w)) rows
        × (v.lifecycle ≡ working)
        × (n ≡ config.working))
    ⊎ (All (λ w. ¬ (IsHotRow w)) rows
        × All (λ w. ¬ (w.lifecycle ≡ working)) rows
        × (n ≡ config.idle))

tier-Asked :
    (config : SchedulerConfig) (rows : List OrderView) → Asked config rows (tier config rows)
unfolding tier
tier-Asked config rows = elim (Bool-cases (any is_hot rows)) [
  | inl hot ↦
      let (v, there, h) = any-found is_hot rows hot in
      inl (v, there, is_hot-IsHotRow v h, rw hot refl)
  | inr cold ↦
      let none_hot = any-none is_hot (λ w. ¬ (IsHotRow w)) rows is_hot-quiet cold in
      elim (Bool-cases (any is_working rows)) [
        | inl busy ↦
            let (v, there, h) = any-found is_working rows busy in
            inr (
              inl (
                v,
                there,
                none_hot,
                is_active-working v h (All-Mem (λ w. ¬ (IsHotRow w)) rows none_hot there),
                rw (cold, busy) refl,
              ))
        | inr calm ↦ inr (
            inr (
              none_hot,
              any-none is_working (λ w. ¬ (w.lifecycle ≡ working)) rows is_active-idle calm,
              rw (cold, calm) refl,
            ))
      ]
]

-- The interval to the next sweep is the longer of two. One is the period of half the group's effective
-- rate, which counts as at least 0.1. The other is the configured one: `hot` if some row is
-- optimistic or closing, wherever it stands; else `working` if some row works, a partially filled
-- one included; else `idle`.
pub compute_cadence_lem :
    {S : Scalars} (E : RateEnv) (snap : ProjectedState S) (config : SchedulerConfig) (eff_tps : E.F)
    → (n : ℕ) × Asked config (values snap.orders) n
      × (compute_cadence E snap config eff_tps
          ≡ maximum n (
              E.from_secs
                (E.div (E.literal 1 0) (E.max (E.mul eff_tps (E.literal 5 1)) (E.literal 1 1)))))
unfolding compute_cadence tier min_interval
compute_cadence_lem E snap config eff_tps =
    let rows = values snap.orders in
    (
      tier config rows,
      tier-Asked config rows,
      ap (λ n. maximum n (min_interval E eff_tps)) (pick-scan config rows false),
    )
