-- ===== src/State/Pump/Leases.antt =====
-- crates/tossinvest-state/src/runtime.rs, `watch_price` and the drop of a `PriceLease`: the demand for
-- each symbol. The counter is a `usize` that no number of leases in memory can fill.
use package.tossinvest_rust.Common.{
  String, ℕ, suc, ◌+◌, ◌-◌, ◌<◌, ◌≡◌, none, some, List, [], ◌∷◌, ◌==◌, ite, arith, if◌then◌else◌,
  string_key, String-discrete, Bool-cases, ◌∙◌, Option-cases, inl, inr,
}
use package.tossinvest_rust.Common.HashMap
use package.tossinvest_rust.Common.HashMap.{HashMap, get, get-insert, get-remove}

-- `entry(symbol).or_insert(0) += 1`.
unfoldable pub watch_price : String → HashMap String ℕ → HashMap String ℕ
watch_price symbol d = elim (get symbol d) [
  | none ↦ HashMap.insert symbol 1 d
  | some c ↦ HashMap.insert symbol (c + 1) d
]

-- The drop of a lease: `saturating_sub`, and a count of 0 is removed.
unfoldable pub drop_lease : String → HashMap String ℕ → HashMap String ℕ
drop_lease symbol d = elim (get symbol d) [
  | none ↦ d
  | some c ↦ if c - 1 == 0 then HashMap.remove symbol d else HashMap.insert symbol (c - 1) d
]

-- The leases that live, by symbol.
unfoldable pub count : String → List String → ℕ
count s [] = 0
count s (t ∷ ts) = ite (String-discrete t s) (suc (count s ts)) (count s ts)

unfoldable pub release : String → List String → List String
release s [] = []
release s (t ∷ ts) = ite (String-discrete t s) ts (t ∷ release s ts)

-- The map holds the number of living leases of each symbol that has one, and nothing else.
abbrev pub Counts : HashMap String ℕ → List String → Type 0
Counts d live = (s : String) → get s d ≡ (if count s live == 0 then none else some (count s live))

count-release :
    (s t : String) (live : List String)
    → 0 < count s live
    → count t (release s live) ≡ ite (String-discrete s t) (count t live - 1) (count t live)
unfolding count release
count-release s t [] h = absurd (omega (arith, h))
count-release s t (u ∷ us) h = elim (String-discrete u s) [
  | yes p ↦ ground (arith, p)
  | no q ↦
      let rest = count-release s t us (ground (arith, q)) in
      elim (String-discrete u t) [
        | yes r ↦ ground (arith, q, r, rest)
        | no r ↦ ground (arith, q, r, rest)
      ]
]

-- Taking a lease counts it.
pub watch_price-Counts :
    (symbol : String) (d : HashMap String ℕ) (live : List String)
    → Counts d live
    → Counts (watch_price symbol d) (symbol ∷ live)
unfolding watch_price count
watch_price-Counts symbol d live h s = elim (Option-cases (get symbol d)) [
  | inl missing ↦ rw (missing, watch_price) (ground (arith, get-insert symbol s 1 d, h s, h symbol))
  | inr (c, found) ↦
      rw (found, watch_price) (ground (arith, get-insert symbol s (c + 1) d, h s, h symbol))
]

held_count : (n : ℕ) → 0 < n → (if n == 0 then none else some n) ≡ some n
held_count n h = ground arith

-- Dropping a living lease releases it, and the symbol leaves the map with its last lease.
pub drop_lease-Counts :
    (symbol : String) (d : HashMap String ℕ) (live : List String)
    → Counts d live
    → 0 < count symbol live
    → Counts (drop_lease symbol d) (release symbol live)
unfolding drop_lease
drop_lease-Counts symbol d live h held s =
    let h_found = h symbol ∙ held_count (count symbol live) held in
    let after = count-release symbol s live held in
    rw (h_found, drop_lease)
      (elim (Bool-cases (count symbol live - 1 == 0)) [
        | inl last ↦ rw last (get-remove symbol s d ∙ ground (arith, after, h s))
        | inr more ↦ rw more (get-insert symbol s _ d ∙ ground (arith, after, h s))
      ])
