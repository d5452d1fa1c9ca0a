-- ===== src/Common/HashMap.antt =====
-- `std::collections::HashMap` as an association list: reads, writes and removals by key.
use mathlib.Core.Path.{◌≡◌, refl}
use mathlib.Core.Logic.{ite, ◌≢◌, ◌⊎◌, inl, inr}
use mathlib.Core.Option.{Option, none, some}
use mathlib.Core.List.{List, [], ◌∷◌, map}
use native.Mathlib.Omega.{arith}
use package.tossinvest_rust.Common.Keys.{Key}

abbrev pub HashMap {ℓ} : Type ℓ → Type ℓ → Type ℓ
HashMap K V = List (K × V)

module _ {ℓ} {K V : Type ℓ} where
  abbrev pub values : HashMap K V → List V
  values = map (λ e. e.1)

  abbrev pub keys : HashMap K V → List K
  keys = map (λ e. e.0)

module _ {ℓ} {K V : Type ℓ} ⦃key : Key K⦄ where
  unfoldable pub get : K → HashMap K V → Option V
  get k [] = none
  get k ((j, v) ∷ m) = ite (key.eq_dec j k) (some v) (get k m)

  unfoldable pub insert : K → V → HashMap K V → HashMap K V
  insert k v [] = (k, v) ∷ []
  insert k v ((j, w) ∷ m) = ite (key.eq_dec j k) ((k, v) ∷ m) ((j, w) ∷ insert k v m)

  unfoldable pub remove : K → HashMap K V → HashMap K V
  remove k [] = []
  remove k ((j, w) ∷ m) = ite (key.eq_dec j k) (remove k m) ((j, w) ∷ remove k m)

  pub get-insert :
      (k j : K) (v : V) (m : HashMap K V)
      → get j (insert k v m) ≡ ite (key.eq_dec k j) (some v) (get j m)
  unfolding get insert
  get-insert k j v [] = refl
  get-insert k j v ((i, w) ∷ m) = ground (arith, get-insert k j v m)

  pub get-remove :
      (k j : K) (m : HashMap K V) → get j (remove k m) ≡ ite (key.eq_dec k j) none (get j m)
  unfolding get remove
  get-remove k j [] = ground arith
  get-remove k j ((i, w) ∷ m) = ground (arith, get-remove k j m)

  pub get-insert_self : (k : K) (v : V) (m : HashMap K V) → get k (insert k v m) ≡ some v
  get-insert_self k v m = ground (arith, get-insert k k v m)

  pub get-remove_self : (k : K) (m : HashMap K V) → get k (remove k m) ≡ none
  get-remove_self k m = ground (arith, get-remove k k m)

  pub get-insert_ne : (k j : K) (v : V) (m : HashMap K V) → k ≢ j → get j (insert k v m) ≡ get j m
  get-insert_ne k j v m h = ground (arith, get-insert k j v m)

  pub get-remove_ne : (k j : K) (m : HashMap K V) → k ≢ j → get j (remove k m) ≡ get j m
  get-remove_ne k j m h = ground (arith, get-remove k j m)

  -- What a read finds after a write: the new value at that key, the old one elsewhere.
  pub get-insert-cases :
      (k j : K) (v w : V) (m : HashMap K V)
      → get j (insert k v m) ≡ some w
      → ((k ≡ j) × (v ≡ w)) ⊎ ((k ≢ j) × (get j m ≡ some w))
  get-insert-cases k j v w m h = elim (key.eq_dec k j) [
    | yes p ↦ inl (p, ground (arith, get-insert k j v m))
    | no q ↦ inr (q, ground (arith, get-insert k j v m))
  ]

  pub get-remove-cases :
      (k j : K) (w : V) (m : HashMap K V)
      → get j (remove k m) ≡ some w
      → (k ≢ j) × (get j m ≡ some w)
  get-remove-cases k j w m h = elim (key.eq_dec k j) [
    | yes p ↦ absurd (ground (arith, get-remove k j m))
    | no q ↦ (q, ground (arith, get-remove k j m))
  ]
