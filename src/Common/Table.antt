-- ===== src/Common/Table.antt =====
-- Tables from thread numbers, with one entry replaced.
use Prim.Native.Nat.{ℕ}
use mathlib.Core.Path.{◌≡◌, refl, subst}
use mathlib.Core.Logic.{◌≢◌, ite, if_pos, if_neg}
use native.Mathlib.Decide.{ℕ_discrete}

unfoldable pub update {ℓ} : {A : Type ℓ} → (ℕ → A) → ℕ → A → ℕ → A
update f i a j = ite (ℕ_discrete i j) a (f j)

pub update_self {ℓ} : {A : Type ℓ} (f : ℕ → A) (i : ℕ) (a : A) → update f i a i ≡ a
unfolding update
update_self f i a = if_pos (ℕ_discrete i i) refl _ _

pub update_ne {ℓ} : {A : Type ℓ} (f : ℕ → A) (i j : ℕ) (a : A) → i ≢ j → update f i a j ≡ f j
unfolding update
update_ne f i j a h = if_neg (ℕ_discrete i j) h _ _

-- What holds of every entry and of the new one holds of the table afterwards.
pub update_all {ℓ κ} :
    {A : Type ℓ} (P : ℕ → A → Type κ) (f : ℕ → A) (i : ℕ) (a : A)
    → ((j : ℕ) → i ≢ j → P j (f j))
    → P i a
    → (j : ℕ) → P j (update f i a j)
update_all P f i a old own j = elim (ℕ_discrete i j) [
  | yes e ↦ subst (λ k. P k (update f i a k)) e (rw (update_self f i a) own)
  | no ne ↦ rw (update_ne f i j a ne) (old j ne)
]
