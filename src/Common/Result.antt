-- ===== src/Common/Result.antt =====
-- `std::result::Result`.
use mathlib.Core.Path.{◌≡◌, refl, sym}
use mathlib.Core.Logic.{◌⊎◌, inl, inr}

pub data Result {ℓ} (A E : Type ℓ) : Type ℓ where
  ok : A → Result A E
  err : E → Result A E

infixl 5 ◌>>=◌
abbrev pub ◌>>=◌ {ℓ} : {A B E : Type ℓ} → Result A E → (A → Result B E) → Result B E
ok a >>= f = f a
err e >>= f = err e

pub ok_injective {ℓ} : {A E : Type ℓ} {a b : A} → ◌≡◌ {A = Result A E} (ok a) (ok b) → a ≡ b
ok_injective e = cc

pub Result-cases {ℓ} :
    {A E : Type ℓ} (r : Result A E) → ((e : E) × (r ≡ err e)) ⊎ ((a : A) × (r ≡ ok a))
Result-cases (ok a) = inr (a, refl)
Result-cases (err e) = inl (e, refl)

pub err≢ok {ℓ} : {A E : Type ℓ} {a : A} {e : E} → ¬ (◌≡◌ {A = Result A E} (err e) (ok a))
err≢ok h = cc

-- A chain that succeeds is two steps that succeed.
pub >>=-eq-ok {ℓ} :
    {E A B : Type ℓ} {y : B} (m : Result A E) (rest : A → Result B E)
    → ok y ≡ (m >>= rest)
    → (x : A) × (ok y ≡ rest x) × (m ≡ ok x)
>>=-eq-ok m rest ran = elim (Result-cases m) [
  | inl (e, failed) ↦ absurd (err≢ok (sym (rw (failed) at ran)))
  | inr (x, went) ↦ (x, rw (went) at ran, went)
]
