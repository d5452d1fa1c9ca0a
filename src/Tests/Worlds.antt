-- ===== src/Tests/Worlds.antt =====
-- Concrete packages for the runs: whole numbers for decimals, and billionths for the rates.
use native.Mathlib.Nat.{div-le_of_le-mul, le-div_iff_mul-le, mul-le-mul_left}
use package.tossinvest_rust.Common.{
  String, ℕ, zero, suc, ◌+◌, ◌-◌, ◌*◌, ◌/◌, ◌^◌, ◌≤◌, ◌<◌, ◌≡◌, refl, Bool, true, false, Option,
  none, some, arith, ltb, leb, if◌then◌else◌, string_key, leb→le,
}
use package.tossinvest_rust.Model.Scalar.{Scalars}
use package.tossinvest_rust.Rate.Env.{RateEnv}

-- `n` strokes and a point.
abbrev strokes : ℕ → String
strokes zero = "."
strokes (suc n) = String.◌∷◌ "i" (strokes n)

abbrev read_strokes : String → Option ℕ
read_strokes String.[] = none
read_strokes (String.◌∷◌ c String.[]) = some 0
read_strokes (String.◌∷◌ c (String.◌∷◌ d s)) = elim (read_strokes (String.◌∷◌ d s)) [
  | none ↦ none
  | some n ↦ some (suc n)
]

pub read_strokes-strokes : (n : ℕ) → read_strokes (strokes n) ≡ some n
read_strokes-strokes zero = refl
read_strokes-strokes (suc zero) = refl
read_strokes-strokes (suc (suc n)) = rw (read_strokes-strokes (suc n)) refl

abbrev pub whole : Scalars
whole = record {
  Decimal = ℕ;
  zero = 0;
  ltb = ltb;
  sub = λ a b. a - b;
  sub_fits = λ a b. true;
  fract_is_zero = λ _. true;
  from_u64 = λ n. n;
  to_string = strokes;
  parse = read_strokes;
  KstDateTime = ℕ;
  KstDate = ℕ;
  parse-to_string = read_strokes-strokes;
  parse-zero = refl;
  sub_fits_nonneg = λ a b h k. refl;
  ltb_irrefl = λ d. ground arith;
  ltb_trans = λ a b c h k. ground arith;
}

-- m / 10^e in billionths, rounded down.
abbrev billionths : ℕ → ℕ → ℕ
billionths m zero = m * 1000000000
billionths m (suc e) = billionths m e / 10

abbrev larger : ℕ → ℕ → ℕ
larger a b = if leb a b then b else a

abbrev smaller : ℕ → ℕ → ℕ
smaller a b = if leb a b then a else b

-- The period and the time of the next permit.
abbrev permit : ℕ × ℕ → ℕ → (ℕ × ℕ) × Bool
permit (p, next) now = if leb next now then ((p, now + p), true) else ((p, next), false)

abbrev await_permit : ℕ × ℕ → ℕ → (ℕ × ℕ) × ℕ
await_permit (p, next) now = ((p, larger now next + p), larger now next)

pub direct_waits :
    (p now later : ℕ)
    → now ≤ later
    → later < now + p
    → (permit ((permit (p, 0) now).0) later).1 ≡ false
direct_waits p now later h k = ground arith

pub scaled_le : (a f : ℕ) → leb f 1000000000 ≡ true → a * f / 1000000000 ≤ a
scaled_le a f h =
    div-le_of_le-mul 1000000000 (omega (arith, mul-le-mul_left a (leb→le f 1000000000 h)))

pub period_pos :
    (t : ℕ)
    → leb t 0 ≡ false
    → leb t (1000000000 * 1000000000) ≡ true
    → 0 < 1000000000 * 1000000000 / t
period_pos t h k = omega (
  arith,
  (le-div_iff_mul-le {k = t} {x = 1} {y = 1000000000 * 1000000000} (ground arith)).1 (ground arith),
)

abbrev pub billionth_rates : RateEnv
billionth_rates = record {
  F = ℕ;
  leb = leb;
  max = larger;
  min = smaller;
  add = λ a b. a + b;
  sub = λ a b. (a - b) + (b - a);
  mul = λ a b. a * b / 1000000000;
  div = λ a b. a * 1000000000 / b;
  abs = λ a. a;
  literal = billionths;
  from_secs = λ a. a;
  instant_max = 2 ^ 63 * 1000000000;
  Limiter = ℕ × ℕ;
  direct = λ p. (p, 0);
  check = permit;
  until_ready = await_permit;
  leb_refl = λ a. ground arith;
  leb_trans = λ a b c h k. ground arith;
  leb_total = λ a b. ground arith;
  max_left = λ a b. ground arith;
  max_right = λ a b. ground arith;
  max_least = λ a b c h k. ground arith;
  min_left = λ a b. ground arith;
  min_right = λ a b. ground arith;
  min_greatest = λ a b c h k. ground arith;
  mul_le = λ a f h k. ground (arith, scaled_le a f k);
  literal_mono = λ m n h. ground arith;
  tenth_le_one = refl;
  tenth_pos = refl;
  period_pos = λ t h k. period_pos t h k;
  direct_admits = λ p now. ground arith;
  direct_waits = direct_waits;
}
