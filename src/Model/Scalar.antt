-- ===== src/Model/Scalar.antt =====
-- crates/tossinvest-model/src/scalar.rs. `rust_decimal::Decimal` and the `chrono` times are other
-- packages: the record `Scalars` takes their types, the operations that the crates call, and the
-- documented laws of these.
use package.tossinvest_rust.Common.{
  String, ℕ, ◌≡◌, Bool, true, false, not, ◌||◌, Option, none, some, if◌then◌else◌,
}

pub record Scalars : Type 1 where
  -- `rust_decimal::Decimal`: exact decimals with their comparison, difference and text form.
  pub Decimal : Type 0
  pub zero : Decimal
  pub ltb : Decimal → Decimal → Bool
  -- The operator `-` panics unless the difference is in the range of `Decimal`.
  pub sub : Decimal → Decimal → Decimal
  pub sub_fits : Decimal → Decimal → Bool
  pub fract_is_zero : Decimal → Bool
  pub from_u64 : ℕ → Decimal
  pub to_string : Decimal → String
  pub parse : String → Option Decimal
  -- `chrono::DateTime<FixedOffset>` and `chrono::NaiveDate`.
  pub KstDateTime : Type 0
  pub KstDate : Type 0
  -- What is printed is read back.
  pub parse-to_string : (d : Decimal) → parse (to_string d) ≡ some d
  pub parse-zero : parse "0" ≡ some zero
  -- The difference of two decimals that are not negative is in range.
  pub sub_fits_nonneg :
      (a b : Decimal) → ltb a zero ≡ false → ltb b zero ≡ false → sub_fits a b ≡ true
  -- `<` is a strict order.
  pub ltb_irrefl : (d : Decimal) → ltb d d ≡ false
  pub ltb_trans : (a b c : Decimal) → ltb a b ≡ true → ltb b c ≡ true → ltb a c ≡ true

pub data ValidationError : Type 0 where
  not_non_neg_integer : String → ValidationError
  invalid : String → String → String → ValidationError

pub data Validated {ℓ} (A : Type ℓ) : Type ℓ where
  valid : A → Validated A
  refused : ValidationError → Validated A

-- The field of `IntQty` is private: values come from `new` and `from_u64`.
pub record IntQty (S : Scalars) : Type 0 where
  pub amount : S.Decimal

module _ (S : Scalars) where
  unfoldable pub int_qty_new : S.Decimal → Validated (IntQty S)
  int_qty_new d =
      if S.ltb d S.zero || not (S.fract_is_zero d)
      then refused (not_non_neg_integer (S.to_string d))
      else valid (record { amount = d })

  unfoldable pub int_qty_from_u64 : ℕ → IntQty S
  int_qty_from_u64 n = record { amount = S.from_u64 n }

  -- `Serialize` and `Deserialize`: the text of the decimal, and its check when it is read; `none` is a
  -- text that is no decimal.
  unfoldable pub int_qty_write : IntQty S → String
  int_qty_write q = S.to_string q.amount

  unfoldable pub int_qty_read : String → Option (Validated (IntQty S))
  unfolding int_qty_new
  int_qty_read s = elim (S.parse s) [ none ↦ none | some d ↦ some (int_qty_new d) ]
