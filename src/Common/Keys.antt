-- ===== src/Common/Keys.antt =====
-- Keys of maps: types with a decidable equality, as an instance argument.
use Prim.Native.String.{String}
use text.Mathlib.Text.{◌==◌ as str_eq}
use text.Mathlib.TextEquality.{eq_iff}
use package.tossinvest_rust.Common.Tests.{dec_of_test}

pub record Key {ℓ} (K : Type ℓ) : Type ℓ where
  pub eq_dec : Discrete K

unfoldable pub String-discrete : Discrete String
String-discrete s t = dec_of_test (str_eq s t) (eq_iff s t)

instance abbrev pub string_key : Key String
string_key = record { eq_dec = String-discrete }
