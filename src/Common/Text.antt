-- ===== src/Common/Text.antt =====
-- Characters of texts: the tests of `char` and `str::parse` for unsigned integers.
use Prim.Native.Char.{code}
use Prim.Native.Nat.{ℕ, ◌+◌, ◌-◌, ◌*◌, ◌^◌}
use Prim.Native.String.{String}
use mathlib.Core.Bool.{Bool, ◌&&◌, ◌||◌}
use mathlib.Core.Option.{Option, none, some}
use mathlib.Core.List.{List, [], ◌∷◌}
use package.tossinvest_rust.Common.Tests.{ltb, leb, ◌==◌, if◌then◌else◌}

-- The code points of a text.
abbrev pub codes : String → List ℕ
codes String.[] = []
codes (String.◌∷◌ c s) = code c ∷ codes s

abbrev pub is_digit : ℕ → Bool
is_digit c = leb 48 c && leb c 57

-- `char::is_ascii_alphanumeric`.
abbrev pub is_ascii_alphanumeric : ℕ → Bool
is_ascii_alphanumeric c = is_digit c || (leb 65 c && leb c 90) || (leb 97 c && leb c 122)

-- The digits after those read so far; a value of `bits` bits or more, and any other character, is an
-- error.
unfoldable pub parse_digits : ℕ → ℕ → List ℕ → Option ℕ
parse_digits bits acc [] = some acc
parse_digits bits acc (c ∷ cs) =
    let next = acc * 10 + (c - 48) in
    let rest = parse_digits bits next cs in if is_digit c && ltb next (2 ^ bits) then rest else none

unfoldable pub parse_codes : ℕ → List ℕ → Option ℕ
unfolding parse_digits
parse_codes bits [] = none
parse_codes bits (c ∷ []) = parse_digits bits 0 (c ∷ [])
parse_codes bits (c ∷ d ∷ cs) =
    if c == 43 then parse_digits bits 0 (d ∷ cs) else parse_digits bits 0 (c ∷ d ∷ cs)

-- `str::parse::<u32>` and `str::parse::<u64>`.
unfoldable pub parse_uint : ℕ → String → Option ℕ
unfolding parse_codes
parse_uint bits s = parse_codes bits (codes s)

-- Texts one after the other, as `format!` puts them.
unfoldable pub append : String → String → String
append String.[] t = t
append (String.◌∷◌ c s) t = String.◌∷◌ c (append s t)
