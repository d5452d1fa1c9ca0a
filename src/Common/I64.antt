-- ===== src/Common/I64.antt =====
-- `i64` as its 64 bits: a number from 2 ^ 63 on stands for a negative one. Addition wraps around, as in
-- a release build. And `Display` for integers.
pub mod Laws
use Prim.Native.Char.{Char, nul}
use Prim.Native.Nat.{ℕ, zero, suc, ◌+◌, ◌-◌, ◌/◌, ◌%◌, ◌^◌}
use Prim.Native.String.{String}
use mathlib.Core.Bool.{Bool}
use package.tossinvest_rust.Common.Tests.{ltb, if◌then◌else◌}
use package.tossinvest_rust.Common.Text.{append}

-- `as i64` on a `u64`.
unfoldable pub as_i64 : ℕ → ℕ
as_i64 n = n % 2 ^ 64

unfoldable pub i64_add : ℕ → ℕ → ℕ
i64_add a b = (a + b) % 2 ^ 64

-- The signed order: the bits with the sign bit flipped.
unfoldable pub i64_lt : ℕ → ℕ → Bool
i64_lt a b = ltb ((a + 2 ^ 63) % 2 ^ 64) ((b + 2 ^ 63) % 2 ^ 64)

abbrev char_at : ℕ → String → Char
char_at n String.[] = nul
char_at zero (String.◌∷◌ c s) = c
char_at (suc n) (String.◌∷◌ c s) = char_at n s

-- The digits of n, in front of those written so far. Twenty digits are enough for 64 bits.
unfoldable pub write_digits : ℕ → ℕ → String → String
write_digits zero n rest = rest
write_digits (suc fuel) n rest =
    let digits = String.◌∷◌ (char_at (n % 10) "0123456789") rest in
    let more = write_digits fuel (n / 10) digits in if ltb n 10 then digits else more

unfoldable pub show_u64 : ℕ → String
unfolding write_digits
show_u64 n = write_digits 20 n ""

unfoldable pub show_i64 : ℕ → String
unfolding show_u64
show_i64 a = if ltb a (2 ^ 63) then show_u64 a else append "-" (show_u64 (2 ^ 64 - a))
