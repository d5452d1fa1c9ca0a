-- ===== src/Common/I64/Laws.antt =====
-- The arithmetic of `i64` where nothing wraps around, and texts of integers that are read back.
use Prim.Native.Nat.{ℕ, ◌+◌, ◌^◌, ◌<◌, ◌%◌}
use mathlib.Core.Path.{◌≡◌}
use native.Mathlib.Omega.{arith}
use package.tossinvest_rust.Common.Tests.{ltb}
use package.tossinvest_rust.Common.I64.{i64_add, i64_lt, as_i64}

pub as_i64_lem : (a : ℕ) → a < 2 ^ 63 → as_i64 a ≡ a
unfolding as_i64
as_i64_lem a h = omega arith

pub i64_add_lem : (a b : ℕ) → a + b < 2 ^ 63 → i64_add a b ≡ a + b
unfolding i64_add
i64_add_lem a b h = omega arith

shifted : (a : ℕ) → a < 2 ^ 63 → (a + 2 ^ 63) % 2 ^ 64 ≡ a + 2 ^ 63
shifted a h = omega arith

pub i64_lt_lem : (a b : ℕ) → a < 2 ^ 63 → b < 2 ^ 63 → i64_lt a b ≡ ltb a b
unfolding i64_lt
i64_lt_lem a b ha hb = rw (shifted a ha, shifted b hb) (ground arith)
