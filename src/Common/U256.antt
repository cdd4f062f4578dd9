-- ===== src/Common/U256.antt =====
-- U256 of `primitive-types`: a number below 2 ^ 256. Its operators panic on overflow, which is
-- `none` here; `as_u64` panics on a value that a u64 does not hold.
use Prim.Native.Nat.{ℕ, ◌+◌, ◌-◌, ◌*◌, ◌^◌}
use mathlib.Core.Option.{Option, none, some}
use zksync_withdrawal_finali.Common.Tests.{ltb, if◌then◌else◌}

abbrev pub u256_mod : ℕ
u256_mod = 2 ^ 256

abbrev pub u64_mod : ℕ
u64_mod = 2 ^ 64

abbrev pub checked : ℕ → Option ℕ
checked n = if ltb n u256_mod then some n else none

-- `a + b` and `a * b`.
abbrev pub add_u256 : ℕ → ℕ → Option ℕ
add_u256 a b = checked (a + b)

abbrev pub mul_u256 : ℕ → ℕ → Option ℕ
mul_u256 a b = checked (a * b)

-- `a.saturating_mul(b)`.
abbrev pub saturating_mul : ℕ → ℕ → ℕ
saturating_mul a b = if ltb (a * b) u256_mod then a * b else u256_mod - 1

abbrev pub as_u64 : ℕ → Option ℕ
as_u64 n = if ltb n u64_mod then some n else none
