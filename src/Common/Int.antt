-- ===== src/Common/Int.antt =====
-- The signed 64-bit values that cross the boundary, as integers.
use Prim.Native.Nat.{ℕ, ◌-◌, ◌^◌, ◌<◌, ◌≤◌}
use mathlib.Core.Path.{◌≡◌}
use mathlib.Core.Bool.{Bool, false}
use native.Mathlib.Omega.{arith}
use imbh_c.Common.Tests.{ltb, ◌==◌, if◌then◌else◌}

-- `negsuc n` is -(n + 1).
pub data ℤ : Type 0 where
  pos : ℕ → ℤ
  negsuc : ℕ → ℤ

-- `x as i64` of a `u64`: the same 64 bits, read as two's complement.
unfoldable pub as_i64 : ℕ → ℤ
as_i64 x = if ltb x (2 ^ 63) then pos x else negsuc (2 ^ 64 - x - 1)

-- `x as u64` of an `i64`.
unfoldable pub as_u64 : ℤ → ℕ
as_u64 (pos n) = n
as_u64 (negsuc n) = 2 ^ 64 - n - 1

-- `x.max(1)`.
unfoldable pub max_one : ℤ → ℤ
max_one (pos n) = if n == 0 then pos 1 else pos n
max_one (negsuc n) = pos 1

-- `x > 0`.
unfoldable pub is_positive : ℤ → Bool
is_positive (pos n) = ltb 0 n
is_positive (negsuc n) = false

-- `x == 0`.
unfoldable pub is_zero : ℤ → Bool
is_zero (pos n) = n == 0
is_zero (negsuc n) = false

-- The two casts are inverse on the values of a `u64`.
pub as_u64-as_i64 : (x : ℕ) → x < 2 ^ 64 → as_u64 (as_i64 x) ≡ x
unfolding as_u64 as_i64
as_u64-as_i64 x h = ground arith

pub as_u64-max_one_pos : (x : ℤ) → 1 ≤ as_u64 (max_one x)
unfolding as_u64 max_one
as_u64-max_one_pos (pos n) = ground arith
as_u64-max_one_pos (negsuc n) = omega arith
