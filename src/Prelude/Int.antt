-- ===== src/Prelude/Int.antt =====
-- Signed integers over the native numbers, and the conversions between `int64_t` or `int32_t` and the
-- unsigned type of the same width.
use Prim.Native.Nat.{ℕ, ◌-◌, ◌%◌, ◌^◌, ◌<◌}
use mathlib.Core.Path.{◌≡◌}
use native.Mathlib.Omega.{arith}
use forgerelay.Prelude.Tests.{ltb, if◌then◌else◌}

-- `negsuc n` is -(n + 1).
pub data ℤ : Type 0 where
  pos : ℕ → ℤ
  negsuc : ℕ → ℤ

-- The integers from -2 ^ 63 to 2 ^ 63 - 1, and those from -2 ^ 31 to 2 ^ 31 - 1.
abbrev pub IsI64 : ℤ → Type 0
IsI64 (pos n) = n < 2 ^ 63
IsI64 (negsuc n) = n < 2 ^ 63

abbrev pub IsI32 : ℤ → Type 0
IsI32 (pos n) = n < 2 ^ 31
IsI32 (negsuc n) = n < 2 ^ 31

-- `static_cast<uint64_t>` and `static_cast<int64_t>`, modulo 2 ^ 64.
unfoldable pub u64_of_i64 : ℤ → ℕ
u64_of_i64 (pos n) = n % 2 ^ 64
u64_of_i64 (negsuc n) = 2 ^ 64 - 1 - n % 2 ^ 64

pub i64_of_u64 : ℕ → ℤ
i64_of_u64 v = if ltb v (2 ^ 63) then pos v else negsuc (2 ^ 64 - 1 - v)

pub u32_of_i32 : ℤ → ℕ
u32_of_i32 (pos n) = n % 2 ^ 32
u32_of_i32 (negsuc n) = 2 ^ 32 - 1 - n % 2 ^ 32

pub i32_of_u32 : ℕ → ℤ
i32_of_u32 v = if ltb v (2 ^ 31) then pos v else negsuc (2 ^ 32 - 1 - v)

pub i64_of_u64-u64_of_i64 : (z : ℤ) → IsI64 z → i64_of_u64 (u64_of_i64 z) ≡ z
unfolding i64_of_u64 u64_of_i64
i64_of_u64-u64_of_i64 (pos n) h = ground arith
i64_of_u64-u64_of_i64 (negsuc n) h = ground arith

pub i32_of_u32-u32_of_i32 : (z : ℤ) → IsI32 z → i32_of_u32 (u32_of_i32 z) ≡ z
unfolding i32_of_u32 u32_of_i32
i32_of_u32-u32_of_i32 (pos n) h = ground arith
i32_of_u32-u32_of_i32 (negsuc n) h = ground arith

pub u64_of_i64-lt : (z : ℤ) → u64_of_i64 z < 2 ^ 64
unfolding u64_of_i64
u64_of_i64-lt (pos n) = ground arith
u64_of_i64-lt (negsuc n) = ground arith

pub u32_of_i32-lt : (z : ℤ) → u32_of_i32 z < 2 ^ 32
unfolding u32_of_i32
u32_of_i32-lt (pos n) = ground arith
u32_of_i32-lt (negsuc n) = ground arith
