-- ===== src/Core/Checked/Exact.antt =====
-- src/core_c/fr_checked.c: when the operations succeed, and that the two builds agree.
use forgerelay.Prelude.{
  IsU32, IsU64, arith, if◌then◌else◌, leb, none, some, ℕ, ◌%◌, ◌*◌, ◌+◌, ◌/◌, ◌<◌, ◌^◌, ◌≡◌, ◌≢◌,
  ◌≤◌,
}
use forgerelay.Core.Checked.{
  add_size, add_u32_builtin, add_u32_wide, add_u64_builtin, add_u64_wrapped, mul_size,
  mul_u64_builtin, mul_u64_wrapped, size_max,
}
use native.Mathlib.Nat.{
  mul-div_cancel, div-lt_iff_lt-mul, mod-eq_of_lt, mod-lt, le_trans, zero-mul, mul-zero,
}
use native.Mathlib.Decide.{dec_lt}

-- On 32-bit operands the widening sum and the compiler's test agree.
pub add_u32-agree : (a b : ℕ) → IsU32 a → IsU32 b → add_u32_wide a b ≡ add_u32_builtin a b
unfolding add_u32_wide add_u32_builtin
add_u32-agree a b ha hb = ground arith

-- On 64-bit operands the test for a wrapped sum and the compiler's overflow test give the same
-- sum or refusal.
pub add_u64-agree : (a b : ℕ) → IsU64 a → IsU64 b → add_u64_wrapped a b ≡ add_u64_builtin a b
unfolding add_u64_wrapped add_u64_builtin
add_u64-agree a b ha hb = ground arith

fits : (a b : ℕ) → 0 < b → a * b < 2 ^ 64 → (a * b % 2 ^ 64) / b ≡ a
fits a b nonzero h = rw (mod-eq_of_lt h) (mul-div_cancel a nonzero)

wraps : (a b : ℕ) → 0 < b → 2 ^ 64 ≤ a * b → (a * b % 2 ^ 64) / b ≢ a
wraps a b nonzero h = λ e.
    let small : a * b % 2 ^ 64 < 2 ^ 64 = mod-lt (a * b) (omega arith) in
    absurd (omega (arith, e, (div-lt_iff_lt-mul nonzero).1 (le_trans small h)))

-- On 64-bit operands the division test and the compiler's overflow test give the same product or
-- refusal.
pub mul_u64-agree : (a b : ℕ) → IsU64 a → IsU64 b → mul_u64_wrapped a b ≡ mul_u64_builtin a b
unfolding mul_u64_wrapped mul_u64_builtin
mul_u64-agree a b ha hb = elim (dec_lt 0 b) [
  | yes nonzero ↦ elim (dec_lt (a * b) (2 ^ 64)) [
    | yes small ↦ ground (arith, fits a b nonzero small, zero-mul b)
    | no big ↦ ground (arith, wraps a b nonzero (omega arith), zero-mul b)
  ]
  | no none_left ↦ ground (arith, mul-zero a)
]

-- On operands of type `size_t` the sum succeeds exactly when it fits, and is then the true sum.
pub add_size_lem : (a b : ℕ) → add_size a b ≡ (if leb (a + b) size_max then some (a + b) else none)
unfolding add_size
add_size_lem a b = ground arith

pub mul_size_lem : (a b : ℕ) → mul_size a b ≡ (if leb (a * b) size_max then some (a * b) else none)
unfolding mul_size
mul_size_lem a b = ground arith
