-- ===== src/Core/Checked.antt =====
-- src/core_c/fr_checked.c: arithmetic that refuses to overflow. `none` is the result false, with
-- `*out` left as it was; `some r` is true, with r stored through `out`.
use forgerelay.Prelude.{
  Option, if◌then◌else◌, leb, ltb, none, not, some, ℕ, ◌%◌, ◌*◌, ◌+◌, ◌-◌, ◌/◌, ◌==◌, ◌^◌, ◌||◌,
}
pub mod Exact

-- SIZE_MAX of a platform whose `size_t` has 64 bits.
abbrev pub size_max : ℕ
size_max = 2 ^ 64 - 1

-- `fr_checked_add_u32`, with the compiler's overflow test and without it.
pub add_u32_builtin : ℕ → ℕ → Option ℕ
add_u32_builtin a b = if leb (2 ^ 32) (a + b) then none else some (a + b)

pub add_u32_wide : ℕ → ℕ → Option ℕ
add_u32_wide a b =
    let wide = (a + b) % 2 ^ 64 in if ltb (2 ^ 32 - 1) wide then none else some (wide % 2 ^ 32)

-- `fr_checked_add_u64`, likewise: the portable test is that the wrapped sum fell below `a`.
pub add_u64_builtin : ℕ → ℕ → Option ℕ
add_u64_builtin a b = if leb (2 ^ 64) (a + b) then none else some (a + b)

pub add_u64_wrapped : ℕ → ℕ → Option ℕ
add_u64_wrapped a b = let r = (a + b) % 2 ^ 64 in if ltb r a then none else some r

pub sub_u64 : ℕ → ℕ → Option ℕ
sub_u64 a b = if ltb a b then none else some (a - b)

-- `fr_checked_mul_u64`, likewise: the portable test divides the wrapped product by `b`.
pub mul_u64_builtin : ℕ → ℕ → Option ℕ
mul_u64_builtin a b = if leb (2 ^ 64) (a * b) then none else some (a * b)

pub mul_u64_wrapped : ℕ → ℕ → Option ℕ
mul_u64_wrapped a b =
    let r = a * b % 2 ^ 64 in
    if a == 0 || b == 0 then some 0 else if not (r / b == a) then none else some r

pub size_from_u64 : ℕ → Option ℕ
size_from_u64 v = if ltb size_max v then none else some v

bind : Option ℕ → (ℕ → Option ℕ) → Option ℕ
bind none f = none
bind (some v) f = f v

unfoldable pub add_size : ℕ → ℕ → Option ℕ
unfolding add_u64_builtin size_from_u64 bind
add_size a b = bind (add_u64_builtin a b) size_from_u64

pub sub_size : ℕ → ℕ → Option ℕ
unfolding sub_u64 size_from_u64 bind
sub_size a b = bind (sub_u64 a b) size_from_u64

unfoldable pub mul_size : ℕ → ℕ → Option ℕ
unfolding mul_u64_builtin size_from_u64 bind
mul_size a b = bind (mul_u64_builtin a b) size_from_u64
