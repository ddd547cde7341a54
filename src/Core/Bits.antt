-- ===== src/Core/Bits.antt =====
-- Laws of `|` and `^` at variables, from the digit by digit definition of the native operations.
use forgerelay.Prelude.{
  ap, arith, bit_or, bit_xor, refl, suc, sym, zero, ℕ, ◌%◌, ◌*◌, ◌+◌, ◌/◌, ◌<◌, ◌^◌, ◌≡◌, ◌≤◌,
}
use Prim.Native.Nat.{digits, differ, bit_or-bitwise, bit_xor-bitwise, max}
use native.Mathlib.Nat.{pow-suc, div-one, div-div-eq-div-mul}

module _ (join : ℕ → ℕ → ℕ) where
  -- Rounds beyond the size of the first operand change nothing.
  rounds_agree :
      (x y k l : ℕ) → x ≤ l → x ≤ k → digits (λ d. d) join k x y ≡ digits (λ d. d) join l x y
  rounds_agree zero y zero zero g h = refl
  rounds_agree zero y zero (suc l) g h = refl
  rounds_agree zero y (suc k) zero g h = refl
  rounds_agree zero y (suc k) (suc l) g h = refl
  rounds_agree (suc x) y zero l g h = absurd (omega arith)
  rounds_agree (suc x) y (suc k) zero g h = absurd (omega arith)
  rounds_agree (suc x) y (suc k) (suc l) g h =
      ap (λ (t : ℕ). t * 2 + join (suc x % 2) (y % 2))
        (rounds_agree (suc x / 2) (y / 2) k l (omega arith) (omega arith))

pub bit_or_step : (x y : ℕ) → max (x % 2) (y % 2) + 2 * bit_or (x / 2) (y / 2) ≡ bit_or x y
bit_or_step zero y = omega (arith, bit_or-bitwise 0 (y / 2), bit_or-bitwise 0 y)
bit_or_step (suc x) y = omega (
  arith,
  rounds_agree max (suc x / 2) (y / 2) x (suc x / 2) (omega arith) (omega arith),
  bit_or-bitwise (suc x / 2) (y / 2),
  bit_or-bitwise (suc x) y,
)

differ_lem : (x y : ℕ) → x < 2 → y < 2 → differ x y ≡ (x + y) % 2
differ_lem zero y h k = omega arith
differ_lem (suc zero) zero h k = refl
differ_lem (suc zero) (suc zero) h k = refl
differ_lem (suc zero) (suc (suc y)) h k = absurd (omega arith)
differ_lem (suc (suc x)) y h k = absurd (omega arith)

pub bit_xor_step : (a b : ℕ) → bit_xor a b ≡ bit_xor (a / 2) (b / 2) * 2 + (a % 2 + b % 2) % 2
bit_xor_step zero b = omega (arith, bit_xor-bitwise 0 b, bit_xor-bitwise 0 (b / 2))
bit_xor_step (suc a) b = omega (
  arith,
  bit_xor-bitwise (suc a) b,
  bit_xor-bitwise (suc a / 2) (b / 2),
  rounds_agree differ (suc a / 2) (b / 2) a (suc a / 2) (omega arith) (omega arith),
  differ_lem (suc a % 2) (b % 2) (omega arith) (omega arith),
)

-- One more place to shift.
shift_more : (high w : ℕ) → high * 2 ^ suc w ≡ (high * 2 ^ w) * 2
shift_more high w = omega (ap (λ (t : ℕ). high * t) (pow-suc 2 w), arith)

bit_or_nothing : (rounds x : ℕ) → x ≤ rounds → bit_or x 0 ≡ x
bit_or_nothing rounds zero h = refl
bit_or_nothing zero (suc x) h = absurd (omega arith)
bit_or_nothing (suc rounds) (suc x) h =
    omega (bit_or_nothing rounds (suc x / 2) (omega arith), bit_or_step (suc x) 0, arith)

-- A value shifted left by w bits and one of w bits have no bit in common: `|` adds them.
pub bit_or-add : (w high low : ℕ) → low < 2 ^ w → bit_or (high * 2 ^ w) low ≡ high * 2 ^ w + low
bit_or-add zero high low h = ground (bit_or_nothing high high (omega arith), arith)
bit_or-add (suc w) high low h = ground (
  bit_or-add w high (low / 2) (omega (arith, pow-suc 2 w)),
  bit_or_step (high * 2 ^ suc w) low,
  pow-suc 2 w,
  shift_more high w,
  arith,
)

pub bit_xor-lt : (k a b : ℕ) → a < 2 ^ k → b < 2 ^ k → bit_xor a b < 2 ^ k
bit_xor-lt zero zero zero h g = omega arith
bit_xor-lt zero (suc a) b h g = absurd (omega arith)
bit_xor-lt zero zero (suc b) h g = absurd (omega arith)
bit_xor-lt (suc k) a b h g = omega (
  arith,
  pow-suc 2 k,
  bit_xor_step a b,
  bit_xor-lt k (a / 2) (b / 2) (omega (arith, pow-suc 2 k)) (omega (arith, pow-suc 2 k)),
)

-- Halving, the right shift by one bit, goes through an exclusive or.
half_xor : (a b : ℕ) → bit_xor a b / 2 ≡ bit_xor (a / 2) (b / 2)
half_xor a b = omega (arith, bit_xor_step a b)

bit_xor_twice_fuel : (n a b : ℕ) → a + b ≤ n → bit_xor (bit_xor a b) b ≡ a
bit_xor_twice_fuel n zero zero h = refl
bit_xor_twice_fuel zero (suc a) b h = absurd (omega arith)
bit_xor_twice_fuel zero zero (suc b) h = absurd (omega arith)
bit_xor_twice_fuel (suc n) a b h = ground (
  arith,
  bit_xor_step a b,
  bit_xor_step (bit_xor a b) b,
  ap (λ (t : ℕ). bit_xor t (b / 2)) (half_xor a b),
  bit_xor_twice_fuel n (a / 2) (b / 2) (omega arith),
)

-- Exclusive or with b is its own inverse.
pub bit_xor_twice : (a b : ℕ) → bit_xor (bit_xor a b) b ≡ a
bit_xor_twice a b = bit_xor_twice_fuel (a + b) a b (omega arith)

halve_first : (k x : ℕ) → x / 2 ^ suc k ≡ x / 2 / 2 ^ k
halve_first k x = sym (rw (div-div-eq-div-mul x 2 (2 ^ k)) (ap (λ (d : ℕ). x / d) (doubled k)))
  where
    doubled : (k : ℕ) → 2 * 2 ^ k ≡ 2 ^ suc k
    doubled k = omega (arith, pow-suc 2 k)

-- A right shift goes through an exclusive or.
pub bit_xor-shift : (k a b : ℕ) → bit_xor a b / 2 ^ k ≡ bit_xor (a / 2 ^ k) (b / 2 ^ k)
bit_xor-shift zero a b = rw (div-one (bit_xor a b), div-one a, div-one b)
bit_xor-shift (suc k) a b =
    rw (halve_first k (bit_xor a b), halve_first k a, halve_first k b, half_xor a b)
      (bit_xor-shift k (a / 2) (b / 2))

bit_xor_comm_fuel : (n a b : ℕ) → a + b ≤ n → bit_xor a b ≡ bit_xor b a
bit_xor_comm_fuel n zero zero h = refl
bit_xor_comm_fuel zero (suc a) b h = absurd (omega arith)
bit_xor_comm_fuel zero zero (suc b) h = absurd (omega arith)
bit_xor_comm_fuel (suc n) a b h =
    omega
      (arith, bit_xor_step a b, bit_xor_step b a, bit_xor_comm_fuel n (a / 2) (b / 2) (omega arith))

pub bit_xor_comm : (a b : ℕ) → bit_xor a b ≡ bit_xor b a
bit_xor_comm a b = bit_xor_comm_fuel (a + b) a b (omega arith)
