-- ===== src/Prelude/Bytes.antt =====
-- What a C function is handed: a byte is a number below 256, and a pointer comes with a length.
use Prim.Native.Nat.{ℕ, ◌<◌, ◌^◌}
use mathlib.Core.List.{List}

abbrev pub IsByte : ℕ → Type 0
IsByte b = b < 256

abbrev pub IsU16 : ℕ → Type 0
IsU16 v = v < 2 ^ 16

abbrev pub IsU32 : ℕ → Type 0
IsU32 v = v < 2 ^ 32

abbrev pub IsU64 : ℕ → Type 0
IsU64 v = v < 2 ^ 64

-- A `(const void *, size_t)` argument: `null n` is the null pointer with the length n, and `bytes l`
-- a pointer to the bytes l with their number.
pub data Source : Type 0 where
  null : ℕ → Source
  bytes : List ℕ → Source
