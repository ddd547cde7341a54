-- ===== src/Core/Byteorder.antt =====
-- src/core_c/fr_byteorder.c: big-endian reads and writes. A load is given the bytes from the pointer
-- on, and a store gives the bytes that it writes.
use forgerelay.Prelude.{List, [], bit_or, get_or, ℕ, ◌%◌, ◌*◌, ◌/◌, ◌^◌, ◌∷◌}
pub mod Endian

abbrev shl32 : ℕ → ℕ → ℕ
shl32 v k = v * 2 ^ k % 2 ^ 32

abbrev shl64 : ℕ → ℕ → ℕ
shl64 v k = v * 2 ^ k % 2 ^ 64

pub load_be16 : List ℕ → ℕ
load_be16 p = bit_or (get_or p 0 0 * 2 ^ 8) (get_or p 1 0) % 2 ^ 16

pub load_be32 : List ℕ → ℕ
load_be32 p =
    bit_or
      (bit_or (bit_or (shl32 (get_or p 0 0) 24) (shl32 (get_or p 1 0) 16)) (shl32 (get_or p 2 0) 8))
      (get_or p 3 0)

load_be64_high : List ℕ → ℕ
load_be64_high p =
    bit_or
      (bit_or (bit_or (shl64 (get_or p 0 0) 56) (shl64 (get_or p 1 0) 48))
        (shl64 (get_or p 2 0) 40))
      (shl64 (get_or p 3 0) 32)

pub load_be64 : List ℕ → ℕ
unfolding load_be64_high
load_be64 p =
    bit_or
      (bit_or
        (bit_or (bit_or (load_be64_high p) (shl64 (get_or p 4 0) 24)) (shl64 (get_or p 5 0) 16))
        (shl64 (get_or p 6 0) 8))
      (get_or p 7 0)

unfoldable pub store_be16 : ℕ → List ℕ
store_be16 v = v / 2 ^ 8 % 256 ∷ v % 256 ∷ []

unfoldable pub store_be32 : ℕ → List ℕ
store_be32 v = v / 2 ^ 24 % 256 ∷ v / 2 ^ 16 % 256 ∷ v / 2 ^ 8 % 256 ∷ v % 256 ∷ []

unfoldable pub store_be64 : ℕ → List ℕ
store_be64 v =
    v / 2 ^ 56 % 256
    ∷ v / 2 ^ 48 % 256
    ∷ v / 2 ^ 40 % 256
    ∷ v / 2 ^ 32 % 256
    ∷ v / 2 ^ 24 % 256
    ∷ v / 2 ^ 16 % 256
    ∷ v / 2 ^ 8 % 256
    ∷ v % 256
    ∷ []
