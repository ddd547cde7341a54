-- ===== src/Core/Crc32.antt =====
-- src/core_c/fr_crc32.c: the IEEE CRC32, bit by bit.
use forgerelay.Prelude.{
  List, [], bit_xor, if◌then◌else◌, not, refl, suc, zero, ℕ, ◌%◌, ◌/◌, ◌==◌, ◌^◌, ◌∷◌, ◌≡◌,
}
pub mod Detect

-- `^` on `uint32_t` operands.
pub xor32 : ℕ → ℕ → ℕ
xor32 a b = bit_xor a b % 2 ^ 32

-- The body of the inner loop.
crc_bit : ℕ → ℕ
crc_bit crc = if not (crc % 2 == 0) then xor32 (crc / 2) 0xedb88320 else crc / 2

-- The inner loop, with the rounds left.
crc_bits : ℕ → ℕ → ℕ
crc_bits zero crc = crc
crc_bits (suc left) crc = crc_bits left (crc_bit crc)

-- The outer loop, with the bytes left.
crc_bytes : ℕ → List ℕ → ℕ
crc_bytes crc [] = crc
crc_bytes crc (b ∷ bs) = crc_bytes (crc_bits 8 (xor32 crc b)) bs

-- `fr_crc32` on `length data` bytes: none gives 0.
pub crc32 : List ℕ → ℕ
unfolding xor32 crc_bit crc_bits crc_bytes
crc32 [] = 0
crc32 (b ∷ bs) = xor32 (crc_bytes 0xffffffff (b ∷ bs)) 0xffffffff

check_value : crc32 (0x31 ∷ 0x32 ∷ 0x33 ∷ 0x34 ∷ 0x35 ∷ 0x36 ∷ 0x37 ∷ 0x38 ∷ 0x39 ∷ []) ≡ 0xcbf43926
unfolding crc32
check_value = refl
