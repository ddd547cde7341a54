-- ===== src/Core/Byteorder/Endian.antt =====
-- src/core_c/fr_byteorder.c: a load reads the number that its bytes write in base 256, and is the
-- inverse of the store.
use forgerelay.Prelude.{
  IsByte, IsU16, IsU32, IsU64, List, [], arith, ℕ, ◌%◌, ◌*◌, ◌++◌, ◌+◌, ◌/◌, ◌^◌, ◌∷◌, ◌≡◌,
}
use forgerelay.Core.Bits.{bit_or-add}
use forgerelay.Core.Byteorder.{load_be16, load_be32, load_be64, store_be16, store_be32, store_be64}

-- The number that a list of bytes writes in base 256, the most significant first.
pub be_value : ℕ → List ℕ → ℕ
be_value acc [] = acc
be_value acc (b ∷ bs) = be_value (acc * 256 + b) bs

module _ (a b c d : ℕ) (ha : IsByte a) (hb : IsByte b) (hc : IsByte c) (hd : IsByte d) where
  load_be16-value : (rest : List ℕ) → load_be16 (a ∷ b ∷ rest) ≡ be_value 0 (a ∷ b ∷ [])
  unfolding load_be16 be_value
  load_be16-value rest = ground (arith, bit_or-add 8 a b hb)

  load_be32-value :
      (rest : List ℕ) → load_be32 (a ∷ b ∷ c ∷ d ∷ rest) ≡ be_value 0 (a ∷ b ∷ c ∷ d ∷ [])
  unfolding load_be32 be_value
  load_be32-value rest = ground (
    arith,
    bit_or-add 24 a (b * 2 ^ 16),
    bit_or-add 16 (a * 256 + b) (c * 2 ^ 8),
    bit_or-add 8 ((a * 256 + b) * 256 + c) d,
  )

  module _ (e f g h : ℕ) (he : IsByte e) (hf : IsByte f) (hg : IsByte g) (hh : IsByte h) where
    load_be64-value :
        (rest : List ℕ)
        → load_be64 (a ∷ b ∷ c ∷ d ∷ e ∷ f ∷ g ∷ h ∷ rest)
          ≡ be_value 0 (a ∷ b ∷ c ∷ d ∷ e ∷ f ∷ g ∷ h ∷ [])
    unfolding load_be64 be_value
    load_be64-value rest =
        let v2 = a * 256 + b in
        let v3 = v2 * 256 + c in
        let v4 = v3 * 256 + d in
        let v5 = v4 * 256 + e in
        let v6 = v5 * 256 + f in
        let v7 = v6 * 256 + g in
        ground (
          arith,
          bit_or-add 56 a (b * 2 ^ 48),
          bit_or-add 48 v2 (c * 2 ^ 40),
          bit_or-add 40 v3 (d * 2 ^ 32),
          bit_or-add 32 v4 (e * 2 ^ 24),
          bit_or-add 24 v5 (f * 2 ^ 16),
          bit_or-add 16 v6 (g * 2 ^ 8),
          bit_or-add 8 v7 h,
        )

-- A number of the width survives the store, whatever bytes follow it.
pub load-store_be16 : (v : ℕ) (rest : List ℕ) → IsU16 v → load_be16 (store_be16 v ++ rest) ≡ v
unfolding store_be16 be_value
load-store_be16 v rest h = omega (
  arith,
  load_be16-value (v / 2 ^ 8 % 256) (v % 256) 0 0 (omega arith) (omega arith) (omega arith)
      (omega arith) rest,
)

pub load-store_be32 : (v : ℕ) (rest : List ℕ) → IsU32 v → load_be32 (store_be32 v ++ rest) ≡ v
unfolding store_be32 be_value
load-store_be32 v rest h = omega (
  arith,
  load_be32-value (v / 2 ^ 24 % 256) (v / 2 ^ 16 % 256) (v / 2 ^ 8 % 256) (v % 256) (omega arith)
      (omega arith) (omega arith) (omega arith) rest,
)

-- A 64-bit number that is stored big-endian is loaded again, whatever bytes follow it.
pub load-store_be64 : (v : ℕ) (rest : List ℕ) → IsU64 v → load_be64 (store_be64 v ++ rest) ≡ v
unfolding store_be64 be_value
load-store_be64 v rest h = omega (
  arith,
  load_be64-value (v / 2 ^ 56 % 256) (v / 2 ^ 48 % 256) (v / 2 ^ 40 % 256) (v / 2 ^ 32 % 256)
      (omega arith) (omega arith) (omega arith) (omega arith) (v / 2 ^ 24 % 256) (v / 2 ^ 16 % 256)
      (v / 2 ^ 8 % 256) (v % 256) (omega arith) (omega arith) (omega arith) (omega arith) rest,
)

-- Four bytes that are loaded as a big-endian number are stored again as they were.
pub store-load_be32 :
    (a b c d : ℕ) (rest : List ℕ)
    → IsByte a
    → IsByte b
    → IsByte c
    → IsByte d
    → store_be32 (load_be32 (a ∷ b ∷ c ∷ d ∷ rest)) ≡ a ∷ b ∷ c ∷ d ∷ []
unfolding store_be32 be_value
store-load_be32 a b c d rest ha hb hc hd = ground (arith, load_be32-value a b c d ha hb hc hd rest)
