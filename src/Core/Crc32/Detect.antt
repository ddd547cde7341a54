-- ===== src/Core/Crc32/Detect.antt =====
-- src/core_c/fr_crc32.c: one changed byte always changes the sum.
use forgerelay.Prelude.{
  All, IsByte, IsU32, List, [], ap, arith, refl, suc, sym, zero, ℕ, ◌%◌, ◌++◌, ◌/◌, ◌^◌, ◌∙◌, ◌∷◌,
  ◌≡◌, ◌≢◌,
}
use forgerelay.Core.Bits.{bit_xor-lt, bit_xor-shift, bit_xor_comm, bit_xor_twice}
use forgerelay.Core.Crc32.{crc32, crc_bit, crc_bits, crc_bytes, xor32}

pub crc32-IsU32 : (l : List ℕ) → IsU32 (crc32 l)
unfolding crc32
crc32-IsU32 [] = omega arith
crc32-IsU32 (b ∷ bs) = omega arith

xor32-injective : (a b c : ℕ) → IsU32 a → IsU32 b → IsU32 c → xor32 a c ≡ xor32 b c → a ≡ b
unfolding xor32
xor32-injective a b c ha hb hc e =
    ground (
      arith,
      bit_xor-lt 32 a c ha hc,
      bit_xor-lt 32 b c hb hc,
      bit_xor_twice a c,
      bit_xor_twice b c,
    )

-- The bit that falls out on the right comes back as the top bit.
crc_bit_top : (a : ℕ) → IsU32 a → crc_bit a / 2 ^ 31 ≡ a % 2
unfolding crc_bit xor32
crc_bit_top a h =
    ground (arith, bit_xor-lt 32 (a / 2) 0xedb88320, bit_xor-shift 31 (a / 2) 0xedb88320)

crc_bit-injective : (a b : ℕ) → IsU32 a → IsU32 b → crc_bit a ≡ crc_bit b → a ≡ b
unfolding crc_bit
crc_bit-injective a b ha hb e =
    ground (arith, crc_bit_top a ha, crc_bit_top b hb, xor32-injective (a / 2) (b / 2) 0xedb88320)

crc_bit-lt : (a : ℕ) → IsU32 a → IsU32 (crc_bit a)
unfolding crc_bit xor32
crc_bit-lt a h = ground arith

crc_bits-lt : (n a : ℕ) → IsU32 a → IsU32 (crc_bits n a)
unfolding crc_bits
crc_bits-lt zero a h = h
crc_bits-lt (suc n) a h = crc_bits-lt n (crc_bit a) (crc_bit-lt a h)

xor32-lt : (a b : ℕ) → IsU32 (xor32 a b)
unfolding xor32
xor32-lt a b = omega arith

crc_bits-injective : (n a b : ℕ) → IsU32 a → IsU32 b → crc_bits n a ≡ crc_bits n b → a ≡ b
unfolding crc_bits
crc_bits-injective zero a b ha hb e = e
crc_bits-injective (suc n) a b ha hb e =
    crc_bit-injective a b ha hb
      (crc_bits-injective n (crc_bit a) (crc_bit b) (crc_bit-lt a ha) (crc_bit-lt b hb) e)

-- One byte of input, from one state to the next.
abbrev absorb : ℕ → ℕ → ℕ
absorb crc x = crc_bits 8 (xor32 crc x)

absorb-lt : (crc x : ℕ) → IsU32 (absorb crc x)
absorb-lt crc x = crc_bits-lt 8 (xor32 crc x) (xor32-lt crc x)

absorb-injective : (a b x : ℕ) → IsU32 a → IsU32 b → IsByte x → absorb a x ≡ absorb b x → a ≡ b
absorb-injective a b x ha hb hx e =
    xor32-injective a b x ha hb (omega arith)
      (crc_bits-injective 8 (xor32 a x) (xor32 b x) (xor32-lt a x) (xor32-lt b x) e)

crc_bytes-lt : (l : List ℕ) (a : ℕ) → IsU32 a → IsU32 (crc_bytes a l)
unfolding crc_bytes
crc_bytes-lt [] a h = h
crc_bytes-lt (x ∷ l) a h = crc_bytes-lt l (absorb a x) (absorb-lt a x)

crc_bytes-injective :
    (l : List ℕ) (a b : ℕ)
    → All IsByte l
    → IsU32 a
    → IsU32 b
    → crc_bytes a l ≡ crc_bytes b l
    → a ≡ b
unfolding crc_bytes
crc_bytes-injective [] a b hl ha hb e = e
crc_bytes-injective (x ∷ l) a b hl ha hb e =
    absorb-injective a b x ha hb hl.0
      (crc_bytes-injective l (absorb a x) (absorb b x) hl.1 (absorb-lt a x) (absorb-lt b x) e)

crc_bytes-append : (l m : List ℕ) (a : ℕ) → crc_bytes a (l ++ m) ≡ crc_bytes (crc_bytes a l) m
unfolding crc_bytes
crc_bytes-append [] m a = refl
crc_bytes-append (x ∷ l) m a = crc_bytes-append l m (absorb a x)

xor32_comm : (a b : ℕ) → xor32 a b ≡ xor32 b a
unfolding xor32
xor32_comm a b = ap (λ (t : ℕ). t % 2 ^ 32) (bit_xor_comm a b)

-- From one state, two bytes lead to two states.
xor32-injective_right : (s x y : ℕ) → IsU32 s → IsByte x → IsByte y → xor32 s x ≡ xor32 s y → x ≡ y
xor32-injective_right s x y hs hx hy e =
    xor32-injective x y s (omega arith) (omega arith) hs (xor32_comm x s ∙ e ∙ xor32_comm s y)

crc32_lem :
    (pre : List ℕ) (x : ℕ) (post : List ℕ)
    → crc32 (pre ++ x ∷ post)
      ≡ xor32 (crc_bytes (absorb (crc_bytes 0xffffffff pre) x) post) 0xffffffff
unfolding crc32 crc_bytes
crc32_lem [] x post = refl
crc32_lem (y ∷ pre) x post =
    ap (λ (t : ℕ). xor32 t 0xffffffff) (crc_bytes-append pre (x ∷ post) (absorb 0xffffffff y))

-- Two messages of bytes that differ in one of them have different CRC32 sums, wherever the byte
-- stands.
pub crc32_detects_byte :
    (pre : List ℕ) (x y : ℕ) (post : List ℕ)
    → IsByte x
    → IsByte y
    → All IsByte post
    → x ≢ y
    → crc32 (pre ++ x ∷ post) ≢ crc32 (pre ++ y ∷ post)
crc32_detects_byte pre x y post hx hy hpost differs same =
    let s = crc_bytes 0xffffffff pre in
    let s_lt : IsU32 s = crc_bytes-lt pre 0xffffffff (omega arith) in
    let sums = sym (crc32_lem pre x post) ∙ same ∙ crc32_lem pre y post in
    let after =
      xor32-injective (crc_bytes (absorb s x) post) (crc_bytes (absorb s y) post) 0xffffffff
        (crc_bytes-lt post (absorb s x) (absorb-lt s x))
        (crc_bytes-lt post (absorb s y) (absorb-lt s y)) (omega arith) sums in
    let states =
      crc_bytes-injective post (absorb s x) (absorb s y) hpost (absorb-lt s x) (absorb-lt s y)
        after in
    let mixed = crc_bits-injective 8 (xor32 s x) (xor32 s y) (xor32-lt s x) (xor32-lt s y) states in
    differs (xor32-injective_right s x y s_lt hx hy mixed)
