-- ===== src/Core/Hex/RoundTrip.antt =====
-- src/core_c/fr_hex.c: decoding undoes encoding, and a valid digest is the encoding of 32 bytes.
use forgerelay.Prelude.{
  ==_iff, All, Bool, Bool-cases, IsByte, List, [], ap, arith, bit_or, bytes, get_or, if◌then◌else◌,
  inl, inr, leb, length, ltb, refl, some, suc, true, zero, ℕ, ◌%◌, ◌&&◌, ◌*◌, ◌++◌, ◌+◌, ◌-◌, ◌/◌,
  ◌<◌, ◌==◌, ◌^◌, ◌∷◌, ◌≡◌, ◌≤◌,
}
use forgerelay.Core.Bits.{bit_or-add}
use forgerelay.Core.Hex.{
  all_chars, decode_bytes, decode_pair, digest_hex_valid, encode_bytes, fill_of, hex_decode,
  hex_digit, hex_digit_value, hex_digits, hex_encode, is_lower_hex, join_byte, join_digits, wrote,
}

below : (ℕ → Bool) → ℕ → Bool
below f zero = true
below f (suc n) = f n && below f n

below_lem : (f : ℕ → Bool) (n k : ℕ) → below f n ≡ true → k < n → f k ≡ true
unfolding below
below_lem f zero k h lt = absurd (omega arith)
below_lem f (suc n) k h lt = elim (Bool-cases (k == n)) [
  | inl e ↦ ground (arith, h)
  | inr e ↦ ground (arith, h, below_lem f n k)
]

-- The digits are those of ASCII.
hex_digit_lem : (v : ℕ) → hex_digit v ≡ (if ltb (v % 16) 10 then v % 16 + 48 else v % 16 + 87)
unfolding hex_digit below
hex_digit_lem v = (==_iff _ _).0 (
    below_lem (λ k. get_or hex_digits k 0 == (if ltb k 10 then k + 48 else k + 87)) 16 (v % 16) refl
      (omega arith))

hex_digit_value-hex_digit : (v : ℕ) → hex_digit_value (hex_digit v) ≡ some (v % 16)
unfolding hex_digit_value
hex_digit_value-hex_digit v = ground (arith, hex_digit_lem v)

decode_pair-hex_digit : (b : ℕ) → IsByte b → decode_pair (hex_digit (b / 16)) (hex_digit b) ≡ some b
unfolding decode_pair join_digits
decode_pair-hex_digit b h =
    rw (hex_digit_value-hex_digit (b / 16), hex_digit_value-hex_digit b)
      (ap (λ (t : ℕ). some t) (omega (arith, bit_or-add 4 (b / 16 % 16) (b % 16) (omega arith))))

decode-encode_bytes : (raw : List ℕ) → All IsByte raw → decode_bytes (encode_bytes raw) ≡ some raw
unfolding decode_bytes encode_bytes join_byte
decode-encode_bytes [] h = refl
decode-encode_bytes (b ∷ raw) h = rw (decode_pair-hex_digit b h.0, decode-encode_bytes raw h.1) refl

length-encode_bytes : (raw : List ℕ) → length (encode_bytes raw) ≡ length raw * 2
unfolding encode_bytes
length-encode_bytes [] = refl
length-encode_bytes (b ∷ raw) = omega (arith, length-encode_bytes raw)

-- Bytes that are encoded into a buffer with room are stored as text with a NUL behind it, and the
-- text decodes to the bytes again.
pub hex_decode-hex_encode :
    (raw : List ℕ) (cap out_cap : ℕ)
    → All IsByte raw
    → length raw * 2 < cap
    → cap < 2 ^ 64
    → length raw ≤ out_cap
    → (hex : List ℕ) × (hex_encode (bytes raw) cap ≡ wrote (hex ++ 0 ∷ []))
      × (hex_decode hex out_cap ≡ wrote raw)
unfolding hex_encode hex_decode fill_of
hex_decode-hex_encode raw cap out_cap h room small out_room =
    let size = length-encode_bytes raw in
    (
      encode_bytes raw,
      ground (arith, room, small),
      rw (decode-encode_bytes raw h) (ground (arith, size, out_room)),
    )

IsCanonical : ℕ → Type 0
IsCanonical c =
    (v : ℕ) × (v < 16) × (hex_digit_value c ≡ some v) × ((w : ℕ) → w % 16 ≡ v → hex_digit w ≡ c)

lower_digit : (c : ℕ) → is_lower_hex c ≡ true → IsCanonical c
unfolding is_lower_hex IsCanonical hex_digit_value
lower_digit c h = elim (Bool-cases (leb c 57)) [
  | inl low ↦
      (c - 48, ground (arith, h), ground (arith, h), λ w e. ground (arith, h, hex_digit_lem w))
  | inr high ↦
      (c - 87, ground (arith, h), ground (arith, h), λ w e. ground (arith, h, hex_digit_lem w))
]

-- Two lower case digits make a byte whose encoding they are.
lower_pair :
    (a b : ℕ)
    → is_lower_hex a ≡ true
    → is_lower_hex b ≡ true
    → (x : ℕ) × IsByte x × (decode_pair a b ≡ some x) × (hex_digit (x / 16) ≡ a) × (hex_digit x ≡ b)
unfolding decode_pair join_digits IsCanonical
lower_pair a b ha hb =
    let (hi, hi_lt, hi_value, hi_digit) = lower_digit a ha in
    let (lo, lo_lt, lo_value, lo_digit) = lower_digit b hb in
    let sum = bit_or-add 4 hi lo (omega arith) in
    (
      bit_or (hi * 2 ^ 4) lo % 256,
      omega arith,
      rw (hi_value, lo_value) refl,
      hi_digit (bit_or (hi * 2 ^ 4) lo % 256 / 16) (omega (arith, sum)),
      lo_digit (bit_or (hi * 2 ^ 4) lo % 256) (omega (arith, sum)),
    )

lower_round :
    (n : ℕ) (s : List ℕ)
    → length s ≡ n * 2
    → all_chars is_lower_hex s ≡ true
    → (raw : List ℕ) × (length raw ≡ n) × (decode_bytes s ≡ some raw) × (encode_bytes raw ≡ s)
unfolding all_chars decode_bytes encode_bytes join_byte
lower_round zero [] e h = ([], refl, refl, refl)
lower_round zero (a ∷ s) e h = absurd (omega (arith, e))
lower_round (suc n) [] e h = absurd (omega (arith, e))
lower_round (suc n) (a ∷ []) e h = absurd (omega (arith, e))
lower_round (suc n) (a ∷ b ∷ s) e h =
    let (x, lt, pair, high, low) = lower_pair a b (ground (arith, h)) (ground (arith, h)) in
    let (raw, size, ran, back) = lower_round n s (omega (arith, e)) (ground (arith, h)) in
    (x ∷ raw, omega (arith, size), rw (pair, ran) refl, rw (high, low, back) refl)

-- A text that fr_digest_hex_valid accepts decodes to 32 bytes, and these encode to that very
-- text.
pub hex_encode-hex_decode :
    (s : List ℕ)
    → digest_hex_valid s ≡ true
    → (raw : List ℕ) × (length raw ≡ 32)
      × (hex_decode s 32 ≡ wrote raw)
      × (hex_encode (bytes raw) 65 ≡ wrote (s ++ 0 ∷ []))
unfolding digest_hex_valid hex_encode hex_decode fill_of
hex_encode-hex_decode s h =
    let size : length s ≡ 64 = ground (arith, h) in
    let (raw, n, ran, back) = lower_round 32 s (omega (arith, size)) (ground (arith, h)) in
    (raw, n, rw (size, ran) refl, rw (n, back) refl)
