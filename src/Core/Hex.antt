-- ===== src/Core/Hex.antt =====
-- src/core_c/fr_hex.c: bytes as hexadecimal text. A C string is the list of its characters before the
-- NUL; only the pointer `raw` may be NULL here.
use forgerelay.Prelude.{
  Bool, List, Option, Source, [], bit_or, bytes, get_or, if◌then◌else◌, leb, length, ltb, none, not,
  null, some, true, ℕ, ◌%◌, ◌&&◌, ◌*◌, ◌++◌, ◌+◌, ◌-◌, ◌/◌, ◌==◌, ◌^◌, ◌||◌, ◌∷◌,
}
use forgerelay.Core.Status.{Status, e_arg, e_range}
pub mod RoundTrip

-- `wrote l` is FR_OK, with the bytes l stored in the caller's buffer.
pub data Fill : Type 0 where
  wrote : List ℕ → Fill
  declined : Status → Fill

-- FR_SHA256_HEX_LEN.
abbrev pub sha256_hex_len : ℕ
sha256_hex_len = 64

-- "0123456789abcdef"
abbrev hex_digits : List ℕ
hex_digits = 48 ∷ 49 ∷ 50 ∷ 51 ∷ 52 ∷ 53 ∷ 54 ∷ 55 ∷ 56 ∷ 57 ∷ 97 ∷ 98 ∷ 99 ∷ 100 ∷ 101 ∷ 102 ∷ []

abbrev pub in_range : ℕ → ℕ → ℕ → Bool
in_range low high c = leb low c && leb c high

-- `none` is -1.
pub hex_digit_value : ℕ → Option ℕ
hex_digit_value c =
    if in_range 48 57 c
    then some (c - 48)
    else if in_range 97 102 c
    then some (c - 97 + 10)
    else if in_range 65 70 c
    then some (c - 65 + 10)
    else none

unfoldable pub is_lower_hex : ℕ → Bool
is_lower_hex c = in_range 48 57 c || in_range 97 102 c

-- The mask 0x0f is the remainder by 16.
pub hex_digit : ℕ → ℕ
hex_digit v = get_or hex_digits (v % 16) 0

pub encode_bytes : List ℕ → List ℕ
encode_bytes [] = []
encode_bytes (b ∷ raw) = hex_digit (b / 16) ∷ hex_digit b ∷ encode_bytes raw

-- The text is stored with its NUL.
pub hex_encode : Source → ℕ → Fill
hex_encode (null n) out_cap =
    if not (n == 0)
    then declined e_arg
    else if ltb out_cap ((n * 2 + 1) % 2 ^ 64)
    then declined e_range
    else wrote (0 ∷ [])
hex_encode (bytes raw) out_cap =
    if ltb out_cap ((length raw * 2 + 1) % 2 ^ 64)
    then declined e_range
    else wrote (encode_bytes raw ++ 0 ∷ [])

join_digits : Option ℕ → Option ℕ → Option ℕ
join_digits none lo = none
join_digits (some hi) none = none
join_digits (some hi) (some lo) = some (bit_or (hi * 2 ^ 4) lo % 256)

-- The byte of two digits.
pub decode_pair : ℕ → ℕ → Option ℕ
unfolding join_digits
decode_pair a b = join_digits (hex_digit_value a) (hex_digit_value b)

join_byte : Option ℕ → Option (List ℕ) → Option (List ℕ)
join_byte none rest = none
join_byte (some b) none = none
join_byte (some b) (some bs) = some (b ∷ bs)

-- After a digit without a partner the loop meets the NUL, which is no digit.
pub decode_bytes : List ℕ → Option (List ℕ)
unfolding join_byte
decode_bytes [] = some []
decode_bytes (a ∷ []) = none
decode_bytes (a ∷ b ∷ hex) = join_byte (decode_pair a b) (decode_bytes hex)

fill_of : Option (List ℕ) → Fill
fill_of none = declined e_arg
fill_of (some l) = wrote l

pub hex_decode : List ℕ → ℕ → Fill
unfolding fill_of
hex_decode hex out_cap =
    if not (length hex % 2 == 0)
    then declined e_arg
    else if ltb out_cap (length hex / 2)
    then declined e_range
    else fill_of (decode_bytes hex)

unfoldable pub all_chars : (ℕ → Bool) → List ℕ → Bool
all_chars f [] = true
all_chars f (c ∷ s) = f c && all_chars f s

unfoldable pub digest_hex_valid : List ℕ → Bool
unfolding all_chars
digest_hex_valid s = length s == sha256_hex_len && all_chars is_lower_hex s
