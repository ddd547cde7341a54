-- ===== src/Core/Buffer/Reader/Width.antt =====
-- src/core_c/fr_buffer.c: the fixed-width reads undo the fixed-width appends, and fail when bytes are
-- missing.
use forgerelay.Prelude.{
  IsU16, IsU32, IsU64, List, [], ap, get_or, length, refl, ℕ, ◌++◌, ◌+◌, ◌<◌, ◌∷◌, ◌≡◌,
}
use forgerelay.Core.Buffer.Reader.{
  Read, Reader, decoded, failed, got, read, read_u16be, read_u32be, read_u64be, read_u8,
}
use forgerelay.Core.Buffer.Reader.Unread.{read_prefix, read_short, unread}
use forgerelay.Core.Byteorder.{load_be16, load_be32, load_be64, store_be16, store_be32, store_be64}
use forgerelay.Core.Byteorder.Endian.{load-store_be16, load-store_be32, load-store_be64}
use forgerelay.Core.Status.{e_range}

-- The reader further on.
abbrev pub advance : Reader → ℕ → Reader
advance r n = record r { pos = r.pos + n }

-- The read takes `wire` off the front of the unread bytes, for the value a, and fails on fewer bytes.
abbrev pub TakesOff {ℓ} : {A : Type ℓ} → (Reader → Read A) → List ℕ → A → Type ℓ
TakesOff f wire a =
    (r : Reader) (rest : List ℕ)
    → unread r ≡ wire ++ rest
    → (f r ≡ got a (advance r (length wire))) × (unread (advance r (length wire)) ≡ rest)

abbrev pub FailsShort {ℓ} : {A : Type ℓ} → (Reader → Read A) → ℕ → Type ℓ
FailsShort f n = (r : Reader) → length (unread r) < n → f r ≡ failed e_range

decoded-got :
    (load : List ℕ → ℕ) (wire : List ℕ) (v : ℕ)
    → load wire ≡ v
    → TakesOff (λ r. decoded load (read r (length wire))) wire v
unfolding decoded
decoded-got load wire v e r rest h =
    let (ran, left) = read_prefix r wire rest h in
    (rw ran (ap (λ t. got t (advance r (length wire))) e), left)

decoded-short : (load : List ℕ → ℕ) (n : ℕ) → FailsShort (λ r. decoded load (read r n)) n
unfolding decoded
decoded-short load n r h = rw (read_short r n h) refl

pub read_u8-TakesOff : (v : ℕ) → TakesOff read_u8 (v ∷ []) v
unfolding read_u8
read_u8-TakesOff v = decoded-got (λ raw. get_or raw 0 0) (v ∷ []) v refl

pub read_u16be-TakesOff : (v : ℕ) → IsU16 v → TakesOff read_u16be (store_be16 v) v
unfolding read_u16be store_be16
read_u16be-TakesOff v h = decoded-got load_be16 (store_be16 v) v (load-store_be16 v [] h)

pub read_u32be-TakesOff : (v : ℕ) → IsU32 v → TakesOff read_u32be (store_be32 v) v
unfolding read_u32be store_be32
read_u32be-TakesOff v h = decoded-got load_be32 (store_be32 v) v (load-store_be32 v [] h)

pub read_u64be-TakesOff : (v : ℕ) → IsU64 v → TakesOff read_u64be (store_be64 v) v
unfolding read_u64be store_be64
read_u64be-TakesOff v h = decoded-got load_be64 (store_be64 v) v (load-store_be64 v [] h)

pub read_u8-FailsShort : FailsShort read_u8 1
unfolding read_u8
read_u8-FailsShort = decoded-short (λ raw. get_or raw 0 0) 1

pub read_u16be-FailsShort : FailsShort read_u16be 2
unfolding read_u16be
read_u16be-FailsShort = decoded-short load_be16 2

pub read_u32be-FailsShort : FailsShort read_u32be 4
unfolding read_u32be
read_u32be-FailsShort = decoded-short load_be32 4

pub read_u64be-FailsShort : FailsShort read_u64be 8
unfolding read_u64be
read_u64be-FailsShort = decoded-short load_be64 8
