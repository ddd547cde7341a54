-- ===== src/Core/Buffer/Reader.antt =====
-- src/core_c/fr_buffer.c: the bounds-checked reader. `input` is data[0 .. len - 1]. A
-- `fr_buf_reader *` and the pointers to results are never NULL here.
use forgerelay.Prelude.{
  List, drop, get_or, if◌then◌else◌, leb, length, ltb, pos, take, ℕ, ◌++◌, ◌+◌, ◌-◌,
}
use forgerelay.Core.Buffer.{Allocator, Buf, Done, reserve}
use forgerelay.Core.Byteorder.{load_be16, load_be32, load_be64}
use forgerelay.Core.Status.{Status, e_range, fr_ok}
pub mod Unread
pub mod Width

pub record Reader : Type 0 where
  pub input : List ℕ
  pub pos : ℕ

-- What a read gives: a value and the reader after it, or a status with the reader as it was.
pub data Read {ℓ} (A : Type ℓ) : Type ℓ where
  got : A → Reader → Read A
  failed : Status → Read A

-- `fr_buf_reader_init`.
pub init : List ℕ → Reader
init l = record { input = l; pos = 0 }

-- `fr_buf_reader_remaining`.
pub remaining : Reader → ℕ
remaining r = if leb (length r.input) r.pos then 0 else length r.input - r.pos

-- `fr_buf_reader_read`.
pub read : Reader → ℕ → Read (List ℕ)
unfolding remaining
read r n =
    if ltb (remaining r) n
    then failed e_range
    else got (take n (drop r.pos r.input)) (record r { pos = r.pos + n })

-- The fixed-width reads decode the bytes that `fr_buf_reader_read` copied.
decoded : (List ℕ → ℕ) → Read (List ℕ) → Read ℕ
decoded load (got raw r) = got (load raw) r
decoded load (failed st) = failed st

pub read_u8 : Reader → Read ℕ
unfolding read decoded
read_u8 r = decoded (λ raw. get_or raw 0 0) (read r 1)

pub read_u16be : Reader → Read ℕ
unfolding read decoded
read_u16be r = decoded load_be16 (read r 2)

pub read_u32be : Reader → Read ℕ
unfolding read decoded
read_u32be r = decoded load_be32 (read r 4)

pub read_u64be : Reader → Read ℕ
unfolding read decoded
read_u64be r = decoded load_be64 (read r 8)

-- `fr_buf_reader_skip`.
pub skip : Reader → ℕ → Read (Unit {0})
unfolding remaining
skip r n = if ltb (remaining r) n then failed e_range else got tt (record r { pos = r.pos + n })

-- `fr_buf_reader_bytes`: the next n bytes go to the end of a buffer, and the reader moves on only if
-- they fit.
read_bytes_reserved : Reader → ℕ → Done → Done × Reader
read_bytes_reserved r n d = elim (d.status) [
  | fr_ok ↦ (
    record d { buf = record (d.buf) { contents = d.buf.contents ++ take n (drop r.pos r.input) } },
    record r { pos = r.pos + n },
  )
  | _ ↦ (d, r)
]

pub read_bytes : Allocator → Reader → Buf → ℕ → Done × Reader
unfolding remaining read_bytes_reserved
read_bytes alloc r out n =
    if ltb (remaining r) n
    then (record { status = e_range; buf = out }, r)
    else read_bytes_reserved r n (reserve alloc out n)
