-- ===== src/Core/Frame.antt =====
-- include/forgerelay/fr_frame.h and the encoder of src/core_c/fr_frame.c: the FRLY frame. The
-- incremental parser is in Frame/Parser.antt.
use forgerelay.Prelude.{
  Bool, List, Option, Source, [], bytes, false, if◌then◌else◌, length, ltb, none, not, null, some,
  true, ℕ, ◌%◌, ◌&&◌, ◌*◌, ◌++◌, ◌==◌, ◌^◌, ◌||◌, ◌∷◌,
}
use forgerelay.Core.Buffer.{Allocator, Buf, Done, append, reserve}
use forgerelay.Core.Byteorder.{store_be16, store_be32}
use forgerelay.Core.Checked.{add_size}
use forgerelay.Core.Crc32.{crc32}
use forgerelay.Core.Status.{Status, e_arg, e_overflow, e_range, fr_ok}
pub mod Parser
pub mod Encoding
mod Tests

-- 'F' 'R' 'L' 'Y'.
abbrev pub frame_magic : List ℕ
frame_magic = b'F' ∷ b'R' ∷ b'L' ∷ b'Y' ∷ []

abbrev pub frame_version : ℕ
frame_version = 1

abbrev pub header_size : ℕ
header_size = 20

-- 8 MiB.
abbrev pub max_payload : ℕ
max_payload = 8 * 1024 * 1024

-- The values of `fr_msg_type`, in its order: HELLO to CLOSE, CREATE_UPLOAD to ABORT_UPLOAD,
-- GET_ARTIFACT and DATA, LIST_ARTIFACTS to STATUS, DELETE_ARTIFACT to USER_LIST, TOKEN_CREATE to
-- TOKEN_LIST, SESSION_LIST and SESSION_ABORT, OK and ERROR.
abbrev pub msg_types : List ℕ
msg_types =
    1 ∷ 2 ∷ 3 ∷ 4 ∷ 16 ∷ 17 ∷ 18 ∷ 19 ∷ 20 ∷ 32 ∷ 33 ∷ 48 ∷ 49 ∷ 50 ∷ 64 ∷ 65 ∷ 66 ∷ 67 ∷ 68 ∷ 80
    ∷ 81 ∷ 82 ∷ 96 ∷ 97 ∷ 200 ∷ 201 ∷ []

contains : ℕ → List ℕ → Bool
contains x [] = false
contains x (y ∷ ys) = x == y || contains x ys

-- `fr_msg_type_valid`: the cases of its switch.
pub msg_type_valid : ℕ → Bool
unfolding contains
msg_type_valid type = contains type msg_types

-- `fr_frame`; `payload` is the bytes that its pointer shows, NULL when there are none.
pub record Frame : Type 0 where
  pub type : ℕ
  pub flags : ℕ
  pub req_id : ℕ
  pub payload : List ℕ

-- header[0 .. 15], as `fr_frame_encode` fills it.
pub header_fields : ℕ → ℕ → ℕ → ℕ → List ℕ
header_fields type flags req_id payload_len =
    frame_magic
    ++ (frame_version
        ∷ type
        ∷ (store_be16 flags ++ (store_be32 req_id ++ store_be32 (payload_len % 2 ^ 32))))

-- The whole header.
pub header_bytes : ℕ → ℕ → ℕ → ℕ → List ℕ
header_bytes type flags req_id payload_len =
    let fields = header_fields type flags req_id payload_len in fields ++ store_be32 (crc32 fields)

source_length : Source → ℕ
source_length (null n) = n
source_length (bytes l) = length l

is_null : Source → Bool
is_null (null n) = true
is_null (bytes l) = false

refuse_frame : Buf → Status → Done
refuse_frame out st = record { status = st; buf = out }

module _ (alloc : Allocator) where
  -- The second append, made if the first succeeded.
  append_payload : Status → Buf → Source → Done
  append_payload fr_ok out payload = append alloc out payload
  append_payload st out payload = record { status = st; buf = out }

  -- The two appends, made if the buffer could be reserved.
  append_frame : Status → Buf → List ℕ → Source → Done
  unfolding append_payload
  append_frame fr_ok out header payload =
      let d = append alloc out (bytes header) in append_payload d.status d.buf payload
  append_frame st out header payload = record { status = st; buf = out }

  reserve_frame : Buf → Option ℕ → Done
  reserve_frame out none = record { status = e_overflow; buf = out }
  reserve_frame out (some total) = reserve alloc out total

  -- `fr_frame_encode`.
  pub frame_encode : Buf → ℕ → ℕ → ℕ → Source → Done
  unfolding refuse_frame is_null source_length append_frame reserve_frame
  frame_encode out type flags req_id payload =
      if not (msg_type_valid type)
      then refuse_frame out e_arg
      else if not (flags == 0)
      then refuse_frame out e_arg
      else if req_id == 0
      then refuse_frame out e_arg
      else if is_null payload && not (source_length payload == 0)
      then refuse_frame out e_arg
      else if ltb max_payload (source_length payload)
      then refuse_frame out e_range
      else (let d = reserve_frame out (add_size header_size (source_length payload)) in
          append_frame d.status d.buf (header_bytes type flags req_id (source_length payload))
            payload)
