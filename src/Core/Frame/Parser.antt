-- ===== src/Core/Frame/Parser.antt =====
-- src/core_c/fr_frame.c: the incremental parser, `fr_frame_parser_*`. A parser and the pointers to
-- results are never NULL here.
use forgerelay.Prelude.{
  Bool, List, Source, [], bytes, drop, false, get_or, if◌then◌else◌, length, ltb, not, null, suc,
  take, true, zero, ℕ, ◌%◌, ◌&&◌, ◌++◌, ◌+◌, ◌-◌, ◌==◌, ◌^◌, ◌∷◌,
}
use forgerelay.Core.Buffer.{Allocator, Buf, append, clear, empty}
use forgerelay.Core.Byteorder.{load_be16, load_be32}
use forgerelay.Core.Crc32.{crc32}
use forgerelay.Core.Frame.{
  Frame, frame_magic, frame_version, header_size, max_payload, msg_type_valid,
}
use forgerelay.Core.Status.{Status, e_arg, e_internal, e_protocol, fr_ok}
pub mod Header
pub mod Feed
pub mod Payload
pub mod Step
pub mod Stream

-- `fr_frame_parser`. `header` is header[0 .. header_have - 1], so `header_have` is its length.
pub record Parser : Type 0 where
  pub payload_buf : Buf
  pub header : List ℕ
  pub header_done : Bool
  pub type : ℕ
  pub flags : ℕ
  pub req_id : ℕ
  pub payload_need : ℕ

-- `fr_frame_parser_init`; `fr_frame_parser_destroy` leaves the same state.
abbrev pub init_parser : Parser
init_parser = record {
  payload_buf = empty;
  header = [];
  header_done = false;
  type = 0;
  flags = 0;
  req_id = 0;
  payload_need = 0;
}

-- `memcmp(a, b, n) == 0` for two lists of n bytes.
abbrev pub same_bytes : List ℕ → List ℕ → Bool
same_bytes [] [] = true
same_bytes (x ∷ xs) (y ∷ ys) = x == y && same_bytes xs ys
same_bytes _ _ = false

-- The checks of `frame_validate_header` on the fields that it has read.
pub check_fields : Parser → Status
check_fields p =
    if not (p.flags == 0)
    then e_protocol
    else if p.req_id == 0
    then e_protocol
    else if not (msg_type_valid p.type)
    then e_protocol
    else if ltb max_payload p.payload_need
    then e_protocol
    else if not (load_be32 (drop 16 p.header) == crc32 (take 16 p.header))
    then e_protocol
    else fr_ok

-- The parser after `frame_validate_header` has stored the fields.
pub read_fields : Parser → Parser
read_fields p = record p {
  type = get_or p.header 5 0;
  flags = load_be16 (drop 6 p.header);
  req_id = load_be32 (drop 8 p.header);
  payload_need = load_be32 (drop 12 p.header);
}

-- `frame_validate_header`.
pub validate_header : Parser → Status × Parser
validate_header p =
    if not (same_bytes (take 4 p.header) frame_magic)
    then (e_protocol, p)
    else if not (get_or p.header 4 0 == frame_version)
    then (e_protocol, p)
    else (check_fields (read_fields p), read_fields p)

-- Where the header loop ends: with what is left of the input, or in a refusal. `unfinished` is no outcome
-- of the program: the rounds ran out.
pub data Filled : Type 0 where
  filled : Parser → List ℕ → Filled
  invalid : Status → Parser → Filled
  unfinished : Filled

-- The test of the header loop.
pub wants_header : Parser → List ℕ → Bool
wants_header p rest =
    not p.header_done && (ltb (length p.header) header_size && ltb 0 (length rest))

abbrev pub at_most : ℕ → ℕ → ℕ
at_most left want = if ltb left want then left else want

-- How much of the input one round copies to the header.
pub header_count : Parser → List ℕ → ℕ
header_count p rest = at_most (length rest) (header_size - length p.header)

-- The parser and the input after the copy.
abbrev pub copy_header : Parser → List ℕ → Parser
copy_header p rest = record p { header = p.header ++ take (header_count p rest) rest }

abbrev pub after_header : Parser → List ℕ → List ℕ
after_header p rest = drop (header_count p rest) rest

-- A round of the header loop ends with a parser, or in the return of a status.
pub data Round : Type 0 where
  again : Parser → Round
  broken : Status → Parser → Round

pub validated : Status → Parser → Round
validated fr_ok p = again (record p { header_done = true })
validated st p = broken st p

-- The body of the header loop.
pub header_round : Parser → List ℕ → Round
header_round p rest =
    let p' = copy_header p rest in
    if length p'.header == header_size
    then validated (validate_header p').0 (validate_header p').1
    else again p'

-- The header loop, with a bound on the rounds.
pub fill_header : ℕ → Parser → List ℕ → Filled
fill_header zero p rest = if wants_header p rest then unfinished else filled p rest
fill_header (suc rounds) p rest =
    if wants_header p rest
    then elim (header_round p rest) [
      | again p' ↦ fill_header rounds p' (after_header p rest)
      | broken st p' ↦ invalid st p'
    ]
    else filled p rest

-- What `fr_frame_parser_feed` gives: a status other than FR_OK; or FR_OK with the number of bytes
-- consumed, and the frame if one is ready.
pub data Fed : Type 0 where
  refused : Status → Parser → Fed
  starved : Parser → ℕ → Fed
  ready : Parser → ℕ → Frame → Fed

-- `(size_t)payload_need - payload_buf.len`, on `size_t`.
pub missing : Parser → ℕ
missing p = (p.payload_need + 2 ^ 64 - length p.payload_buf.contents) % 2 ^ 64

-- The parser once a frame is out: the buffer keeps its capacity.
pub reset : Parser → Parser
reset p = record init_parser { payload_buf = clear p.payload_buf }

pub frame_of : Parser → Frame
frame_of p = record {
  type = p.type;
  flags = p.flags;
  req_id = p.req_id;
  payload = p.payload_buf.contents;
}

-- How much of the input one feed takes for the payload.
pub payload_count : Parser → List ℕ → ℕ
payload_count p rest = at_most (length rest) (missing p)

-- The end of a feed: whether the payload is complete.
pub finish : Parser → ℕ → Fed
finish p consumed =
    if not (length p.payload_buf.contents == p.payload_need)
    then starved p consumed
    else ready (reset p) consumed (frame_of p)

-- After the append to the payload buffer.
pub append_result : Status → Parser → ℕ → Fed
append_result fr_ok p consumed = finish p consumed
append_result st p consumed = refused st p

module _ (alloc : Allocator) where
  -- The payload phase, on the input that the header loop left.
  pub take_payload : Parser → ℕ → List ℕ → Fed
  take_payload p off rest =
      let n = payload_count p rest in
      if not (n == 0)
      then (let d = append alloc p.payload_buf (bytes (take n rest)) in
          append_result d.status (record p { payload_buf = d.buf }) (off + n))
      else finish p off

  pub after_fill : ℕ → Filled → Fed
  after_fill len (filled p rest) =
      if not p.header_done
      then starved p (len - length rest)
      else take_payload p (len - length rest) rest
  after_fill len (invalid st p) = refused st p
  after_fill len unfinished = refused e_internal init_parser

  -- `fr_frame_parser_feed`.
  pub feed : Parser → Source → Fed
  feed p (null n) =
      if not (n == 0) then refused e_arg p else after_fill 0 (fill_header header_size p [])
  feed p (bytes l) = after_fill (length l) (fill_header header_size p l)
