-- ===== src/Core/Frame/Encoding.antt =====
-- src/core_c/fr_frame.c: what `fr_frame_encode` writes.
use forgerelay.Prelude.{
  Bool-cases, List, append_assoc, arith, bytes, if◌then◌else◌, inl, inr, leb, length, length-append,
  le→leb, ltb, refl, some, true, ℕ, ◌&&◌, ◌++◌, ◌+◌, ◌<◌, ◌==◌, ◌^◌, ◌≡◌, ◌≤◌,
}
use forgerelay.Core.Buffer.{Allocator, Buf, Done}
use forgerelay.Core.Buffer.InPlace.{append-in_place}
use forgerelay.Core.Buffer.Invariant.{AllOrNothing, HasRoom, IsWf, Total, all, nothing}
use forgerelay.Core.Buffer.Reserve.{
  Reserved, in_place, moved, refused_memory, refused_size, reserve-Reserved,
}
use forgerelay.Core.Byteorder.{store_be16, store_be32}
use forgerelay.Core.Checked.{add_size, size_max}
use forgerelay.Core.Checked.Exact.{add_size_lem}
use forgerelay.Core.Frame.{
  Frame, append_frame, frame_encode, header_bytes, header_fields, header_size, max_payload,
  msg_type_valid,
}
use forgerelay.Core.Status.{Status, e_arg, e_nomem, e_overflow, e_range, fr_ok}

-- The bytes of a frame on the wire.
unfoldable pub frame_bytes : Frame → List ℕ
frame_bytes f = header_bytes f.type f.flags f.req_id (length f.payload) ++ f.payload

pub length-header_bytes : (t fl r n : ℕ) → length (header_bytes t fl r n) ≡ header_size
unfolding header_bytes header_fields store_be16 store_be32
length-header_bytes t fl r n = refl

-- What `fr_frame_encode` requires of a frame.
abbrev pub IsSendable : Frame → Type 0
IsSendable f =
    (msg_type_valid f.type ≡ true)
    × (f.flags ≡ 0)
    × (0 < f.req_id)
    × (length f.payload ≤ max_payload)

-- The call that sends a frame, with a valid pointer to its payload.
abbrev pub send : Allocator → Buf → Frame → Done
send alloc b f = frame_encode alloc b f.type f.flags f.req_id (bytes f.payload)

-- The header that goes with a frame.
abbrev pub header_for : Frame → List ℕ
header_for f = header_bytes f.type f.flags f.req_id (length f.payload)

pub length-header_for : (f : Frame) → length (header_for f) ≡ header_size
length-header_for f = length-header_bytes f.type f.flags f.req_id (length f.payload)

-- With the frame's size reserved, both appends take place where they are.
append_frame-reserved :
    (alloc : Allocator) {b : Buf} (f : Frame)
    → IsWf b
    → length b.contents + (header_size + length f.payload) ≤ b.cap
    → append_frame alloc fr_ok b (header_for f) (bytes f.payload) ≡ record {
      status = fr_ok;
      buf = record b { contents = b.contents ++ (header_for f ++ f.payload) };
    }
unfolding append_frame
append_frame-reserved alloc {b} f w h =
    let with_header : Buf = record b { contents = b.contents ++ header_for f } in
    let size = length-append b.contents (header_for f) in
    let w' : IsWf with_header = record {
      within = omega (arith, size, length-header_for f);
      bounded = w.bounded;
    } in
    rw
      (
        append-in_place alloc w (header_for f) (omega (arith, length-header_for f)),
        append-in_place alloc w' f.payload (omega (arith, size, length-header_for f)),
        append_assoc b.contents (header_for f) f.payload,
      )
      refl

-- The buffer with a frame behind it, in a capacity that covers it.
framed-IsWf :
    (l : List ℕ) (c : ℕ) (f : Frame)
    → length l + (header_size + length f.payload) ≤ c
    → c ≤ size_max
    → IsWf (record { contents = l ++ (header_for f ++ f.payload); cap = c })
framed-IsWf l c f h k = record {
  within = omega (
    arith,
    length-append l (header_for f ++ f.payload),
    length-append (header_for f) f.payload,
    length-header_for f,
  );
  bounded = k;
}

module _ (alloc : Allocator) {b : Buf} (w : IsWf b) (f : Frame) where
  append_frame-AllOrNothing :
      {d : Done}
      → Reserved alloc b (header_size + length f.payload) d
      → AllOrNothing b
          (b.contents ++ frame_bytes f)
          (append_frame alloc d.status d.buf (header_for f) (bytes f.payload))
  unfolding frame_bytes append_frame
  append_frame-AllOrNothing (in_place h) =
      rw (append_frame-reserved alloc f w h)
        (all _ refl (framed-IsWf b.contents b.cap f h w.bounded))
  append_frame-AllOrNothing (moved c h k a) =
      rw
        (append_frame-reserved alloc {b = record b { cap = c }} f
          (record { within = omega arith; bounded = k }) h)
        (all _ refl (framed-IsWf b.contents c f h k))
  append_frame-AllOrNothing (refused_size h) = nothing e_overflow (cc)
  append_frame-AllOrNothing (refused_memory c h a) = nothing e_nomem (cc)

  total_fits :
      length f.payload ≤ max_payload
      → add_size header_size (length f.payload) ≡ some (header_size + length f.payload)
  total_fits h = rw (
    add_size_lem header_size (length f.payload),
    le→leb (header_size + length f.payload) size_max (omega arith),
  )

  -- On a well-formed buffer, fr_frame_encode appends the whole frame and succeeds, or fails and
  -- leaves the buffer as it was, whatever the type, the flags, the request id and the bytes of
  -- the payload are and whatever memory there is.
  pub frame_encode-AllOrNothing : AllOrNothing b (b.contents ++ frame_bytes f) (send alloc b f)
  unfolding frame_encode
  frame_encode-AllOrNothing = elim (Bool-cases (msg_type_valid f.type)) [
    | inr bad ↦ rw bad (nothing e_arg (cc))
    | inl known ↦ rw known (elim (Bool-cases (f.flags == 0)) [
      | inr bad ↦ rw bad (nothing e_arg (cc))
      | inl plain ↦ rw plain (elim (Bool-cases (f.req_id == 0)) [
        | inl bad ↦ rw bad (nothing e_arg (cc))
        | inr named ↦ rw named (elim (Bool-cases (ltb max_payload (length f.payload))) [
          | inl long ↦ rw long (nothing e_range (cc))
          | inr short ↦
              rw (short, total_fits (ground arith))
                (append_frame-AllOrNothing
                  (reserve-Reserved alloc b (header_size + length f.payload) w.bounded))
        ])
      ])
    ])
  ]

-- The status that the arguments alone decide.
pub argument_status : Frame → Status
argument_status f =
    if msg_type_valid f.type && (f.flags == 0 && ltb 0 f.req_id)
    then if leb (length f.payload) max_payload then fr_ok else e_range
    else e_arg

module _ (alloc : Allocator) (total : Total alloc) {b : Buf} (f : Frame) where
  append_frame-total :
      {d : Done}
      → IsWf b
      → length b.contents + (header_size + length f.payload) ≤ 2 ^ 63
      → Reserved alloc b (header_size + length f.payload) d
      → (append_frame alloc d.status d.buf (header_for f) (bytes f.payload)).status ≡ fr_ok
  append_frame-total w room (in_place h) = rw (append_frame-reserved alloc f w h)
  append_frame-total w room (moved c h k a) = rw (
      append_frame-reserved alloc {b = record b { cap = c }} f
        (record { within = omega arith; bounded = k }) h)
  append_frame-total w room (refused_size h) = absurd (omega arith)
  append_frame-total w room (refused_memory c h a) = cc (total c)

  -- Where memory does not run out and the frame has room below 2 ^ 63, the status of
  -- fr_frame_encode is decided by its arguments alone: FR_E_ARG, FR_E_RANGE or FR_OK.
  pub frame_encode-status :
      HasRoom b (header_size + length f.payload) → (send alloc b f).status ≡ argument_status f
  unfolding frame_encode argument_status
  frame_encode-status (w, room) = elim (Bool-cases (leb (length f.payload) max_payload)) [
    | inr long ↦ ground arith
    | inl short ↦ ground (
      arith,
      total_fits alloc {b = b} w f (ground arith),
      append_frame-total w room
          (reserve-Reserved alloc b (header_size + length f.payload) w.bounded),
    )
  ]
