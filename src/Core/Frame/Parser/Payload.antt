-- ===== src/Core/Frame/Parser/Payload.antt =====
-- src/core_c/fr_frame.c: the payload phase of `fr_frame_parser_feed`.
use forgerelay.Prelude.{
  List, [], ap, append-nil, arith, bytes, inl, inr, length, length-append, refl, sym, take_left,
  true, ℕ, ◌++◌, ◌+◌, ◌<◌, ◌∙◌, ◌∷◌, ◌≡◌, ◌⊎◌,
}
use forgerelay.Core.Buffer.{Allocator, append}
use forgerelay.Core.Buffer.Invariant.{HasRoom, IsWf, Total, append-succeeds, suc_ne}
use forgerelay.Core.Frame.{Frame}
use forgerelay.Core.Frame.Parser.{
  Parser, append_result, finish, frame_of, missing, payload_count, ready, reset, starved,
  take_payload,
}
use forgerelay.Core.Frame.Parser.Header.{IsValid}

-- The parser has the header of f and a part of its payload, with more to come or all of it.
pub record IsInPayload (f : Frame) (p : Parser) : Type 0 where
  pub header_read : p.header_done ≡ true
  pub type_kept : p.type ≡ f.type
  pub flags_kept : p.flags ≡ f.flags
  pub req_id_kept : p.req_id ≡ f.req_id
  pub need_kept : p.payload_need ≡ length f.payload
  pub payload_buf_IsWf : IsWf p.payload_buf

-- The parser after a piece of the payload.
abbrev pub with_piece : Allocator → Parser → List ℕ → Parser
with_piece alloc p [] = p
with_piece alloc p (x ∷ piece) = record p {
  payload_buf = (append alloc p.payload_buf (bytes (x ∷ piece))).buf;
}

module _ (f : Frame) {p : Parser} (w : IsInPayload f p) where
  finish-short :
      (consumed : ℕ)
      → length p.payload_buf.contents < length f.payload
      → finish p consumed ≡ starved p consumed
  unfolding finish
  finish-short consumed h = ground (arith, w.need_kept)

  frame_of-eq : p.payload_buf.contents ≡ f.payload → frame_of p ≡ f
  unfolding frame_of
  frame_of-eq e = ground (arith, e, w.type_kept, w.flags_kept, w.req_id_kept)

  finish-end :
      (consumed : ℕ)
      → p.payload_buf.contents ≡ f.payload
      → finish p consumed ≡ ready (reset p) consumed f
  unfolding finish
  finish-end consumed e = ground (arith, frame_of-eq e, ap length e, w.need_kept)

module _ (alloc : Allocator) (total : Total alloc) (p : Parser) where
  with_piece_parts :
      (part : List ℕ)
      → HasRoom p.payload_buf (length part)
      → ((with_piece alloc p part).payload_buf.contents ≡ p.payload_buf.contents ++ part)
        × IsWf (with_piece alloc p part).payload_buf
  with_piece_parts [] h = (sym (append-nil p.payload_buf.contents), h.0)
  with_piece_parts (x ∷ part) h =
      ((append-succeeds alloc total (x ∷ part) h).1, (append-succeeds alloc total (x ∷ part) h).2)

  take_payload-count :
      (off : ℕ) (part rest : List ℕ)
      → HasRoom p.payload_buf (length part)
      → payload_count p (part ++ rest) ≡ length part
      → take_payload alloc p off (part ++ rest)
        ≡ finish (with_piece alloc p part) (off + length part)
  unfolding take_payload append_result
  take_payload-count off [] rest h e = rw e (ap (finish p) (omega arith))
  take_payload-count off (x ∷ part) rest h e =
      rw
        (
          e,
          suc_ne (length part),
          take_left (x ∷ part) rest,
          (append-succeeds alloc total (x ∷ part) h).0,
        )
        refl

module _ (alloc : Allocator) (total : Total alloc) (f : Frame) (v : IsValid f) (p : Parser)
    (w : IsInPayload f p) where
  module _ (part unseen : List ℕ)
      (want : p.payload_buf.contents ++ (part ++ unseen) ≡ f.payload) where
    sizes : length p.payload_buf.contents + (length part + length unseen) ≡ length f.payload
    sizes = omega (
      arith,
      ap length want,
      length-append p.payload_buf.contents (part ++ unseen),
      length-append part unseen,
    )

    payload_count-part :
        (rest : List ℕ) → (unseen ≡ []) ⊎ (rest ≡ []) → payload_count p (part ++ rest) ≡ length part
    unfolding payload_count missing
    payload_count-part rest end = ground (arith, length-append part rest, sizes, w.need_kept, v)

    room : HasRoom p.payload_buf (length part)
    room = (w.payload_buf_IsWf, omega (arith, sizes, v))

    pub with_piece-contents :
        (with_piece alloc p part).payload_buf.contents ≡ p.payload_buf.contents ++ part
    with_piece-contents = (with_piece_parts alloc total p part room).0

    pub with_piece-IsInPayload : IsInPayload f (with_piece alloc p part)
    with_piece-IsInPayload = keeps_fields part (with_piece_parts alloc total p part room).1
      where
        keeps_fields :
            (l : List ℕ)
            → IsWf (with_piece alloc p l).payload_buf
            → IsInPayload f (with_piece alloc p l)
        keeps_fields [] h = w
        keeps_fields (x ∷ l) h = record {
          header_read = w.header_read;
          type_kept = w.type_kept;
          flags_kept = w.flags_kept;
          req_id_kept = w.req_id_kept;
          need_kept = w.need_kept;
          payload_buf_IsWf = h;
        }

    whole : unseen ≡ [] → p.payload_buf.contents ++ part ≡ f.payload
    whole end =
        ap (λ l. p.payload_buf.contents ++ l)
          (sym (append-nil part) ∙ ap (λ l. part ++ l) (sym end))
        ∙ want

    with_piece-length :
        length (with_piece alloc p part).payload_buf.contents + length unseen ≡ length f.payload
    with_piece-length =
        omega
          (arith, ap length with_piece-contents, length-append p.payload_buf.contents part, sizes)

    -- A piece with more to come: the feed stops, and the parser waits for the rest.
    pub take_payload-short :
        (off : ℕ)
        → 0 < length unseen
        → take_payload alloc p off part ≡ starved (with_piece alloc p part) (off + length part)
    unfolding finish
    take_payload-short off more =
        rw append-nil at
          (take_payload-count alloc total p off part [] room (payload_count-part [] (inr refl)))
        ∙ finish-short f with_piece-IsInPayload (off + length part)
            (omega (arith, with_piece-length))

    -- The last piece: the frame is out, and what follows it is left.
    pub take_payload-end :
        (off : ℕ) (rest : List ℕ)
        → unseen ≡ []
        → take_payload alloc p off (part ++ rest)
          ≡ ready (reset (with_piece alloc p part)) (off + length part) f
    unfolding finish
    take_payload-end off rest end =
        take_payload-count alloc total p off part rest room (payload_count-part rest (inl end))
        ∙ finish-end f with_piece-IsInPayload (off + length part) (with_piece-contents ∙ whole end)
