-- ===== src/Core/Frame/Tests.antt =====
-- The theorems on the frames of src/core_c/fr_frame.c at concrete inputs.
use forgerelay.Prelude.{
  List, [], ap, append-nil, arith, bytes, drop, length, refl, take, take-append-drop, true, ℕ, ◌++◌,
  ◌<◌, ◌∙◌, ◌∷◌, ◌≡◌,
}
use forgerelay.Core.Buffer.{Allocator, Buf}
use forgerelay.Core.Buffer.Invariant.{AllOrNothing, IsWf, Total}
use forgerelay.Core.Frame.{Frame, contains, header_bytes, header_fields, msg_type_valid}
use forgerelay.Core.Frame.Encoding.{
  argument_status, frame_bytes, frame_encode-AllOrNothing, frame_encode-status, header_for, send,
}
use forgerelay.Core.Frame.Parser.{Parser, feed, init_parser, ready, validate_header}
use forgerelay.Core.Frame.Parser.Header.{IsValid, holds_fields, validate_header-header_for}
use forgerelay.Core.Frame.Parser.Step.{IsFresh, Saw, Saw-IsFresh, feed-finishes}
use forgerelay.Core.Frame.Parser.Stream.{drained, joined, receive, receive-stream, stream}
use forgerelay.Core.Status.{fr_ok}

abbrev always : Allocator
always n = true

always-Total : Total always
always-Total n = refl

abbrev small : Buf
small = record { contents = 1 ∷ 2 ∷ []; cap = 64 }

small-IsWf : IsWf small
small-IsWf = record { within = omega arith; bounded = omega arith }

abbrev hello : Frame
hello = record { type = 1; flags = 0; req_id = 7; payload = b'h' ∷ b'i' ∷ [] }

abbrev ping : Frame
ping = record { type = 3; flags = 0; req_id = 8; payload = [] }

hello-IsValid : IsValid hello
unfolding msg_type_valid contains
hello-IsValid = ((refl, refl, omega arith, omega arith), omega arith)

ping-IsValid : IsValid ping
unfolding msg_type_valid contains
ping-IsValid = ((refl, refl, omega arith, omega arith), omega arith)

init_parser-IsFresh : IsFresh init_parser
init_parser-IsFresh = (
  record {
    unread_header = refl;
    short_header = omega arith;
    no_payload = refl;
    header_buf = record { within = omega arith; bounded = omega arith };
  },
  refl,
)

-- Two frames, cut inside the first header and inside the first payload.
abbrev frames : List Frame
frames = hello ∷ ping ∷ []

abbrev pieces : List (List ℕ)
pieces =
    take 7 (stream frames)
    ∷ take 14 (drop 7 (stream frames))
    ∷ drop 14 (drop 7 (stream frames))
    ∷ []

pieces-joined : joined pieces ≡ stream frames
unfolding joined
pieces-joined =
    let s = stream frames in
    ap (λ l. take 7 s ++ l)
      (ap (λ l. take 14 (drop 7 s) ++ l) (append-nil (drop 14 (drop 7 s)))
        ∙ take-append-drop 14 (drop 7 s))
    ∙ take-append-drop 7 s

receive-stream_example :
    (p' : Parser) × (receive always init_parser pieces ≡ drained p' frames) × IsFresh p'
receive-stream_example =
    receive-stream always always-Total frames pieces init_parser (hello-IsValid, (ping-IsValid, tt))
      init_parser-IsFresh pieces-joined

frame_encode-AllOrNothing_example :
    AllOrNothing small ((1 ∷ 2 ∷ []) ++ frame_bytes hello) (send always small hello)
frame_encode-AllOrNothing_example = frame_encode-AllOrNothing always small-IsWf hello

frame_encode-status_example : (send always small hello).status ≡ argument_status hello
frame_encode-status_example =
    frame_encode-status always always-Total hello (small-IsWf, omega arith)

validate_header-header_for_example :
    validate_header (record init_parser { header = header_for hello })
    ≡ (fr_ok, holds_fields init_parser hello)
validate_header-header_for_example = validate_header-header_for hello hello-IsValid init_parser

feed-finishes_example :
    (p' : Parser) × (feed always init_parser (bytes (frame_bytes hello ++ 70 ∷ []))
      ≡ ready p' (length (frame_bytes hello)) hello)
    × IsFresh p'
feed-finishes_example =
    feed-finishes always always-Total hello hello-IsValid init_parser (frame_bytes hello) (70 ∷ [])
      (Saw-IsFresh hello init_parser-IsFresh)

hello_rest : Saw hello ((b'F' ∷ []) ++ drop 1 (frame_bytes hello)) init_parser
unfolding frame_bytes header_bytes header_fields
hello_rest = Saw-IsFresh hello init_parser-IsFresh

hello_rest-pos : 0 < length (drop 1 (frame_bytes hello))
unfolding frame_bytes header_bytes header_fields
hello_rest-pos = omega arith
