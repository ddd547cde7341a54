-- ===== src/Core/Frame/Parser/Step.antt =====
-- src/core_c/fr_frame.c: one feed on a parser that has seen a part of a frame's bytes, either short of
-- the end of the frame or up to it and beyond.
use forgerelay.Prelude.{
  List, [], ap, append-nil, append_assoc, append_split, arith, bytes, dec_lt, length, length-append,
  refl, sym, ℕ, ◌++◌, ◌+◌, ◌-◌, ◌<◌, ◌∙◌, ◌∷◌, ◌≡◌,
}
use forgerelay.Core.Buffer.{Allocator, clear}
use forgerelay.Core.Buffer.Invariant.{IsWf, Total}
use forgerelay.Core.Frame.{Frame, header_size}
use forgerelay.Core.Frame.Encoding.{frame_bytes, header_for, length-header_for}
use forgerelay.Core.Frame.Parser.{
  Fed, Parser, after_fill, feed, ready, reset, starved, take_payload, wants_header,
}
use forgerelay.Core.Frame.Parser.Feed.{
  IsInHeader, accepted, extended, feed-in_header, fill_header-done, fill_header-end,
}
use forgerelay.Core.Frame.Parser.Header.{IsValid}
use forgerelay.Core.Frame.Parser.Payload.{
  IsInPayload, take_payload-end, take_payload-short, with_piece, with_piece-IsInPayload,
  with_piece-contents,
}

-- The parser has seen a part of the bytes of f, and `unseen` is the rest.
pub data Saw (f : Frame) (unseen : List ℕ) (p : Parser) : Type 0 where
  in_header :
      (h : List ℕ)
      → IsInHeader p
      → p.header ++ h ≡ header_for f
      → unseen ≡ h ++ f.payload
      → Saw f unseen p
  in_payload :
      IsInPayload f p
      → p.payload_buf.contents ++ unseen ≡ f.payload
      → 0 < length unseen
      → Saw f unseen p

-- Between two frames.
abbrev pub IsFresh : Parser → Type 0
IsFresh p = IsInHeader p × (p.header ≡ [])

pub Saw-IsFresh : {p : Parser} (f : Frame) → IsFresh p → Saw f (frame_bytes f) p
unfolding frame_bytes
Saw-IsFresh f (w, e) = in_header (header_for f) w (ap (λ l. l ++ header_for f) e) refl

-- There is always something left to see.
pub Saw-pos : {unseen : List ℕ} {p : Parser} (f : Frame) → Saw f unseen p → 0 < length unseen
Saw-pos f (in_payload w e h) = h
Saw-pos {p = p} f (in_header h w e cut) = omega (
  arith,
  ap length e,
  ap length cut,
  length-append {0} p.header h,
  length-append {0} h f.payload,
  length-header_for f,
  w.short_header,
)

module _ (alloc : Allocator) (total : Total alloc) (f : Frame) (v : IsValid f) where
  feed-after_header :
      (p : Parser) (w : IsInHeader p) (x : ℕ) (h rest : List ℕ)
      → p.header ++ x ∷ h ≡ header_for f
      → feed alloc p (bytes ((x ∷ h) ++ rest))
        ≡ take_payload alloc (accepted p w f) (length (x ∷ h)) rest
  unfolding feed after_fill
  feed-after_header p w x h rest e = rw (fill_header-end p w f x h rest v e) (
      ap (λ n. take_payload alloc (accepted p w f) n rest)
        (omega (arith, length-append (x ∷ h) rest)))

  feed-in_payload :
      (p : Parser)
      → IsInPayload f p
      → (l : List ℕ) → feed alloc p (bytes l) ≡ take_payload alloc p 0 l
  unfolding feed after_fill
  feed-in_payload p w l =
      let same : take_payload alloc p (length l - length l) l ≡ take_payload alloc p 0 l =
        ap (λ (n : ℕ). take_payload alloc p n l) (omega arith) in
      rw (fill_header-done header_size p l (unfold wants_header in ground (arith, w.header_read)))
        (ground (arith, w.header_read, same))

  accepted-IsInPayload : (p : Parser) (w : IsInHeader p) → IsInPayload f (accepted p w f)
  accepted-IsInPayload p w = record {
    header_read = refl;
    type_kept = refl;
    flags_kept = refl;
    req_id_kept = refl;
    need_kept = refl;
    payload_buf_IsWf = w.header_buf;
  }

  IsFresh-reset : (q : Parser) → IsWf q.payload_buf → IsFresh (reset q)
  unfolding reset clear
  IsFresh-reset q w = (
    record {
      unread_header = refl;
      short_header = omega arith;
      no_payload = refl;
      header_buf = record { within = omega arith; bounded = w.bounded };
    },
    refl,
  )

  starves_in_payload :
      (p : Parser) (off : ℕ) (l unseen : List ℕ)
      → IsInPayload f p
      → p.payload_buf.contents ++ (l ++ unseen) ≡ f.payload
      → 0 < length unseen
      → (p' : Parser) × (take_payload alloc p off l ≡ starved p' (off + length l)) × Saw f unseen p'
  starves_in_payload p off l unseen w e more =
      let contents = with_piece-contents alloc total f v p w l unseen e in
      (
        with_piece alloc p l,
        take_payload-short alloc total f v p w l unseen e off more,
        in_payload (with_piece-IsInPayload alloc total f v p w l unseen e)
            (ap (λ t. t ++ unseen) contents ∙ append_assoc p.payload_buf.contents l unseen ∙ e)
            more,
      )

  finishes_in_payload :
      (p : Parser) (off : ℕ) (l rest : List ℕ)
      → IsInPayload f p
      → p.payload_buf.contents ++ l ≡ f.payload
      → (p' : Parser) × (take_payload alloc p off (l ++ rest) ≡ ready p' (off + length l) f)
        × IsFresh p'
  finishes_in_payload p off l rest w e =
      let e' = ap (λ t. p.payload_buf.contents ++ t) (append-nil l) ∙ e in
      (
        reset (with_piece alloc p l),
        take_payload-end alloc total f v p w l [] e' off rest refl,
        IsFresh-reset (with_piece alloc p l)
            ((with_piece-IsInPayload alloc total f v p w l [] e').payload_buf_IsWf),
      )

  -- The rest of a header is not empty.
  header_left :
      (p : Parser) (h : List ℕ) → IsInHeader p → p.header ++ h ≡ header_for f → 0 < length h
  header_left p h w e =
      omega (arith, ap length e, length-append {0} p.header h, length-header_for f, w.short_header)

  header_length :
      (p : Parser) (h : List ℕ)
      → p.header ++ h ≡ header_for f
      → length p.header + length h ≡ header_size
  header_length p h e =
      omega (arith, ap length e, length-append {0} p.header h, length-header_for f)

  extended-IsInHeader :
      (p : Parser) (w : IsInHeader p) (x : ℕ) (c m : List ℕ)
      → p.header ++ ((x ∷ c) ++ m) ≡ header_for f
      → 0 < length m
      → IsInHeader (extended p w (x ∷ c))
  extended-IsInHeader p w x c m e more = record {
    unread_header = w.unread_header;
    short_header = omega (
      arith,
      header_length p ((x ∷ c) ++ m) e,
      length-append {0} (x ∷ c) m,
      length-append {0} p.header (x ∷ c),
    );
    no_payload = w.no_payload;
    header_buf = w.header_buf;
  }

  -- Right after the header, what is to come is the payload.
  whole_payload :
      (p : Parser) (w : IsInHeader p) (l : List ℕ)
      → l ≡ f.payload
      → (accepted p w f).payload_buf.contents ++ l ≡ f.payload
  whole_payload p w l e = ap (λ t. t ++ l) w.no_payload ∙ e

  -- What a feed gives depends on the input alone.
  feed_same :
      (p : Parser) {l l' : List ℕ} {r : Fed}
      → l ≡ l'
      → feed alloc p (bytes l') ≡ r
      → feed alloc p (bytes l) ≡ r
  feed_same p e h = ap (λ t. feed alloc p (bytes t)) e ∙ h

  starves_in_header :
      (p : Parser) (w : IsInHeader p) (x : ℕ) (c h unseen : List ℕ)
      → p.header ++ h ≡ header_for f
      → (x ∷ c) ++ unseen ≡ h ++ f.payload
      → 0 < length unseen
      → (p' : Parser) × (feed alloc p (bytes (x ∷ c)) ≡ starved p' (length (x ∷ c)))
        × Saw f unseen p'
  starves_in_header p w x c [] unseen e cut more = absurd (omega (arith, header_left p [] w e))
  starves_in_header p w x c (y ∷ h) unseen e cut more =
      elim (dec_lt (length (x ∷ c)) (length (y ∷ h))) [
        | yes short ↦
            let (m, left, right) =
              append_split (y ∷ h) f.payload (x ∷ c) unseen (sym cut) (omega arith) in
            (
              extended p w (x ∷ c),
              feed-in_header p w alloc x c (omega (arith, header_length p (y ∷ h) e)),
              in_header m
                  (extended-IsInHeader p w x c m (ap (λ t. p.header ++ t) (sym left) ∙ e)
                    (omega (arith, ap length left, length-append {0} (x ∷ c) m)))
                  (append_assoc p.header (x ∷ c) m ∙ ap (λ t. p.header ++ t) (sym left) ∙ e) right,
            )
        | no long ↦
            let (m, left, right) =
              append_split (x ∷ c) unseen (y ∷ h) f.payload cut (omega arith) in
            let (p', out, saw) =
              starves_in_payload (accepted p w f) (length (y ∷ h)) m unseen
                (accepted-IsInPayload p w) (whole_payload p w (m ++ unseen) (sym right)) more in
            (
              p',
              (feed_same p left (feed-after_header p w y h m e ∙ out)
                  ∙ ap (starved p') (sym (ap length left ∙ length-append (y ∷ h) m))),
              saw,
            )
      ]

  -- Where memory does not run out, a feed that ends inside a valid frame takes all of its input,
  -- asks for more, and the parser has then seen that much more of the frame.
  pub feed-starves :
      (p : Parser) (x : ℕ) (c unseen : List ℕ)
      → Saw f ((x ∷ c) ++ unseen) p
      → 0 < length unseen
      → (p' : Parser) × (feed alloc p (bytes (x ∷ c)) ≡ starved p' (length (x ∷ c)))
        × Saw f unseen p'
  feed-starves p x c unseen (in_payload w e h) more =
      let (p', out, saw) = starves_in_payload p 0 (x ∷ c) unseen w e more in
      (p', feed-in_payload p w (x ∷ c) ∙ out ∙ ap (starved p') (omega arith), saw)
  feed-starves p x c unseen (in_header h w e cut) more =
      starves_in_header p w x c h unseen e cut more

  finishes_in_header :
      (p : Parser) (w : IsInHeader p) (h rest : List ℕ)
      → p.header ++ h ≡ header_for f
      → (p' : Parser) × (feed alloc p (bytes ((h ++ f.payload) ++ rest))
          ≡ ready p' (length (h ++ f.payload)) f)
        × IsFresh p'
  finishes_in_header p w [] rest e = absurd (omega (arith, header_left p [] w e))
  finishes_in_header p w (y ∷ h) rest e =
      let (p', out, fresh) =
        finishes_in_payload (accepted p w f) (length (y ∷ h)) f.payload rest
          (accepted-IsInPayload p w) (whole_payload p w f.payload refl) in
      (
        p',
        feed_same p (append_assoc (y ∷ h) f.payload rest)
              (feed-after_header p w y h (f.payload ++ rest) e ∙ out)
            ∙ ap (λ n. ready p' n f) (sym (length-append (y ∷ h) f.payload)),
        fresh,
      )

  -- Where memory does not run out, a feed that holds the rest of a valid frame gives the frame,
  -- consumes that rest and no more, and leaves the parser between two frames.
  pub feed-finishes :
      (p : Parser) (unseen rest : List ℕ)
      → Saw f unseen p
      → (p' : Parser) × (feed alloc p (bytes (unseen ++ rest)) ≡ ready p' (length unseen) f)
        × IsFresh p'
  feed-finishes p unseen rest (in_payload w e h) =
      let (p', out, fresh) = finishes_in_payload p 0 unseen rest w e in
      (p', feed-in_payload p w (unseen ++ rest) ∙ out ∙ ap (λ n. ready p' n f) (omega arith), fresh)
  feed-finishes p unseen rest (in_header h w e cut) =
      let (p', out, fresh) = finishes_in_header p w h rest e in
      (
        p',
        feed_same p (ap (λ t. t ++ rest) cut) out ∙ ap (λ t. ready p' (length t) f) (sym cut),
        fresh,
      )
