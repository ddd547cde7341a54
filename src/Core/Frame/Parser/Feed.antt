-- ===== src/Core/Frame/Parser/Feed.antt =====
-- src/core_c/fr_frame.c: one call of `fr_frame_parser_feed` on a parser that is inside a frame.
use forgerelay.Prelude.{
  List, [], ap, append-nil, arith, bytes, drop_left, false, if◌then◌else◌, inl, inr, length,
  length-append, refl, suc, sym, take_left, true, zero, ℕ, ◌++◌, ◌+◌, ◌<◌, ◌==◌, ◌∙◌, ◌∷◌, ◌≡◌, ◌≤◌,
  ◌⊎◌,
}
use forgerelay.Core.Buffer.{Allocator}
use forgerelay.Core.Buffer.Invariant.{IsWf}
use forgerelay.Core.Frame.{Frame, header_size}
use forgerelay.Core.Frame.Encoding.{header_for, length-header_for}
use forgerelay.Core.Frame.Parser.{
  Parser, after_fill, after_header, again, feed, fill_header, filled, header_count, header_round,
  starved, validate_header, validated, wants_header,
}
use forgerelay.Core.Frame.Parser.Header.{IsValid, holds_fields, validate_header-header_for}

pub fill_header-done :
    (n : ℕ) (p : Parser) (rest : List ℕ)
    → wants_header p rest ≡ false
    → fill_header n p rest ≡ filled p rest
unfolding fill_header
fill_header-done zero p rest h = rw h
fill_header-done (suc n) p rest h = rw h

fill_header-round :
    (n : ℕ) (p p' : Parser) (rest : List ℕ)
    → wants_header p rest ≡ true
    → header_round p rest ≡ again p'
    → fill_header (suc n) p rest ≡ fill_header n p' (after_header p rest)
unfolding fill_header
fill_header-round n p p' rest h e = rw (h, e)

-- The parser waits for the rest of a header, of which it has fewer than 20 bytes.
pub record IsInHeader (p : Parser) : Type 0 where
  pub unread_header : p.header_done ≡ false
  pub short_header : length p.header < header_size
  pub no_payload : p.payload_buf.contents ≡ []
  pub header_buf : IsWf p.payload_buf

module _ (p : Parser) (w : IsInHeader p) where
  wants_more : (x : ℕ) (c : List ℕ) → wants_header p (x ∷ c) ≡ true
  unfolding wants_header
  wants_more x c = ground (arith, w.unread_header, w.short_header)

  count_part :
      (part rest : List ℕ)
      → length p.header + length part ≤ header_size
      → (length p.header + length part ≡ header_size) ⊎ (rest ≡ [])
      → header_count p (part ++ rest) ≡ length part
  unfolding header_count
  count_part part rest h end = ground (arith, length-append part rest, end)

  -- The parser with a part of the input behind its header.
  abbrev pub extended : List ℕ → Parser
  extended part = record p { header = p.header ++ part }

  module _ (part rest : List ℕ) (e : header_count p (part ++ rest) ≡ length part) where
    header_round-split : header_round p (part ++ rest) ≡ (
        if length (p.header ++ part) == header_size
        then validated (validate_header (extended part)).0 (validate_header (extended part)).1
        else again (extended part))
    unfolding header_round
    header_round-split = rw (e, take_left part rest)

    after_header-split : after_header p (part ++ rest) ≡ rest
    after_header-split = rw (e, drop_left part rest)

  header_round-short :
      (part : List ℕ)
      → length p.header + length part < header_size
      → header_round p (part ++ []) ≡ again (extended part)
  header_round-short part h =
      header_round-split part [] (count_part part [] (omega arith) (inr refl))
      ∙ ground (arith, length-append p.header part)

  fill_header-short :
      (x : ℕ) (c : List ℕ)
      → length p.header + length (x ∷ c) < header_size
      → fill_header header_size p ((x ∷ c) ++ []) ≡ filled (extended (x ∷ c)) []
  fill_header-short x c h =
      fill_header-round 19 p (extended (x ∷ c)) ((x ∷ c) ++ []) (wants_more x (c ++ []))
        (header_round-short (x ∷ c) h)
      ∙ ap (fill_header 19 (extended (x ∷ c)))
          (after_header-split (x ∷ c) [] (count_part (x ∷ c) [] (omega arith) (inr refl)))
      ∙ fill_header-done 19 (extended (x ∷ c)) [] (unfold wants_header in ground arith)

  -- A piece that ends inside the header is kept whole.
  pub feed-in_header :
      (alloc : Allocator) (x : ℕ) (c : List ℕ)
      → length p.header + length (x ∷ c) < header_size
      → feed alloc p (bytes (x ∷ c)) ≡ starved (extended (x ∷ c)) (length (x ∷ c))
  unfolding feed after_fill
  feed-in_header alloc x c h =
      ground (arith, rw append-nil at (fill_header-short x c h), w.unread_header)

  -- The parser that has accepted the header of f and waits for its payload.
  abbrev pub accepted : Frame → Parser
  accepted f = record (holds_fields p f) { header_done = true }

  header_round-end :
      (f : Frame) (part rest : List ℕ)
      → IsValid f
      → p.header ++ part ≡ header_for f
      → header_round p (part ++ rest) ≡ again (accepted f)
  unfolding validated
  header_round-end f part rest v e =
      let size = sym (length-append p.header part) ∙ ap length e ∙ length-header_for f in
      header_round-split part rest (count_part part rest (omega arith) (inl size))
      ∙ rw (e, length-header_for f, validate_header-header_for f v p) refl

  -- The end of the header: the checks pass, and what follows is left for the payload.
  pub fill_header-end :
      (f : Frame) (x : ℕ) (part rest : List ℕ)
      → IsValid f
      → p.header ++ x ∷ part ≡ header_for f
      → fill_header header_size p ((x ∷ part) ++ rest) ≡ filled (accepted f) rest
  fill_header-end f x part rest v e =
      let size = sym (length-append p.header (x ∷ part)) ∙ ap length e ∙ length-header_for f in
      fill_header-round 19 p (accepted f) ((x ∷ part) ++ rest) (wants_more x (part ++ rest))
        (header_round-end f (x ∷ part) rest v e)
      ∙ ap (fill_header 19 (accepted f))
          (after_header-split (x ∷ part) rest (count_part (x ∷ part) rest (omega arith) (inl size)))
      ∙ fill_header-done 19 (accepted f) rest (unfold wants_header in refl)
