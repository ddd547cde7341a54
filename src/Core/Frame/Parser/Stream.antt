-- ===== src/Core/Frame/Parser/Stream.antt =====
-- src/transport/fr_server.cpp, the loop over one received piece, and src/core_c/fr_frame.c under it:
-- however the bytes of the frames are cut into pieces, the frames come out one by one, in order.
use forgerelay.Prelude.{
  All, List, [], ap, append-nil, append_assoc, append_split, arith, bytes, dec_lt, drop, drop_left,
  length, length-append, refl, subst, suc, sym, zero, ℕ, ◌++◌, ◌<◌, ◌∙◌, ◌∷◌, ◌≡◌, ◌≤◌,
}
use forgerelay.Core.Buffer.{Allocator}
use forgerelay.Core.Buffer.Invariant.{Total}
use forgerelay.Core.Frame.{Frame}
use forgerelay.Core.Frame.Encoding.{frame_bytes}
use forgerelay.Core.Frame.Parser.{Parser, feed, ready, refused, starved}
use forgerelay.Core.Frame.Parser.Header.{IsValid}
use forgerelay.Core.Frame.Parser.Step.{
  IsFresh, Saw, Saw-IsFresh, Saw-pos, feed-finishes, feed-starves,
}
use forgerelay.Core.Status.{Status}

-- What the loop makes of the input: the frames, with the parser after them, or a protocol error behind
-- some frames. `out_of_rounds` is no outcome of the program.
pub data Drained : Type 0 where
  drained : Parser → List Frame → Drained
  violated : Status → List Frame → Drained
  out_of_rounds : Drained

abbrev pub with_frames : List Frame → Drained → Drained
with_frames fs (drained p gs) = drained p (fs ++ gs)
with_frames fs (violated st gs) = violated st (fs ++ gs)
with_frames fs out_of_rounds = out_of_rounds

module _ (alloc : Allocator) where
  -- `while (left != 0)`, with a bound on the rounds. The frames come as a list, where the server puts
  -- them on its queue or answers that it is busy.
  pub drain : ℕ → Parser → List ℕ → Drained
  drain rounds p [] = drained p []
  drain zero p (x ∷ l) = out_of_rounds
  drain (suc rounds) p (x ∷ l) = elim (feed alloc p (bytes (x ∷ l))) [
    | refused st p' ↦ violated st []
    | starved p' consumed ↦ drained p' []
    | ready p' consumed f ↦ with_frames (f ∷ []) (drain rounds p' (drop consumed (x ∷ l)))
  ]

  after_piece : Drained → (Parser → Drained) → Drained
  after_piece (drained p fs) next = with_frames fs (next p)
  after_piece (violated st fs) next = violated st fs
  after_piece out_of_rounds next = out_of_rounds

  -- The pieces as they arrive. Each round but the last takes a byte at least.
  pub receive : Parser → List (List ℕ) → Drained
  unfolding after_piece
  receive p [] = drained p []
  receive p (c ∷ cs) = after_piece (drain (length c) p c) (λ p'. receive p' cs)

-- The bytes of several frames, and of several pieces.
unfoldable pub stream : List Frame → List ℕ
stream [] = []
stream (f ∷ fs) = frame_bytes f ++ stream fs

unfoldable pub joined : List (List ℕ) → List ℕ
joined [] = []
joined (c ∷ cs) = c ++ joined cs

-- The parser is on its way through frames of which `unseen` is to come.
pub data Pending (unseen : List ℕ) (p : Parser) : List Frame → Type 0 where
  idle : IsFresh p → unseen ≡ [] → Pending unseen p []
  busy :
      {f : Frame} {fs : List Frame} (u : List ℕ)
      → Saw f u p
      → unseen ≡ u ++ stream fs
      → Pending unseen p (f ∷ fs)

Pending-IsFresh : {p : Parser} (fs : List Frame) → IsFresh p → Pending (stream fs) p fs
unfolding stream
Pending-IsFresh [] w = idle w refl
Pending-IsFresh (f ∷ fs) w = busy (frame_bytes f) (Saw-IsFresh f w) refl

module _ (alloc : Allocator) (n : ℕ) (p p' : Parser) (x : ℕ) (l : List ℕ) where
  drain-starved :
      (k : ℕ)
      → feed alloc p (bytes (x ∷ l)) ≡ starved p' k
      → drain alloc (suc n) p (x ∷ l) ≡ drained p' []
  unfolding drain
  drain-starved k e = rw (e, drain) refl

  drain-ready :
      (k : ℕ) (f : Frame)
      → feed alloc p (bytes (x ∷ l)) ≡ ready p' k f
      → drain alloc (suc n) p (x ∷ l) ≡ with_frames (f ∷ []) (drain alloc n p' (drop k (x ∷ l)))
  unfolding drain
  drain-ready k f e = rw (e, drain) refl

module _ (alloc : Allocator) (total : Total alloc) where
  -- What a piece of the stream leads to.
  abbrev Drains : Drained → List Frame → List ℕ → Type 0
  Drains d fs unseen =
      (p : Parser) × (out : List Frame) × (left : List Frame) × (d ≡ drained p out)
      × (fs ≡ out ++ left)
      × Pending unseen p left
      × All IsValid left

  pub drain-Pending :
      (n : ℕ) (p : Parser) (c unseen : List ℕ) (fs : List Frame)
      → length c ≤ n
      → All IsValid fs
      → Pending (c ++ unseen) p fs
      → Drains (drain alloc n p c) fs unseen
  unfolding drain
  drain-Pending n p [] unseen fs h v w = (p, [], fs, refl, refl, w, v)
  drain-Pending zero p (x ∷ l) unseen fs h v w = absurd (omega arith)
  drain-Pending (suc n) p (x ∷ l) unseen [] h v (idle w e) = cc
  drain-Pending (suc n) p (x ∷ l) unseen (f ∷ fs) h v (busy u saw e) =
      elim (dec_lt (length (x ∷ l)) (length u)) [
        | yes short ↦
            let (m, left, right) =
              append_split u (stream fs) (x ∷ l) unseen (sym e) (omega arith) in
            let more : 0 < length m = omega (arith, ap length left, length-append {0} (x ∷ l) m) in
            let (p', out, saw') =
              feed-starves alloc total f v.0 p x l m (subst (λ t. Saw f t p) left saw) more in
            (
              p',
              [],
              f ∷ fs,
              drain-starved alloc n p p' x l (length (x ∷ l)) out,
              refl,
              busy m saw' right,
              v,
            )
        | no long ↦
            let (m, left, right) = append_split (x ∷ l) unseen u (stream fs) e (omega arith) in
            let (p', out, fresh) = feed-finishes alloc total f v.0 p u m saw in
            let fewer : length m ≤ n =
              omega (arith, ap length left, length-append {0} u m, Saw-pos f saw) in
            let (q, fed, rest, ran, cut, pending, valid) =
              drain-Pending n p' m unseen fs fewer v.1
                (subst (λ t. Pending t p' fs) right (Pending-IsFresh fs fresh)) in
            (
              q,
              f ∷ fed,
              rest,
              drain-ready alloc n p p' x l (length u) f
                    (ap (λ t. feed alloc p (bytes t)) left ∙ out)
                  ∙ ap (λ t. with_frames (f ∷ []) (drain alloc n p' t))
                      (ap (drop (length u)) left ∙ drop_left u m)
                  ∙ ap (with_frames (f ∷ [])) ran,
              ap (λ t. f ∷ t) cut,
              pending,
              valid,
            )
      ]

  receive-Pending :
      (cs : List (List ℕ)) (p : Parser) (unseen : List ℕ) (fs : List Frame)
      → All IsValid fs
      → Pending (joined cs ++ unseen) p fs
      → Drains (receive alloc p cs) fs unseen
  unfolding receive joined
  receive-Pending [] p unseen fs v w = (p, [], fs, refl, refl, w, v)
  receive-Pending (c ∷ cs) p unseen fs v w =
      let (q, fed, rest, ran, cut, pending, valid) =
        drain-Pending (length c) p c (joined cs ++ unseen) fs (omega arith) v
          (subst (λ t. Pending t p fs) (append_assoc c (joined cs) unseen) w) in
      let (q', fed', rest', ran', cut', pending', valid') =
        receive-Pending cs q unseen rest valid pending in
      (
        q',
        fed ++ fed',
        rest',
        rw ran (rw ran' refl),
        cut ∙ ap (λ t. fed ++ t) cut' ∙ sym (append_assoc fed fed' rest'),
        pending',
        valid',
      )

  none_left : {p : Parser} (fs : List Frame) → Pending [] p fs → (fs ≡ []) × IsFresh p
  none_left [] (idle w e) = (refl, w)
  none_left (f ∷ fs) (busy u saw e) =
      absurd (omega (arith, Saw-pos f saw, ap length e, length-append {0} u (stream fs)))

  -- Where memory does not run out, valid frames (of a known type, with no flags, a request id
  -- that is not 0 and a payload of at most 8 MiB) sent one after another come out of the receive
  -- loop whole and in order, however their bytes are cut into pieces; and a parser that was
  -- between two frames is so again.
  pub receive-stream :
      (fs : List Frame) (cs : List (List ℕ)) (p : Parser)
      → All IsValid fs
      → IsFresh p
      → joined cs ≡ stream fs
      → (p' : Parser) × (receive alloc p cs ≡ drained p' fs) × IsFresh p'
  receive-stream fs cs p v w e =
      let (q, fed, rest, ran, cut, pending, valid) =
        receive-Pending cs p [] fs v
          (subst (λ t. Pending t p fs) (sym (append-nil (joined cs) ∙ e)) (Pending-IsFresh fs w)) in
      let (empty_rest, fresh) = none_left rest pending in
      let whole = cut ∙ ap (λ t. fed ++ t) empty_rest ∙ append-nil fed in
      (q, ran ∙ ap (drained q) (sym whole), fresh)
