-- ===== src/Messages/Travels.antt =====
-- What an encoder and a decoder of src/service/fr_messages.cpp make of a message, on a buffer and
-- on the payload of a frame.
use forgerelay.Prelude.{
  List, [], ap, append-nil, arith, dec_lt, drop, inl, inr, length, length-drop, sym, take,
  take-append-drop, ℕ, ◌++◌, ◌∙◌, ◌≡◌, ◌≤◌, ◌⊎◌,
}
use forgerelay.Core.Buffer.{Buf}
use forgerelay.Core.Buffer.Invariant.{HasRoom, IsWf}
use forgerelay.Core.Buffer.Reader.{Reader, init, read}
use forgerelay.Core.Buffer.Reader.Unread.{unread, unread-init}
use forgerelay.Core.Status.{e_protocol}
use forgerelay.Messages.Fields.{Get, Put, done, thrown}
use forgerelay.Messages.Wire.{Carries, CarriesAll}
pub mod Upload
pub mod Listing
pub mod Admin

-- The encoder p adds bytes to the buffer `out`. The decoder g reads them as a, with none left; and
-- refuses as many of them as `cut`, if that is not all.
pub record Travels {A : Type 0} (p : Put) (g : Get A) (a : A) (out : Buf) (cut : ℕ) : Type 0 where
  pub wire : List ℕ
  pub after : Buf
  pub is_written : p out ≡ done after
  pub is_added : after.contents ≡ out.contents ++ wire
  pub is_wf : IsWf after
  pub end : Reader
  pub is_read : g (init wire) ≡ done (a, end)
  pub is_all : unread end ≡ []
  pub is_refused_short : (length wire ≤ cut) ⊎ (g (init (take cut wire)) ≡ thrown e_protocol)

-- Likewise, for a message whose last field is whatever bytes the payload has left.
pub record TravelsWhole {A : Type 0} (p : Put) (g : Get A) (a : A) (out : Buf) : Type 0 where
  pub wire : List ℕ
  pub after : Buf
  pub is_written : p out ≡ done after
  pub is_added : after.contents ≡ out.contents ++ wire
  pub is_wf : IsWf after
  pub end : Reader
  pub is_read : g (init wire) ≡ done (a, end)
  pub is_all : unread end ≡ []

-- The encoder p adds bytes to the buffer `out` that the decoder g refuses.
pub record IsLost {A : Type 0} (p : Put) (g : Get A) (out : Buf) : Type 0 where
  pub wire : List ℕ
  pub after : Buf
  pub is_written : p out ≡ done after
  pub is_added : after.contents ≡ out.contents ++ wire
  pub is_refused : g (init wire) ≡ thrown e_protocol

module _ {n : ℕ} {A : Type 0} {p : Put} {g : Get A} {a : A} where
  pub Carries-Travels :
      Carries n p g a → (out : Buf) (cut : ℕ) → HasRoom out n → Travels p g a out cut
  Carries-Travels c out cut (w, room) =
      let (after, ran, added, w') = c.writes out (w, omega (arith, room, c.fits)) in
      let (end, read, left) =
        c.reads (init c.wire) [] (unread-init c.wire ∙ sym (append-nil c.wire)) in
      record {
        wire = c.wire;
        after = after;
        is_written = ran;
        is_added = added;
        is_wf = w';
        end = end;
        is_read = read;
        is_all = left;
        is_refused_short = elim (dec_lt cut (length c.wire)) [
          | no whole ↦ inl (omega arith)
          | yes short ↦ inr (
              c.refuses_short (init (take cut c.wire)) (drop cut c.wire)
                (ap (λ l. l ++ drop cut c.wire) (unread-init (take cut c.wire))
                  ∙ take-append-drop cut c.wire)
                (omega (arith, length-drop cut c.wire)))
        ];
      }

  pub CarriesAll-TravelsWhole :
      CarriesAll n p g a → (out : Buf) → HasRoom out n → TravelsWhole p g a out
  CarriesAll-TravelsWhole c out (w, room) =
      let (after, ran, added, w') = c.writes out (w, omega (arith, room, c.fits)) in
      let (end, read, left) = c.reads_all (init c.wire) (unread-init c.wire) in
      record {
        wire = c.wire;
        after = after;
        is_written = ran;
        is_added = added;
        is_wf = w';
        end = end;
        is_read = read;
        is_all = left;
      }
