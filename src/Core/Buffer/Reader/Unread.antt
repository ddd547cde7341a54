-- ===== src/Core/Buffer/Reader/Unread.antt =====
-- src/core_c/fr_buffer.c: a reader as the list of its unread bytes. Every read takes a prefix of
-- them, or finds fewer than it wants and fails.
use forgerelay.Prelude.{
  List, ap, arith, drop, drop-add, drop_left, length, length-append, length-drop, refl, take,
  take_left, ℕ, ◌++◌, ◌+◌, ◌<◌, ◌∙◌, ◌≡◌,
}
use forgerelay.Core.Buffer.Reader.{Reader, failed, got, init, read, remaining}
use forgerelay.Core.Status.{e_range}

-- The bytes from the position on.
abbrev pub unread : Reader → List ℕ
unread r = drop r.pos r.input

pub unread-init : (l : List ℕ) → unread (init l) ≡ l
unfolding init
unread-init l = refl

-- A read of as many bytes as a prefix of the unread ones has gives that prefix, and leaves what
-- follows it.
pub read_prefix :
    (r : Reader) (l rest : List ℕ)
    → unread r ≡ l ++ rest
    → (read r (length l) ≡ got l (record r { pos = r.pos + length l }))
      × (unread (record r { pos = r.pos + length l }) ≡ rest)
unfolding read
read_prefix r l rest e = (
  ground (
    arith,
    length-drop r.pos r.input,
    length-append l rest,
    ap length e,
    ap (take (length l)) e ∙ take_left l rest,
  ),
  drop-add r.pos (length l) r.input ∙ ap (drop (length l)) e ∙ drop_left l rest,
)

-- A read of more bytes than there are left fails with FR_E_RANGE.
pub read_short : (r : Reader) (n : ℕ) → length (unread r) < n → read r n ≡ failed e_range
unfolding read
read_short r n h = ground (arith, length-drop r.pos r.input)

pub remaining-length : (r : Reader) → remaining r ≡ length (unread r)
unfolding remaining
remaining-length r = ground (arith, length-drop r.pos r.input)
