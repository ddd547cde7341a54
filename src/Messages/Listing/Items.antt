-- ===== src/Messages/Listing/Items.antt =====
-- src/service/fr_messages.cpp: a counted list of items that each travel travels whole, up to the
-- decoder's limit, and is refused above it.
use forgerelay.Prelude.{
  All, IsU32, List, [], ap, append-nil, append_assoc, arith, length, length-append, le→ltb, lt→ltb,
  refl, suc, sym, zero, ℕ, ◌*◌, ◌++◌, ◌+◌, ◌<◌, ◌^◌, ◌∙◌, ◌∷◌, ◌≡◌, ◌≤◌,
}
use forgerelay.Core.Buffer.{Allocator}
use forgerelay.Core.Buffer.Invariant.{Total}
use forgerelay.Core.Buffer.Reader.{Reader}
use forgerelay.Core.Buffer.Reader.Unread.{unread}
use forgerelay.Core.Status.{e_protocol}
use forgerelay.Messages.Fields.{Get, Put, pure, put_u32, thrown, ◌>>=◌, ◌>>◌}
use forgerelay.Messages.Fields.Carried.{put_u32-Carries}
use forgerelay.Messages.Listing.{counted, get_items, get_list, put_items, put_list}
use forgerelay.Messages.Wire.{
  Carries, Carries-fits, Carries-last, Carries-then, Silent-pure, Writes, Writes-then,
}
use native.Mathlib.Nat.{mod-eq_of_lt}

-- A list of items that travel one by one travels whole.
put_items-Carries :
    {A : Type 0} (size n : ℕ) (put : A → Put) (get : Get A) (xs : List A)
    → length xs ≤ n
    → All (λ x. Carries size (put x) get x) xs
    → Carries (n * size) (put_items put xs) (get_items (length xs) get) xs
unfolding put_items get_items pure ◌>>◌
put_items-Carries size n put get [] small h = record {
  wire = [];
  fits = omega arith;
  writes = λ out room. (out, refl, sym (append-nil out.contents), room.0);
  reads = λ r rest e. (r, refl, e);
  refuses_short =
      λ r lost e h. absurd (omega (arith, ap length e, length-append {0} (unread r) lost));
}
put_items-Carries size zero put get (x ∷ xs) small h = absurd (omega arith)
put_items-Carries size (suc n) put get (x ∷ xs) small h =
    let later = put_items-Carries size n put get xs (omega arith) h.1 in
    Carries-fits {m = size + n * size}
      (Carries-then _ h.0 (Carries-last _ later (Silent-pure (x ∷ xs)))) (omega arith)

-- `p` writes at most `size` bytes that `g` refuses, whatever follows them.
abbrev pub IsRefused : ℕ → {A : Type 0} → Put → Get A → Type 0
IsRefused size p g =
    (wire : List ℕ) × (length wire ≤ size)
    × Writes p wire
    × ((r : Reader) (rest : List ℕ) → unread r ≡ wire ++ rest → g r ≡ thrown e_protocol)

module _ (alloc : Allocator) (total : Total alloc) where
  pub put_list-Carries :
      {A : Type 0} (size limit : ℕ) (put : A → Put) (get : Get A) (xs : List A)
      → length xs ≤ limit
      → limit < 2 ^ 32
      → All (λ x. Carries size (put x) get x) xs
      → Carries (4 + limit * size) (put_list alloc put xs) (get_list limit get) xs
  unfolding put_list get_list counted
  put_list-Carries size limit put get xs short small h =
      rw (mod-eq_of_lt {n = length xs} {m = 2 ^ 32} (omega arith)) (
        Carries-then (counted limit get) (put_u32-Carries alloc total (length xs) (omega arith))
          (rw (le→ltb limit (length xs) short) (put_items-Carries size limit put get xs short h)))

  -- A list above the decoder's limit is written all the same, and what is written is refused.
  pub put_list-IsRefused :
      {A : Type 0} (size limit : ℕ) (put : A → Put) (get : Get A) (xs : List A)
      → limit < length xs
      → IsU32 (length xs)
      → All (λ x. Carries size (put x) get x) xs
      → IsRefused (4 + length xs * size) (put_list alloc put xs) (get_list limit get)
  unfolding put_list get_list counted ◌>>=◌
  put_list-IsRefused size limit put get xs long small h =
      let c = put_u32-Carries alloc total (length xs) small in
      let items = put_items-Carries size (length xs) put get xs (omega arith) h in
      (
        c.wire ++ items.wire,
        omega (arith, length-append c.wire items.wire, c.fits, items.fits),
        rw (mod-eq_of_lt {n = length xs} {m = 2 ^ 32} small) (
            Writes-then (put_u32 alloc (length xs)) (put_items put xs) c.wire items.wire c.writes
              items.writes),
        λ r rest e.
            let (r', ran, left) =
              c.reads r (items.wire ++ rest) (e ∙ append_assoc c.wire items.wire rest) in
            rw (ran, lt→ltb limit (length xs) long) refl,
      )
