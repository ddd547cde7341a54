-- ===== src/Core/Buffer/Invariant.antt =====
-- src/core_c/fr_buffer.c: the buffer stays well formed, and appending is all or nothing.
use forgerelay.Prelude.{
  List, Source, [], append-nil, arith, bytes, false, length, length-append, length-drop, null, refl,
  subst, suc, true, zero, ℕ, ◌++◌, ◌+◌, ◌==◌, ◌^◌, ◌≡◌, ◌≢◌, ◌≤◌,
}
use forgerelay.Core.Buffer.{Allocator, Buf, Done, append, append_reserved, consume, reserve}
use forgerelay.Core.Buffer.Reserve.{
  Reserved, in_place, moved, refused_memory, refused_size, reserve-Reserved,
}
use forgerelay.Core.Checked.{size_max}
use forgerelay.Core.Status.{Status, e_arg, e_nomem, e_overflow, fr_ok}

-- `len` is at most `cap`, and both are values of `size_t`.
pub record IsWf (b : Buf) : Type 0 where
  pub within : length b.contents ≤ b.cap
  pub bounded : b.cap ≤ size_max

pub suc_ne : (n : ℕ) → (suc n == 0) ≡ false
suc_ne n = ground arith

-- An operation either succeeds and leaves the wanted contents, or fails and leaves the buffer alone;
-- the buffer is well formed either way.
pub data AllOrNothing (b : Buf) (wanted : List ℕ) : Done → Type 0 where
  all :
      (b' : Buf)
      → b'.contents ≡ wanted
      → IsWf b'
      → AllOrNothing b wanted (record { status = fr_ok; buf = b' })
  nothing : (st : Status) → st ≢ fr_ok → AllOrNothing b wanted (record { status = st; buf = b })

pub AllOrNothing-IsWf :
    {b : Buf} {wanted : List ℕ} {r : Done} → IsWf b → AllOrNothing b wanted r → IsWf r.buf
AllOrNothing-IsWf w (all b' e w') = w'
AllOrNothing-IsWf w (nothing st h) = w

module _ (alloc : Allocator) {b : Buf} (w : IsWf b) where
  append_reserved-AllOrNothing :
      (l : List ℕ) {r : Done}
      → Reserved alloc b (length l) r
      → AllOrNothing b (b.contents ++ l) (append_reserved alloc r.status r.buf l)
  unfolding append_reserved
  append_reserved-AllOrNothing l (in_place h) =
      all _ refl
        (record { within = omega (arith, length-append {0} b.contents l); bounded = w.bounded })
  append_reserved-AllOrNothing l (moved c h k a) =
      all _ refl (record { within = omega (arith, length-append {0} b.contents l); bounded = k })
  append_reserved-AllOrNothing l (refused_size h) = nothing e_overflow (cc)
  append_reserved-AllOrNothing l (refused_memory c h a) = nothing e_nomem (cc)

  -- On a well-formed buffer, fr_buf_append of a valid pointer adds exactly its bytes and leaves
  -- the buffer well formed, or fails and changes nothing.
  pub append-AllOrNothing :
      (l : List ℕ) → AllOrNothing b (b.contents ++ l) (append alloc b (bytes l))
  unfolding append
  append-AllOrNothing l =
      append_reserved-AllOrNothing l (reserve-Reserved alloc b (length l) w.bounded)

  -- The null pointer is refused unless the length is 0, and adds nothing in any case.
  pub append_null-AllOrNothing : (n : ℕ) → AllOrNothing b b.contents (append alloc b (null n))
  unfolding append
  append_null-AllOrNothing zero =
      subst
        (λ (l : List ℕ).
          AllOrNothing b l
            (append_reserved alloc (reserve alloc b 0).status (reserve alloc b 0).buf []))
        (append-nil b.contents)
        (append_reserved-AllOrNothing [] (reserve-Reserved alloc b 0 w.bounded))
  append_null-AllOrNothing (suc n) = rw (suc_ne n) (nothing e_arg (cc))

  pub append-IsWf : (src : Source) → IsWf (append alloc b src).buf
  append-IsWf (null n) = AllOrNothing-IsWf w (append_null-AllOrNothing n)
  append-IsWf (bytes l) = AllOrNothing-IsWf w (append-AllOrNothing l)

  reserve-IsWf : (n : ℕ) → IsWf (reserve alloc b n).buf
  reserve-IsWf n = Reserved-IsWf (reserve-Reserved alloc b n w.bounded)
    where
      Reserved-IsWf : {r : Done} → Reserved alloc b n r → IsWf r.buf
      Reserved-IsWf (in_place h) = w
      Reserved-IsWf (moved c h k a) = record { within = omega arith; bounded = k }
      Reserved-IsWf (refused_size h) = w
      Reserved-IsWf (refused_memory c h a) = w

  consume-IsWf : (n : ℕ) → IsWf (consume b n).buf
  unfolding consume
  consume-IsWf n = ground (arith, length-drop n b.contents)

-- The allocator never fails: the case in which the sizes alone decide.
abbrev pub Total : Allocator → Type 0
Total alloc = (n : ℕ) → alloc n ≡ true

-- A buffer with room for n more bytes below 2 ^ 63, where doubling cannot overflow.
abbrev pub HasRoom : Buf → ℕ → Type 0
HasRoom b n = IsWf b × (length b.contents + n ≤ 2 ^ 63)

module _ (alloc : Allocator) (total : Total alloc) {b : Buf} where
  append_reserved-total :
      (l : List ℕ) {r : Done}
      → length b.contents + length l ≤ 2 ^ 63
      → Reserved alloc b (length l) r
      → (append_reserved alloc r.status r.buf l).status ≡ fr_ok
  unfolding append_reserved
  append_reserved-total l h (in_place k) = refl
  append_reserved-total l h (moved c k k' a) = refl
  append_reserved-total l h (refused_size k) = absurd (omega arith)
  append_reserved-total l h (refused_memory c k a) = cc (total c)

  append-total_status :
      (l : List ℕ) → HasRoom b (length l) → (append alloc b (bytes l)).status ≡ fr_ok
  unfolding append
  append-total_status l h =
      append_reserved-total l h.1 (reserve-Reserved alloc b (length l) h.0.bounded)

  contents_of_ok :
      (wanted : List ℕ) {r : Done}
      → AllOrNothing b wanted r
      → r.status ≡ fr_ok
      → r.buf.contents ≡ wanted
  contents_of_ok wanted (all b' e w) h = e
  contents_of_ok wanted (nothing st n) h = absurd (n h)

  -- Where memory does not run out and the bytes have room below 2 ^ 63, fr_buf_append succeeds,
  -- adds its bytes and leaves the buffer well formed.
  pub append-succeeds :
      (l : List ℕ)
      → HasRoom b (length l)
      → ((append alloc b (bytes l)).status ≡ fr_ok)
        × ((append alloc b (bytes l)).buf.contents ≡ b.contents ++ l)
        × IsWf (append alloc b (bytes l)).buf
  append-succeeds l h = (
    append-total_status l h,
    contents_of_ok (b.contents ++ l) (append-AllOrNothing alloc h.0 l) (append-total_status l h),
    append-IsWf alloc h.0 (bytes l),
  )
