-- ===== src/Core/Buffer.antt =====
-- src/core_c/fr_buffer.c: the growable byte buffer. `bytes` is data[0 .. len - 1], so `len` is its
-- length; the bytes between `len` and `cap` have no meaning. A `fr_buf *` is never NULL here.
use forgerelay.Prelude.{
  Bool, List, Option, Source, [], bytes, drop, if◌then◌else◌, leb, length, ltb, none, not, null,
  some, suc, zero, ℕ, ◌++◌, ◌==◌, ◌∷◌,
}
use forgerelay.Core.Byteorder.{store_be16, store_be32, store_be64}
use forgerelay.Core.Checked.{add_size, mul_size}
use forgerelay.Core.Status.{Status, e_arg, e_internal, e_nomem, e_overflow, e_range, fr_ok}
pub mod Reserve
pub mod Invariant
pub mod InPlace
pub mod Reader

pub record Buf : Type 0 where
  pub contents : List ℕ
  pub cap : ℕ

-- `realloc` is the C library's: whether it finds room for a block of the given size.
abbrev pub Allocator : Type 0
Allocator = ℕ → Bool

-- An operation's status, with the buffer after it.
pub record Done : Type 0 where
  pub status : Status
  pub buf : Buf

-- `fr_buf_init` and `fr_buf_destroy`, which leave the same state.
abbrev pub empty : Buf
empty = record { contents = []; cap = 0 }

-- `fr_buf_move`: the destination takes the storage and the source is left empty.
pub move : Buf → Buf → Buf × Buf
move dst src = (src, empty)

-- The outcome of the doubling loop. `stuck` is no outcome of the program: the rounds ran out.
pub data Growth : Type 0 where
  grown : ℕ → Growth
  overflowed stuck : Growth

-- `while (new_cap < needed) new_cap *= 2`, with a bound on the rounds.
pub grow : ℕ → ℕ → ℕ → Growth
grow zero new_cap needed = if ltb new_cap needed then stuck else grown new_cap
grow (suc rounds) new_cap needed =
    if ltb new_cap needed
    then elim (mul_size new_cap 2) [ none ↦ overflowed | some doubled ↦ grow rounds doubled needed ]
    else grown new_cap

-- Sixty-four doublings lead from 1 past every `size_t`.
abbrev pub grow_rounds : ℕ
grow_rounds = 64

-- The capacity at which `fr_buf_reserve` starts to double.
abbrev pub first_cap : ℕ → ℕ
first_cap cap = if not (cap == 0) then cap else 64

module _ (alloc : Allocator) where
  grow_to : Buf → Growth → Done
  grow_to b (grown new_cap) =
      if alloc new_cap
      then record { status = fr_ok; buf = record b { cap = new_cap } }
      else record { status = e_nomem; buf = b }
  grow_to b overflowed = record { status = e_overflow; buf = b }
  grow_to b stuck = record { status = e_internal; buf = b }

  -- `fr_buf_reserve`, given the size needed, or `none` if that overflows.
  reserve_needed : Buf → Option ℕ → Done
  unfolding grow_to
  reserve_needed b none = record { status = e_overflow; buf = b }
  reserve_needed b (some needed) =
      if leb needed b.cap
      then record { status = fr_ok; buf = b }
      else grow_to b (grow grow_rounds (first_cap b.cap) needed)

  pub reserve : Buf → ℕ → Done
  unfolding reserve_needed
  reserve b additional = reserve_needed b (add_size (length b.contents) additional)

  -- What `fr_buf_append` does after its call of `fr_buf_reserve`.
  append_reserved : Status → Buf → List ℕ → Done
  append_reserved fr_ok b l = record {
    status = fr_ok;
    buf = record b { contents = b.contents ++ l };
  }
  append_reserved st b l = record { status = st; buf = b }

  -- `fr_buf_append`.
  pub append : Buf → Source → Done
  unfolding append_reserved
  append b (null n) =
      if not (n == 0)
      then record { status = e_arg; buf = b }
      else append_reserved (reserve b 0).status (reserve b 0).buf []
  append b (bytes l) = append_reserved (reserve b (length l)).status (reserve b (length l)).buf l

  unfoldable pub append_u8 : Buf → ℕ → Done
  append_u8 b v = append b (bytes (v ∷ []))

  unfoldable pub append_u16be : Buf → ℕ → Done
  append_u16be b v = append b (bytes (store_be16 v))

  unfoldable pub append_u32be : Buf → ℕ → Done
  append_u32be b v = append b (bytes (store_be32 v))

  unfoldable pub append_u64be : Buf → ℕ → Done
  append_u64be b v = append b (bytes (store_be64 v))

-- `fr_buf_clear`, which keeps the capacity.
unfoldable pub clear : Buf → Buf
clear b = record b { contents = [] }

-- `fr_buf_consume`: the first n bytes go.
pub consume : Buf → ℕ → Done
consume b n =
    if ltb (length b.contents) n
    then record { status = e_range; buf = b }
    else record { status = fr_ok; buf = record b { contents = drop n b.contents } }

-- `fr_buf_view_of`: the bytes that a view shows.
pub view_of : Buf → List ℕ
view_of b = b.contents
