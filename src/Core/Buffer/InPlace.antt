-- ===== src/Core/Buffer/InPlace.antt =====
-- src/core_c/fr_buffer.c: a request that the capacity covers asks nothing of the allocator.
use forgerelay.Prelude.{List, arith, bytes, length, le→leb, ℕ, ◌++◌, ◌+◌, ◌≡◌, ◌≤◌}
use forgerelay.Core.Buffer.{Allocator, Buf, append, reserve}
use forgerelay.Core.Buffer.Invariant.{IsWf}
use forgerelay.Core.Checked.{size_max}
use forgerelay.Core.Checked.Exact.{add_size_lem}
use forgerelay.Core.Status.{fr_ok}

module _ (alloc : Allocator) {b : Buf} (w : IsWf b) where
  pub reserve-in_place :
      (n : ℕ)
      → length b.contents + n ≤ b.cap
      → reserve alloc b n ≡ record { status = fr_ok; buf = b }
  unfolding reserve
  reserve-in_place n h =
      let needed = length b.contents + n in
      rw (add_size_lem (length b.contents) n)
        (rw (le→leb needed size_max (omega (arith, w.bounded))) (rw (le→leb needed b.cap h)))

  pub append-in_place :
      (l : List ℕ)
      → length b.contents + length l ≤ b.cap
      → append alloc b (bytes l)
        ≡ record { status = fr_ok; buf = record b { contents = b.contents ++ l } }
  unfolding append
  append-in_place l h = rw (reserve-in_place (length l) h)
