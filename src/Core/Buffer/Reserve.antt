-- ===== src/Core/Buffer/Reserve.antt =====
-- src/core_c/fr_buffer.c: what the growth of a buffer gives.
use forgerelay.Prelude.{
  Bool-cases, ap, arith, false, inl, inr, leb, length, le→leb, le→ltb, ltb, ltb→lt, lt→leb, none,
  some, suc, true, zero, ℕ, ◌*◌, ◌+◌, ◌<◌, ◌^◌, ◌≡◌, ◌≤◌,
}
use forgerelay.Core.Buffer.{
  Allocator, Buf, Done, Growth, first_cap, grow, grow_rounds, grow_to, grown, overflowed, reserve,
  stuck,
}
use forgerelay.Core.Checked.{mul_size, size_max}
use forgerelay.Core.Checked.Exact.{add_size_lem, mul_size_lem}
use forgerelay.Core.Status.{e_nomem, e_overflow, fr_ok}
use native.Mathlib.Nat.{pow-suc}
use native.Mathlib.Decide.{dec_le}

-- With rounds enough the loop ends, and its result is large enough.
pub data Grows (needed : ℕ) : Growth → Type 0 where
  large : {c : ℕ} → needed ≤ c → c ≤ size_max → Grows needed (grown c)
  too_large : 2 ^ 63 < needed → Grows needed overflowed

mul_size_room : (c : ℕ) → c * 2 ≤ size_max → mul_size c 2 ≡ some (c * 2)
mul_size_room c h = rw (mul_size_lem c 2, le→leb (c * 2) size_max h)

mul_size_full : (c : ℕ) → size_max < c * 2 → mul_size c 2 ≡ none
mul_size_full c h = rw (mul_size_lem c 2, lt→leb (c * 2) size_max h)

twice_pow : (c k : ℕ) → c * 2 ^ suc k ≡ c * 2 * 2 ^ k
twice_pow c k = omega (arith, ap (λ (t : ℕ). c * t) (pow-suc 2 k))

grow-Grows :
    (rounds c needed : ℕ)
    → needed ≤ c * 2 ^ rounds
    → c ≤ size_max
    → Grows needed (grow rounds c needed)
unfolding grow
grow-Grows zero c needed h small = rw (le→ltb c needed (omega arith)) (large (omega arith) small)
grow-Grows (suc rounds) c needed h small = elim (Bool-cases (ltb c needed)) [
  | inr enough ↦ rw enough (large (ground arith) small)
  | inl more ↦ elim (dec_le (c * 2) size_max) [
    | yes room ↦
        rw (more, mul_size_room c room)
          (grow-Grows rounds (c * 2) needed (omega (arith, twice_pow c rounds)) room)
    | no full ↦
        rw (more, mul_size_full c (omega arith)) (too_large (omega (arith, ltb→lt c needed more)))
  ]
]

first_cap_reaches : (cap needed : ℕ) → needed ≤ size_max → needed ≤ first_cap cap * 2 ^ grow_rounds
first_cap_reaches cap needed h = ground arith

grow-Grows_reserve :
    (cap needed : ℕ)
    → cap ≤ size_max
    → needed ≤ size_max
    → Grows needed (grow grow_rounds (first_cap cap) needed)
grow-Grows_reserve cap needed hc hn =
    grow-Grows grow_rounds (first_cap cap) needed (first_cap_reaches cap needed hn) (ground arith)

-- What a call of `fr_buf_reserve` may do to a buffer.
pub data Reserved (alloc : Allocator) (b : Buf) (additional : ℕ) : Done → Type 0 where
  in_place :
      length b.contents + additional ≤ b.cap
      → Reserved alloc b additional (record { status = fr_ok; buf = b })
  moved :
      (c : ℕ)
      → length b.contents + additional ≤ c
      → c ≤ size_max
      → alloc c ≡ true
      → Reserved alloc b additional (record { status = fr_ok; buf = record b { cap = c } })
  refused_size :
      2 ^ 63 < length b.contents + additional
      → Reserved alloc b additional (record { status = e_overflow; buf = b })
  refused_memory :
      (c : ℕ)
      → length b.contents + additional ≤ c
      → alloc c ≡ false
      → Reserved alloc b additional (record { status = e_nomem; buf = b })

module _ (alloc : Allocator) (b : Buf) (additional : ℕ) where
  grow_to-Reserved :
      (g : Growth)
      → Grows (length b.contents + additional) g
      → Reserved alloc b additional (grow_to alloc b g)
  unfolding grow_to
  grow_to-Reserved (grown c) (large h k) = elim (Bool-cases (alloc c)) [
    | inl room ↦ rw room (moved c h k room)
    | inr full ↦ rw full (refused_memory c h full)
  ]
  grow_to-Reserved overflowed (too_large h) = refused_size h
  grow_to-Reserved stuck h = elim h [ ]

  -- With a capacity that a size_t holds, every call of fr_buf_reserve succeeds with room for the
  -- request and the contents kept, or fails for lack of memory or for a size above 2 ^ 63, with
  -- the buffer as it was.
  pub reserve-Reserved : b.cap ≤ size_max → Reserved alloc b additional (reserve alloc b additional)
  unfolding reserve
  reserve-Reserved hc =
      let needed = length b.contents + additional in
      rw (add_size_lem (length b.contents) additional) (elim (dec_le needed size_max) [
        | no big ↦ rw (lt→leb needed size_max (omega arith)) (refused_size (omega arith))
        | yes fit ↦ rw (le→leb needed size_max fit) (elim (Bool-cases (leb needed b.cap)) [
          | inl room ↦ rw room (in_place (ground arith))
          | inr full ↦ rw full (grow_to-Reserved _ (grow-Grows_reserve b.cap needed hc fit))
        ])
      ])
