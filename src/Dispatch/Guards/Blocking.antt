-- ===== src/Dispatch/Guards/Blocking.antt =====
-- src/service/fr_dispatch.cpp: twenty failures within a window block an address for a minute, and fewer
-- do not.
use forgerelay.Prelude.{
  All, List, [], ap, arith, if◌then◌else◌, length, ltb, refl, suc, ℕ, ◌+◌, ◌<◌, ◌∙◌, ◌∷◌, ◌≡◌, ◌≤◌,
}
use forgerelay.Core.Status.{e_unauthenticated}
use forgerelay.Dispatch.Guards.{
  IpStat, check_peer_not_blocked, ip_failure_window_seconds, new_stat, note_auth_failure,
}
use forgerelay.Messages.Fields.{done, thrown}

-- The entry of an address after failures at these times.
abbrev pub note_failures : List ℕ → IpStat → IpStat
note_failures [] st = st
note_failures (t ∷ ts) st = note_failures ts (note_auth_failure t st)

abbrev pub InWindow : ℕ → ℕ → Type 0
InWindow start t = (start ≤ t) × (t ≤ start + ip_failure_window_seconds)

note-inside :
    (start t : ℕ) (st : IpStat)
    → 0 < start
    → st.window_start ≡ start
    → InWindow start t
    → st.failures + 1 < 20
    → note_auth_failure t st ≡ record st { failures = st.failures + 1 }
unfolding note_auth_failure
note-inside start t st begun window inside few =
    grind (arith, begun, window, inside.0, inside.1, few)

-- Failures inside a window that is open, too few to block.
note_failures-few :
    (start : ℕ) (ts : List ℕ) (st : IpStat)
    → 0 < start
    → st.window_start ≡ start
    → All (InWindow start) ts
    → st.failures + length ts < 20
    → note_failures ts st ≡ record st { failures = st.failures + length ts }
note_failures-few start [] st begun window inside few =
    let same : st.failures ≡ st.failures + 0 = omega arith in
    ap (λ n. record st { failures = n }) same
note_failures-few start (t ∷ ts) st begun window inside few =
    let same : st.failures + 1 + length ts ≡ st.failures + suc (length ts) = omega arith in
    ap (note_failures ts) (note-inside start t st begun window inside.0 (omega (arith, few)))
    ∙ note_failures-few start ts (record st { failures = st.failures + 1 }) begun window inside.1
        (omega (arith, few))
    ∙ ap (λ n. record st { failures = n }) same

-- The entry after the first failure of an address and more, up to nineteen in all.
first_failures :
    (start : ℕ) (ts : List ℕ)
    → 0 < start
    → All (InWindow start) ts
    → length ts < 19
    → note_failures (start ∷ ts) new_stat
      ≡ record { failures = 1 + length ts; window_start = start; blocked_until = 0 }
unfolding note_auth_failure
first_failures start ts begun inside few =
    note_failures-few start ts (record { failures = 1; window_start = start; blocked_until = 0 })
      begun refl inside (omega (arith, few))

pub note_failures-allowed :
    (start now : ℕ) (ts : List ℕ)
    → 0 < start
    → All (InWindow start) ts
    → length ts < 19
    → check_peer_not_blocked now (note_failures (start ∷ ts) new_stat) ≡ done tt
unfolding check_peer_not_blocked
note_failures-allowed start now ts begun inside few =
    ap (check_peer_not_blocked now) (first_failures start ts begun inside few) ∙ ground arith

-- After twenty failed authentications of an address that had none, the first at a time that is
-- not 0 and the others within a minute of it, the check refuses the address for a minute after
-- the last of them, and lets it through from then on.
pub note_failures-blocked :
    (start last now : ℕ) (ts : List ℕ)
    → 0 < start
    → All (InWindow start) ts
    → InWindow start last
    → length ts ≡ 18
    → check_peer_not_blocked now (note_auth_failure last (note_failures (start ∷ ts) new_stat))
      ≡ (if ltb now (last + 60) then thrown e_unauthenticated else done tt)
unfolding note_auth_failure check_peer_not_blocked
note_failures-blocked start last now ts begun inside at_last size =
    ap (λ st. check_peer_not_blocked now (note_auth_failure last st))
      (first_failures start ts begun inside (omega (arith, size)))
    ∙ ground (arith, begun, at_last.0, at_last.1, size)
