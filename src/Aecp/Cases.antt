-- ===== src/Aecp/Cases.antt =====
-- The ways through `state_timeout`, `proc_resp` and the loop of `tick`, for proofs.
use avdecc_lib.Prelude.{
  ℕ, zero, suc, ◌+◌, ◌≡◌, inl, inr, true, false, none, some, get_elem?, Bool-cases, Option-cases,
}
use avdecc_lib.Inflight.{Inflight, retried}
use avdecc_lib.Aecp.Pdu.{Aecpdu}
use avdecc_lib.Aecp.Machine.{
  Aecp, give_up, resend, state_timeout, poll_inflight, tick_at, tick_loop,
}

module _ {κ} {F : Type 0} (p : Aecpdu F) (P : Aecp F → Type κ) where
  pub state_timeout_cases :
      (now i : ℕ) (m : Aecp F)
      → (get_elem? m.inflight_cmds i ≡ none → P m)
      → ((c : Inflight F)
          → get_elem? m.inflight_cmds i ≡ some c
          → retried c ≡ true
          → P (give_up p i c m))
      → ((c : Inflight F)
          → get_elem? m.inflight_cmds i ≡ some c
          → retried c ≡ false
          → P (resend p now c m))
      → P (state_timeout p now i m)
  unfolding state_timeout
  state_timeout_cases now i m skip gone again = elim (Option-cases (get_elem? m.inflight_cmds i)) [
    | inl e ↦ rw (e, state_timeout) (skip e)
    | inr (c, e) ↦ elim (Bool-cases (retried c)) [
      | inl r ↦ rw (e, state_timeout, r) (gone c e r)
      | inr r ↦ rw (e, state_timeout, r) (again c e r)
    ]
  ]

  -- What polling and `state_timeout` keep, `tick` keeps.
  pub tick_at-keeps :
      (now i : ℕ) (m : Aecp F)
      → P (poll_inflight p now i m)
      → (P (poll_inflight p now i m) → P (state_timeout p now i (poll_inflight p now i m)))
      → P (tick_at p now i m)
  unfolding tick_at
  tick_at-keeps now i m polled fired =
      elim (Option-cases (get_elem? (poll_inflight p now i m).inflight_cmds i)) [
        | inl e ↦ rw (e, tick_at) polled
        | inr (c, e) ↦ elim (Bool-cases c.cmd_timer.elapsed) [
          | inl r ↦ rw (e, tick_at, r) (fired polled)
          | inr r ↦ rw (e, tick_at, r) polled
        ]
      ]

  pub tick_loop-keeps :
      (rounds now i : ℕ) (m : Aecp F)
      → ((j : ℕ) (n : Aecp F) → P n → P (tick_at p now j n))
      → P m
      → P (tick_loop p rounds now i m)
  unfolding tick_loop
  tick_loop-keeps zero now i m k h = h
  tick_loop-keeps (suc rounds) now i m k h = elim (Option-cases (get_elem? m.inflight_cmds i)) [
    | inl e ↦ rw (e, tick_loop) h
    | inr (c, e) ↦
        rw (e, tick_loop) (tick_loop-keeps rounds now (i + 1) (tick_at p now i m) k (k i m h))
  ]
