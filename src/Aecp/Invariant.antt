-- ===== src/Aecp/Invariant.antt =====
-- What holds of the commands in flight between two calls of the AECP state machine.
use avdecc_lib.Prelude.{
  ℕ, ◌≤◌, ◌<◌, ◌≡◌, refl, true, false, some, arith, get_elem?, modify_at, All, All-append,
  All-erase_at, All-modify_at, All-get_elem?,
}
use avdecc_lib.Timer.{start, timeout}
use avdecc_lib.Inflight.{Inflight, inflight, start_timer, poll, retried}
use avdecc_lib.Inflight.Keys.{
  Absent, Distinct, Distinct-append, Distinct-erase_at, Distinct-modify_at,
  modify_first-eq-modify_at, All-modify_at_ne,
}
use avdecc_lib.Aecp.Pdu.{Aecpdu, IsAecpdu}
use avdecc_lib.Aecp.Callback.{callback-inflight_cmds, callback-aecp_seq_id}
use avdecc_lib.Aecp.Cases.{state_timeout_cases, tick_at-keeps, tick_loop-keeps}
use avdecc_lib.Aecp.Machine.{
  Aecp, new_aecp, transmit, tx_cmd, state_send_cmd, give_up, resend, state_timeout, poll_inflight,
  tick_at, tick,
}

-- An entry was sent once or twice, its id is the one in its frame, and its timer is started.
pub record IsSent {F : Type 0} (p : Aecpdu F) (c : Inflight F) : Type 0 where
  pub frame_id : p.sequence_id c.cmd_frame ≡ c.cmd_seq_id
  pub at_least_once : 1 ≤ c.start_timer_cnt
  pub at_most_twice : c.start_timer_cnt ≤ 2
  pub timed : c.cmd_timer.running ≡ true
  pub counts : c.cmd_timer.count ≡ 250
  pub limit : c.cmd_timeout_ms ≡ 250

pub record Inv {F : Type 0} (p : Aecpdu F) (m : Aecp F) : Type 0 where
  pub seq_id-lt : m.aecp_seq_id < 65536
  pub entries : All (IsSent p) m.inflight_cmds
  pub distinct : Distinct m.inflight_cmds

module _ {F : Type 0} (p : Aecpdu F) where
  pub new_aecp-Inv : Inv p new_aecp
  new_aecp-Inv = record { seq_id-lt = omega arith; entries = tt; distinct = tt }

  poll-IsSent : (now : ℕ) (c : Inflight F) → IsSent p c → IsSent p (poll now c)
  unfolding timeout
  poll-IsSent now c h = ground arith

  restart-IsSent :
      (now : ℕ) (c : Inflight F) → retried c ≡ false → IsSent p c → IsSent p (start_timer now c)
  unfolding start
  restart-IsSent now c r h = ground arith

  start-IsSent :
      (now id nid flag : ℕ) (f : F)
      → p.sequence_id f ≡ id
      → IsSent p (start_timer now (inflight f id nid flag 250))
  unfolding start
  start-IsSent now id nid flag f e = ground arith

  -- The transmission itself leaves the commands in flight as they are.
  pub transmit-inflight_cmds :
      (nid flag : ℕ) (f : F) (m : Aecp F)
      → (transmit p nid flag f m).inflight_cmds ≡ m.inflight_cmds
  unfolding transmit
  transmit-inflight_cmds nid flag f m = rw callback-inflight_cmds (ground arith)

  pub transmit-aecp_seq_id :
      (nid flag : ℕ) (f : F) (m : Aecp F) → (transmit p nid flag f m).aecp_seq_id ≡ m.aecp_seq_id
  unfolding transmit
  transmit-aecp_seq_id nid flag f m = rw callback-aecp_seq_id (ground arith)

module _ {F : Type 0} (p : Aecpdu F) (law : IsAecpdu p) where
  -- A first transmission keeps the invariant when its sequence id is not in flight already.
  pub state_send_cmd-Inv :
      (now nid flag : ℕ) (f : F) (m : Aecp F)
      → Absent m.aecp_seq_id m.inflight_cmds
      → Inv p m
      → Inv p (state_send_cmd p now nid flag f m)
  unfolding state_send_cmd tx_cmd
  state_send_cmd-Inv now nid flag f m fresh h = record {
    seq_id-lt = rw (transmit-aecp_seq_id p) (omega arith);
    entries = rw (transmit-inflight_cmds p) (
        All-append (IsSent p) m.inflight_cmds _ h.entries
          (start-IsSent p now m.aecp_seq_id nid flag _ id, tt));
    distinct = rw (transmit-inflight_cmds p) (Distinct-append m.inflight_cmds _ h.distinct fresh);
  }
    where
      id : p.sequence_id (p.set_sequence_id m.aecp_seq_id f) ≡ m.aecp_seq_id
      id = law.sequence_id-set_sequence_id m.aecp_seq_id f h.seq_id-lt

module _ {F : Type 0} (p : Aecpdu F) where
  pub poll_inflight-Inv : (now i : ℕ) (m : Aecp F) → Inv p m → Inv p (poll_inflight p now i m)
  poll_inflight-Inv now i m h = record {
    seq_id-lt = h.seq_id-lt;
    entries = All-modify_at (IsSent p) (poll now) m.inflight_cmds i (poll-IsSent p now) h.entries;
    distinct = Distinct-modify_at (poll now) m.inflight_cmds i (λ c. refl) h.distinct;
  }

  give_up-Inv : (i : ℕ) (c : Inflight F) (m : Aecp F) → Inv p m → Inv p (give_up p i c m)
  unfolding give_up
  give_up-Inv i c m h = record {
    seq_id-lt = h.seq_id-lt;
    entries = All-erase_at (IsSent p) m.inflight_cmds i h.entries;
    distinct = Distinct-erase_at m.inflight_cmds i h.distinct;
  }

  -- A repeated command is entry i itself, as the ids are distinct.
  pub resend-inflight_cmds :
      (now i : ℕ) (c : Inflight F) (m : Aecp F)
      → Inv p m
      → get_elem? m.inflight_cmds i ≡ some c
      → (resend p now c m).inflight_cmds ≡ modify_at m.inflight_cmds i (start_timer now)
  unfolding resend tx_cmd
  resend-inflight_cmds now i c m h e =
      rw
        (
          transmit-inflight_cmds p,
          (All-get_elem? (IsSent p) m.inflight_cmds i h.entries e).frame_id,
        )
        (modify_first-eq-modify_at (start_timer now) m.inflight_cmds i c h.distinct e)

  pub resend-aecp_seq_id :
      (now : ℕ) (c : Inflight F) (m : Aecp F) → (resend p now c m).aecp_seq_id ≡ m.aecp_seq_id
  unfolding resend tx_cmd
  resend-aecp_seq_id now c m = transmit-aecp_seq_id p _ _ _ _

  resend-Inv :
      (now i : ℕ) (c : Inflight F) (m : Aecp F)
      → Inv p m
      → get_elem? m.inflight_cmds i ≡ some c
      → retried c ≡ false
      → Inv p (resend p now c m)
  resend-Inv now i c m h e r = record {
    seq_id-lt = rw (resend-aecp_seq_id now c m) h.seq_id-lt;
    entries = rw (resend-inflight_cmds now i c m h e) (
        All-modify_at_ne (IsSent p) (IsSent p) (start_timer now) m.inflight_cmds i c h.distinct e
          (restart-IsSent p now c r) (λ x n s. s) h.entries);
    distinct =
        rw (resend-inflight_cmds now i c m h e)
          (Distinct-modify_at (start_timer now) m.inflight_cmds i (λ x. refl) h.distinct);
  }

  pub state_timeout-Inv : (now i : ℕ) (m : Aecp F) → Inv p m → Inv p (state_timeout p now i m)
  state_timeout-Inv now i m h =
      state_timeout_cases p (Inv p) now i m (λ e. h) (λ c e r. give_up-Inv i c m h)
        (λ c e r. resend-Inv now i c m h e r)

  pub tick_at-Inv : (now i : ℕ) (m : Aecp F) → Inv p m → Inv p (tick_at p now i m)
  tick_at-Inv now i m h =
      tick_at-keeps p (Inv p) now i m (poll_inflight-Inv now i m h)
        (state_timeout-Inv now i (poll_inflight p now i m))

  pub tick-Inv : (now : ℕ) (m : Aecp F) → Inv p m → Inv p (tick p now m)
  unfolding tick
  tick-Inv now m h = tick_loop-keeps p (Inv p) _ now 0 m (tick_at-Inv now) h
