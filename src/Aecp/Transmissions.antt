-- ===== src/Aecp/Transmissions.antt =====
-- How often a command is put on the network.
use avdecc_lib.Prelude.{
  ℕ, ◌+◌, ◌≤◌, ◌<◌, ◌≡◌, refl, false, List, [], ◌∷◌, some, arith, inl, inr, get_elem?, modify_at,
  All, All-append, All-erase_at, All-erase_first, All-modify_at, All-get_elem?, All-map,
  Option-cases, Bool-cases, Bool, find_if, All-both,
}
use avdecc_lib.Output.{sent_frames}
use avdecc_lib.Inflight.{Inflight, start_timer, poll, retried, seq_id_comp}
use avdecc_lib.Inflight.Keys.{Distinct, All-modify_at_ne, Distinct-erase_first}
use avdecc_lib.Aecp.Pdu.{Aecpdu, IsAecpdu, MessageType}
use avdecc_lib.Aecp.Callback.{callback-aecp_seq_id, sent_frames-callback}
use avdecc_lib.Aecp.Cases.{state_timeout_cases, tick_at-keeps, tick_loop-keeps}
use avdecc_lib.Aecp.Invariant.{
  Inv, IsSent, new_aecp-Inv, transmit-inflight_cmds, transmit-aecp_seq_id, state_send_cmd-Inv,
  poll_inflight-Inv, resend-inflight_cmds, resend-aecp_seq_id, state_timeout-Inv,
}
use avdecc_lib.Aecp.Response.{proc_resp_unmatched, proc_resp_matched}
use avdecc_lib.Aecp.Machine.{
  Aecp, new_aecp, transmit, tx_cmd, state_send_cmd, proc_resp, update_inflight_for_rcvd_resp,
  give_up, resend, state_timeout, poll_inflight, tick, start_operation, is_response,
}
use avdecc_lib.Aecp.SequenceIds.{operation-same, step-aecp_seq_id}
use avdecc_lib.Aecp.History.{
  Call, sends, receives, ticks, starts_operation, reports_operation, step, run, transmissions,
  submitted, submitted_cons,
}

-- While the sequence ids have not wrapped: each command in flight was transmitted as often as its
-- timer was started, none more than twice, and none that is not submitted.
pub record IsCounted {F : Type 0} (p : Aecpdu F) (m : Aecp F) : Type 0 where
  pub inv : Inv p m
  pub below : All (λ (c : Inflight F). c.cmd_seq_id < m.aecp_seq_id) m.inflight_cmds
  pub counted :
      All (λ (c : Inflight F). transmissions p c.cmd_seq_id m ≡ c.start_timer_cnt) m.inflight_cmds
  pub bounded : (v : ℕ) → transmissions p v m ≤ 2
  pub future : (v : ℕ) → m.aecp_seq_id ≤ v → transmissions p v m ≡ 0

module _ {F : Type 0} (p : Aecpdu F) where
  new_aecp-IsCounted : IsCounted p new_aecp
  new_aecp-IsCounted = record {
    inv = new_aecp-Inv p;
    below = tt;
    counted = tt;
    bounded = λ v. omega arith;
    future = λ v h. refl;
  }

  pub sent_frames-transmit :
      (nid flag : ℕ) (f : F) (m : Aecp F)
      → sent_frames (transmit p nid flag f m).out ≡ f ∷ sent_frames m.out
  unfolding transmit
  sent_frames-transmit nid flag f m = rw sent_frames-callback (ground arith)

  sent_frames-resend :
      (now : ℕ) (c : Inflight F) (m : Aecp F)
      → sent_frames (resend p now c m).out ≡ c.cmd_frame ∷ sent_frames m.out
  unfolding resend tx_cmd
  sent_frames-resend now c m = sent_frames-transmit _ _ _ _

  -- A call that leaves the trace's frames, the counter and part of the list keeps all.
  shrink-IsCounted :
      (m n : Aecp F)
      → Inv p n
      → ((P : Inflight F → Type 0) → All P m.inflight_cmds → All P n.inflight_cmds)
      → n.aecp_seq_id ≡ m.aecp_seq_id
      → sent_frames n.out ≡ sent_frames m.out
      → IsCounted p m
      → IsCounted p n
  shrink-IsCounted m n i part q o h = record {
    inv = i;
    below = rw q (part _ h.below);
    counted = rw o (part _ h.counted);
    bounded = rw o h.bounded;
    future = rw (q, o) h.future;
  }

  poll_inflight-IsCounted :
      (now i : ℕ) (m : Aecp F) → IsCounted p m → IsCounted p (poll_inflight p now i m)
  poll_inflight-IsCounted now i m h = record {
    inv = poll_inflight-Inv p now i m h.inv;
    below = All-modify_at _ (poll now) m.inflight_cmds i (λ x b. b) h.below;
    counted = All-modify_at _ (poll now) m.inflight_cmds i (λ x b. b) h.counted;
    bounded = h.bounded;
    future = h.future;
  }

  resend-IsCounted :
      (now i : ℕ) (c : Inflight F) (m : Aecp F)
      → IsCounted p m
      → Inv p (resend p now c m)
      → get_elem? m.inflight_cmds i ≡ some c
      → retried c ≡ false
      → IsCounted p (resend p now c m)
  resend-IsCounted now i c m h k e r = record {
    inv = k;
    below =
        rw (items, resend-aecp_seq_id p now c m)
          (All-modify_at _ (start_timer now) m.inflight_cmds i (λ x b. b) h.below);
    counted =
        rw (items, sent_frames-resend now c m)
          (All-modify_at_ne _ _ (start_timer now) m.inflight_cmds i c h.inv.distinct e
            (λ b. ground (arith, own)) (λ x n b. ground (arith, own)) h.counted);
    bounded = λ v. rw (sent_frames-resend now c m) (ground (arith, own, mine, h.bounded v));
    future = λ v b.
        rw (sent_frames-resend now c m)
          (ground (arith, own, rw (resend-aecp_seq_id p now c m) at b, low, h.future v));
  }
    where
      items : (resend p now c m).inflight_cmds ≡ modify_at m.inflight_cmds i (start_timer now)
      items = resend-inflight_cmds p now i c m h.inv e

      own : p.sequence_id c.cmd_frame ≡ c.cmd_seq_id
      own = (All-get_elem? (IsSent p) m.inflight_cmds i h.inv.entries e).frame_id

      mine : transmissions p c.cmd_seq_id m ≡ c.start_timer_cnt
      mine = All-get_elem? _ m.inflight_cmds i h.counted e

      low : c.cmd_seq_id < m.aecp_seq_id
      low = All-get_elem? _ m.inflight_cmds i h.below e

  give_up-IsCounted :
      (i : ℕ) (c : Inflight F) (m : Aecp F)
      → IsCounted p m
      → Inv p (give_up p i c m)
      → IsCounted p (give_up p i c m)
  unfolding give_up
  give_up-IsCounted i c m h k =
      shrink-IsCounted m _ k (λ P a. All-erase_at P m.inflight_cmds i a) refl refl h

  state_timeout-IsCounted :
      (now i : ℕ) (m : Aecp F) → IsCounted p m → IsCounted p (state_timeout p now i m)
  state_timeout-IsCounted now i m h =
      (state_timeout_cases p (λ n. Inv p n → IsCounted p n) now i m (λ e k. h)
          (λ c e r k. give_up-IsCounted i c m h k) (λ c e r k. resend-IsCounted now i c m h k e r))
        (state_timeout-Inv p now i m h.inv)

  tick-IsCounted : (now : ℕ) (m : Aecp F) → IsCounted p m → IsCounted p (tick p now m)
  unfolding tick
  tick-IsCounted now m h =
      tick_loop-keeps p (IsCounted p) _ now 0 m
        (λ i n k.
          tick_at-keeps p (IsCounted p) now i n (poll_inflight-IsCounted now i n k)
            (state_timeout-IsCounted now i (poll_inflight p now i n)))
        h

  -- A response only takes a command out.
  proc_resp-IsCounted :
      (nid : ℕ) (f : F) (m : Aecp F) → IsCounted p m → IsCounted p (proc_resp p nid f m).0
  proc_resp-IsCounted nid f m h =
      elim (Option-cases (find_if (seq_id_comp (p.sequence_id f)) m.inflight_cmds)) [
        | inl e ↦ rw (proc_resp_unmatched p nid f m e) h
        | inr (c, e) ↦ rw (proc_resp_matched p nid f m c e) (
            shrink-IsCounted m _
              (record {
                seq_id-lt = rw callback-aecp_seq_id h.inv.seq_id-lt;
                entries = All-erase_first (IsSent p) _ m.inflight_cmds h.inv.entries;
                distinct = Distinct-erase_first _ m.inflight_cmds h.inv.distinct;
              })
              (λ P a. All-erase_first P _ m.inflight_cmds a) (callback-aecp_seq_id p _ _ _ _)
              (sent_frames-callback p _ _ _ _) h)
      ]

  -- So does a call that leaves the commands in flight, the counter and the frames as they are.
  same-IsCounted :
      (m n : Aecp F)
      → n.inflight_cmds ≡ m.inflight_cmds
      → n.aecp_seq_id ≡ m.aecp_seq_id
      → sent_frames n.out ≡ sent_frames m.out
      → IsCounted p m
      → IsCounted p n
  same-IsCounted m n l q o h =
      shrink-IsCounted m n
        (record {
          seq_id-lt = rw q h.inv.seq_id-lt;
          entries = rw l h.inv.entries;
          distinct = rw l h.inv.distinct;
        })
        (λ P a. rw l a) q o h

  receive-IsCounted :
      (nid : ℕ) (msg : MessageType) (u : Bool) (f : F) (m : Aecp F)
      → IsCounted p m
      → IsCounted p (update_inflight_for_rcvd_resp p nid msg u f m).0
  unfolding update_inflight_for_rcvd_resp
  receive-IsCounted nid msg u f m h = elim (Bool-cases (is_response msg)) [
    | inl r ↦ elim (Bool-cases u) [
      | inl e ↦ rw (r, e) (proc_resp-IsCounted nid f _ (same-IsCounted m _ refl refl refl h))
      | inr e ↦ rw (r, e) (proc_resp-IsCounted nid f m h)
    ]
    | inr r ↦ rw r (same-IsCounted m _ refl refl refl h)
  ]

module _ {F : Type 0} (p : Aecpdu F) (law : IsAecpdu p) where
  send-IsCounted :
      (now nid flag : ℕ) (f : F) (m : Aecp F)
      → m.aecp_seq_id < 65535
      → IsCounted p m
      → IsCounted p (state_send_cmd p now nid flag f m)
  unfolding state_send_cmd tx_cmd
  send-IsCounted now nid flag f m lt h = record {
    inv =
        state_send_cmd-Inv p law now nid flag f m
          (All-map _ _ m.inflight_cmds (λ x b e. omega arith) h.below) h.inv;
    below =
        rw (transmit-inflight_cmds p, transmit-aecp_seq_id p)
          (All-append _ m.inflight_cmds _ (All-map _ _ m.inflight_cmds (λ x b. omega arith) h.below)
            (omega arith, tt));
    counted =
        rw (transmit-inflight_cmds p, sent_frames-transmit p)
          (All-append _ m.inflight_cmds _
            (All-both _ _ _ m.inflight_cmds (λ x b k. ground (arith, id)) h.below h.counted)
            (ground (arith, id, h.future m.aecp_seq_id), tt));
    bounded = λ v. rw (sent_frames-transmit p) (ground (arith, id, h.bounded v, h.future v));
    future = λ v b.
        rw (sent_frames-transmit p)
          (ground (arith, id, h.future v, rw (transmit-aecp_seq_id p) at b));
  }
    where
      id : p.sequence_id (p.set_sequence_id m.aecp_seq_id f) ≡ m.aecp_seq_id
      id = law.sequence_id-set_sequence_id m.aecp_seq_id f h.inv.seq_id-lt

  -- Each call keeps the count, if the counter does not pass its last value.
  step-IsCounted :
      (c : Call F) (m : Aecp F)
      → m.aecp_seq_id + submitted (c ∷ []) ≤ 65535
      → IsCounted p m
      → IsCounted p (step p c m)
  unfolding start_operation
  step-IsCounted (sends now nid flag f) m lt h = send-IsCounted now nid flag f m (omega arith) h
  step-IsCounted (receives nid msg u f) m lt h = receive-IsCounted p nid msg u f m h
  step-IsCounted (ticks now) m lt h = tick-IsCounted p now m h
  step-IsCounted (starts_operation nid id type f) m lt h = same-IsCounted p m _ refl refl refl h
  step-IsCounted (reports_operation nid id percent f) m lt h =
      let (l, q, o) = operation-same p nid id percent f m in same-IsCounted p m _ l q o h

  run-IsCounted :
      (cs : List (Call F)) (m : Aecp F)
      → m.aecp_seq_id + submitted cs ≤ 65535
      → IsCounted p m
      → IsCounted p (run p cs m)
  run-IsCounted [] m lt h = h
  run-IsCounted (c ∷ cs) m lt h =
      run-IsCounted cs (step p c m)
        (omega
          (arith, step-aecp_seq_id p c m (omega (arith, submitted_cons c cs)), submitted_cons c cs))
        (step-IsCounted c m (omega (arith, submitted_cons c cs)) h)

  -- In every history of the AECP state machine from its start that submits at most 65535 commands, whatever responses, ticks and operations lie between, each sequence id is put on the network at most twice; a command in flight was put on it as often as its timer was started, once or twice; and no two commands in flight have the same sequence id.
  pub transmissions-run :
      (cs : List (Call F))
      → submitted cs ≤ 65535
      → let m = run p cs new_aecp in
        ((v : ℕ) → transmissions p v m ≤ 2)
        × All
            (λ (c : Inflight F).
              (transmissions p c.cmd_seq_id m ≡ c.start_timer_cnt) × (1 ≤ c.start_timer_cnt))
            m.inflight_cmds
        × Distinct m.inflight_cmds
  transmissions-run cs lt =
      let h = run-IsCounted cs new_aecp (omega arith) (new_aecp-IsCounted p) in
      (
        h.bounded,
        All-both _ _ _ (run p cs new_aecp).inflight_cmds (λ x b k. (b, k.at_least_once)) h.counted
            h.inv.entries,
        h.inv.distinct,
      )
