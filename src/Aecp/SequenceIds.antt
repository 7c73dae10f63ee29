-- ===== src/Aecp/SequenceIds.antt =====
-- The counter of sequence ids: only a submission moves it.
use avdecc_lib.Prelude.{
  ℕ, ◌+◌, ◌≤◌, ◌≡◌, refl, ◌∙◌, [], ◌∷◌, arith, inl, inr, Bool-cases, Option-cases, find_if, ◌==◌,
  ◌||◌,
}
use avdecc_lib.Output.{sent_frames}
use avdecc_lib.Inflight.{seq_id_comp}
use avdecc_lib.Aecp.Pdu.{Aecpdu}
use avdecc_lib.Aecp.Callback.{callback-aecp_seq_id, callback-inflight_cmds, sent_frames-callback}
use avdecc_lib.Aecp.Cases.{state_timeout_cases, tick_at-keeps, tick_loop-keeps}
use avdecc_lib.Aecp.Invariant.{transmit-aecp_seq_id, resend-aecp_seq_id}
use avdecc_lib.Aecp.Response.{proc_resp_unmatched, proc_resp_matched}
use avdecc_lib.Aecp.Machine.{
  Aecp, callback, state_send_cmd, tx_cmd, proc_resp, update_inflight_for_rcvd_resp, give_up, tick,
  start_operation, update_operation_for_rcvd_resp, Operation, operation_id_comp, proc_unsolicited,
}
use avdecc_lib.Aecp.History.{
  Call, sends, receives, ticks, starts_operation, reports_operation, step, submitted,
}

module _ {F : Type 0} (p : Aecpdu F) where
  -- A report on an operation leaves the commands in flight, the counter and the frames alone.
  pub operation-same :
      (nid id percent : ℕ) (f : F) (m : Aecp F)
      → let n = (update_operation_for_rcvd_resp p nid id percent f m).0 in
        (n.inflight_cmds ≡ m.inflight_cmds)
        × (n.aecp_seq_id ≡ m.aecp_seq_id)
        × (sent_frames n.out ≡ sent_frames m.out)
  unfolding update_operation_for_rcvd_resp
  operation-same nid id percent f m =
      elim (Option-cases (find_if (operation_id_comp id) m.active_operations)) [
        | inl e ↦ rw e (refl, refl, refl)
        | inr (j, e) ↦ elim (Bool-cases ((percent == 0) || (percent == 1000))) [
          | inl r ↦ rw (e, r) (quiet j)
          | inr r ↦ rw (e, r) (quiet j)
        ]
      ]
    where
      quiet :
          (j : Operation F)
          → let n = callback p j.cmd_notification_id j.cmd_notification_flag f m in
            (n.inflight_cmds ≡ m.inflight_cmds)
            × (n.aecp_seq_id ≡ m.aecp_seq_id)
            × (sent_frames n.out ≡ sent_frames m.out)
      quiet j = (
        callback-inflight_cmds p _ _ _ _,
        callback-aecp_seq_id p _ _ _ _,
        sent_frames-callback p _ _ _ _,
      )

  tick-aecp_seq_id : (now : ℕ) (m : Aecp F) → (tick p now m).aecp_seq_id ≡ m.aecp_seq_id
  unfolding tick give_up
  tick-aecp_seq_id now m =
      tick_loop-keeps p (λ n. n.aecp_seq_id ≡ m.aecp_seq_id) _ now 0 m
        (λ i n k.
          tick_at-keeps p (λ l. l.aecp_seq_id ≡ m.aecp_seq_id) now i n k
            (λ q.
              state_timeout_cases p (λ l. l.aecp_seq_id ≡ m.aecp_seq_id) now i _ (λ e. q)
                (λ c e r. q) (λ c e r. resend-aecp_seq_id p now c _ ∙ q)))
        refl

  proc_resp-aecp_seq_id :
      (nid : ℕ) (f : F) (m : Aecp F) → (proc_resp p nid f m).0.aecp_seq_id ≡ m.aecp_seq_id
  proc_resp-aecp_seq_id nid f m =
      elim (Option-cases (find_if (seq_id_comp (p.sequence_id f)) m.inflight_cmds)) [
        | inl e ↦ rw (proc_resp_unmatched p nid f m e)
        | inr (c, e) ↦ rw (proc_resp_matched p nid f m c e) (callback-aecp_seq_id p _ _ _ _)
      ]

  -- A submission moves the counter by one, modulo 2 to the 16, and no other call moves it.
  pub step-aecp_seq_id :
      (c : Call F) (m : Aecp F)
      → m.aecp_seq_id + submitted (c ∷ []) ≤ 65535
      → (step p c m).aecp_seq_id ≡ m.aecp_seq_id + submitted (c ∷ [])
  unfolding state_send_cmd tx_cmd update_inflight_for_rcvd_resp start_operation
  step-aecp_seq_id (sends now nid flag f) m lt = rw transmit-aecp_seq_id (omega arith)
  step-aecp_seq_id (receives nid msg u f) m lt = ground (
    arith,
    proc_resp-aecp_seq_id nid f m,
    proc_resp-aecp_seq_id nid f (proc_unsolicited p nid f m),
    proc_unsolicited_same nid f m,
  )
    where
      proc_unsolicited_same :
          (i : ℕ) (g : F) (n : Aecp F) → (proc_unsolicited p i g n).aecp_seq_id ≡ n.aecp_seq_id
      proc_unsolicited_same i g n = unfold proc_unsolicited in refl
  step-aecp_seq_id (ticks now) m lt = omega (arith, tick-aecp_seq_id now m)
  step-aecp_seq_id (starts_operation nid id type f) m lt = omega arith
  step-aecp_seq_id (reports_operation nid id percent f) m lt =
      omega (arith, (operation-same nid id percent f m).1)
