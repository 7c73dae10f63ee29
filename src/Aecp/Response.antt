-- ===== src/Aecp/Response.antt =====
-- `proc_resp` and `update_inflight_for_rcvd_resp`: what a received response does.
use avdecc_lib.Prelude.{
  ℕ, ◌≡◌, refl, true, false, none, some, find_if, erase_first, ◌&&◌, ◌∷◌, if◌then◌else◌, ◌==◌,
}
use avdecc_lib.Output.{posted, sent_frames, cmd_with_notification}
use avdecc_lib.Inflight.{Inflight, seq_id_comp}
use avdecc_lib.Inflight.Keys.{Absent, Absent-erase_first_self}
use avdecc_lib.Aecp.Pdu.{Aecpdu}
use avdecc_lib.Aecp.Callback.{
  callback-inflight_cmds, callback-aecp_seq_id, callback-active_operations, sent_frames-callback,
  posted-callback, report,
}
use avdecc_lib.Aecp.Invariant.{Inv}
use avdecc_lib.Aecp.Machine.{Aecp, callback, proc_resp, is_response}

module _ {F : Type 0} (p : Aecpdu F) where
  -- A response whose sequence id no command in flight has changes nothing and is answered by -1 and the caller's notification id.
  pub proc_resp_unmatched :
      (nid : ℕ) (f : F) (m : Aecp F)
      → find_if (seq_id_comp (p.sequence_id f)) m.inflight_cmds ≡ none
      → proc_resp p nid f m ≡ (m, nid, false)
  unfolding proc_resp
  proc_resp_unmatched nid f m e = rw e refl

  pub proc_resp_matched :
      (nid : ℕ) (f : F) (m : Aecp F) (c : Inflight F)
      → find_if (seq_id_comp (p.sequence_id f)) m.inflight_cmds ≡ some c
      → proc_resp p nid f m ≡ (
        record (callback p c.cmd_notification_id c.cmd_notification_flag f m) {
          inflight_cmds = erase_first (seq_id_comp (p.sequence_id f)) m.inflight_cmds;
        },
        c.cmd_notification_id,
        true,
      )
  unfolding proc_resp
  proc_resp_matched nid f m c e = rw (e, callback-inflight_cmds) refl

  -- A response to the first command c in flight with its sequence id is answered by 1 and the notification id of c; it removes c, so that with distinct ids no command with that id is in flight, sends nothing, and posts one RESPONSE_RECEIVED notification with the id of c exactly when c was sent with a notification and the message is a response.
  pub proc_resp_completes :
      (nid : ℕ) (f : F) (m : Aecp F) (c : Inflight F)
      → Inv p m
      → find_if (seq_id_comp (p.sequence_id f)) m.inflight_cmds ≡ some c
      → let (m', id, found) = proc_resp p nid f m in
        (found ≡ true)
        × (id ≡ c.cmd_notification_id)
        × (m'.inflight_cmds ≡ erase_first (seq_id_comp (p.sequence_id f)) m.inflight_cmds)
        × Absent (p.sequence_id f) m'.inflight_cmds
        × (m'.aecp_seq_id ≡ m.aecp_seq_id)
        × (m'.active_operations ≡ m.active_operations)
        × (sent_frames m'.out ≡ sent_frames m.out)
        × (posted m'.out ≡ (
            if (c.cmd_notification_flag == cmd_with_notification) && is_response (p.message_type f)
            then report p c.cmd_notification_id c.cmd_notification_flag f m ∷ posted m.out
            else posted m.out))
  proc_resp_completes nid f m c h e = rw (proc_resp_matched nid f m c e) (
    refl,
    refl,
    refl,
    Absent-erase_first_self (p.sequence_id f) m.inflight_cmds h.distinct,
    callback-aecp_seq_id p c.cmd_notification_id c.cmd_notification_flag f m,
    callback-active_operations p c.cmd_notification_id c.cmd_notification_flag f m,
    sent_frames-callback p c.cmd_notification_id c.cmd_notification_flag f m,
    posted-callback p c.cmd_notification_id c.cmd_notification_flag f m,
  )
