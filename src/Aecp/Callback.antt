-- ===== src/Aecp/Callback.antt =====
-- `callback`: it only adds to the trace, no frame among it, and one notification exactly for a
-- response to a command that wanted one.
use avdecc_lib.Prelude.{ℕ, ◌≡◌, ◌&&◌, ◌∷◌, arith, if◌then◌else◌, ◌==◌, ◌%◌}
use avdecc_lib.Output.{Notification, response_received, cmd_with_notification, sent_frames, posted}
use avdecc_lib.Aecp.Pdu.{Aecpdu}
use avdecc_lib.Aecp.Machine.{Aecp, callback, callback_descriptor, is_response}

module _ {F : Type 0} (p : Aecpdu F) (id flag : ℕ) (f : F) (m : Aecp F) where
  pub callback-inflight_cmds : (callback p id flag f m).inflight_cmds ≡ m.inflight_cmds
  unfolding callback
  callback-inflight_cmds = ground arith

  pub callback-aecp_seq_id : (callback p id flag f m).aecp_seq_id ≡ m.aecp_seq_id
  unfolding callback
  callback-aecp_seq_id = ground arith

  pub callback-active_operations : (callback p id flag f m).active_operations ≡ m.active_operations
  unfolding callback
  callback-active_operations = ground arith

  pub sent_frames-callback : sent_frames (callback p id flag f m).out ≡ sent_frames m.out
  unfolding callback
  sent_frames-callback = ground arith

  -- The notification that a response is reported by.
  abbrev pub report : Notification
  report =
      let cmd_type = p.command_type f % 32768 in
      record {
        notification_type = response_received;
        entity_id = p.stream_id f;
        cmd_type = cmd_type;
        desc_type = (callback_descriptor p (p.command cmd_type) f).0;
        desc_index = (callback_descriptor p (p.command cmd_type) f).1;
        cmd_status = p.status f;
        notification_id = id;
      }

  pub posted-callback : posted (callback p id flag f m).out ≡ (
      if (flag == cmd_with_notification) && is_response (p.message_type f)
      then report ∷ posted m.out
      else posted m.out)
  unfolding callback
  posted-callback = ground arith
