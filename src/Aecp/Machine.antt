-- ===== src/Aecp/Machine.antt =====
-- The state of the AECP controller state machine and its operations. Where the source reads the
-- clock the operation takes the reading `now`; where it calls another component a line is added to
-- the trace `out`. After a failed send the model goes on as a build without assertions does.
use avdecc_lib.Prelude.{
  ℕ, zero, suc, ◌+◌, ◌%◌, Bool, true, false, ◌&&◌, ◌||◌, Option, none, some, List, [], ◌∷◌, ◌++◌,
  if◌then◌else◌, ◌==◌, u16, uint_max, length, get_elem?, erase_at, modify_at, find_if, erase_first,
  modify_first, any,
}
use avdecc_lib.Inflight.{
  Inflight, inflight, start_timer, poll, retried, seq_id_comp, notification_comp,
}
use avdecc_lib.Output.{
  Notification, Output, send_frame, post_notification_msg, post_log_msg, command_timeout,
  response_received, error, debug, cmd_with_notification, cmd_without_notification,
}
use avdecc_lib.Aecp.Pdu.{
  Aecpdu, MessageType, aem_command, aem_response, address_access_command, address_access_response,
  AemCommand, entity_available, controller_available, read_descriptor, unlisted,
}

-- controller/lib/src/operation.h.
pub record Operation (F : Type 0) : Type 0 where
  pub cmd_frame : F
  pub cmd_notification_flag : ℕ
  pub operation_id : ℕ
  pub operation_type : ℕ
  pub percent_complete : ℕ
  pub cmd_notification_id : ℕ

pub record Aecp (F : Type 0) : Type 0 where
  pub aecp_seq_id : ℕ
  pub inflight_cmds : List (Inflight F)
  pub active_operations : List (Operation F)
  pub out : List (Output F)

abbrev pub is_response : MessageType → Bool
is_response aem_response = true
is_response address_access_response = true
is_response _ = false

abbrev pub is_command : MessageType → Bool
is_command aem_command = true
is_command address_access_command = true
is_command _ = false

module _ {F : Type 0} where
  -- The constructor.
  abbrev pub new_aecp : Aecp F
  new_aecp = record { aecp_seq_id = 0; inflight_cmds = []; active_operations = []; out = [] }

  abbrev pub operation_id_comp : ℕ → Operation F → Bool
  operation_id_comp v m = m.operation_id == v

  abbrev pub operation_notification_comp : ℕ → Operation F → Bool
  operation_notification_comp v m = m.cmd_notification_id == v

  abbrev pub emit : Output F → Aecp F → Aecp F
  emit e m = record m { out = e ∷ m.out }

module _ {F : Type 0} (p : Aecpdu F) where
  -- The switch on the command type: the descriptor type and index of the frame, and whether the
  -- default case logs that the command has no match.
  unfoldable pub callback_descriptor : AemCommand → F → ℕ × ℕ × Bool
  callback_descriptor entity_available frame = (0, 0, false)
  callback_descriptor controller_available frame = (0, 0, false)
  callback_descriptor unlisted frame = (0, 0, true)
  callback_descriptor c frame = (p.descriptor_type c frame, p.descriptor_index c frame, false)

  abbrev aem_type : F → ℕ
  aem_type frame = p.command_type frame % 32768

  abbrev success : F → Bool
  success frame = p.status frame == 0

  unfoldable pub callback : ℕ → ℕ → F → Aecp F → Aecp F
  callback notification_id notification_flag frame m =
      let cmd_type = aem_type frame in
      let (desc_type, desc_index, no_match) = callback_descriptor (p.command cmd_type) frame in
      let msg_type = p.message_type frame in
      let m1 = if no_match then emit (post_log_msg debug) m else m in
      let notification : Notification = record {
        notification_type = response_received;
        entity_id = p.stream_id frame;
        cmd_type = cmd_type;
        desc_type = desc_type;
        desc_index = desc_index;
        cmd_status = p.status frame;
        notification_id = notification_id;
      } in
      if (notification_flag == cmd_with_notification) && is_response msg_type
      then (let m2 = emit (post_notification_msg notification) m1 in
          if success frame then m2 else emit (post_log_msg error) m2)
      else if ((notification_flag == cmd_with_notification)
            || (notification_flag == cmd_without_notification))
          && is_command msg_type
      then emit (post_log_msg debug) m1
      else if (notification_flag == cmd_without_notification) && is_response msg_type
      then (if success frame then emit (post_log_msg debug) m1 else emit (post_log_msg error) m1)
      else m1

  -- The end of `tx_cmd`, common to a first transmission and a repeated one.
  unfoldable pub transmit : ℕ → ℕ → F → Aecp F → Aecp F
  transmit notification_id notification_flag frame m =
      let m1 = emit (send_frame frame) m in
      let m2 = if p.is_sent frame then m1 else emit (post_log_msg error) m1 in
      callback notification_id notification_flag frame m2

  -- AVDECC_MSG_TIMEOUT_MS.
  abbrev pub avdecc_msg_timeout_ms : ℕ
  avdecc_msg_timeout_ms = 250

  abbrev pub queue_inflight : ℕ → ℕ → ℕ → F → Aecp F → Aecp F
  queue_inflight now notification_id notification_flag frame m = record m {
    aecp_seq_id = u16 (m.aecp_seq_id + 1);
    inflight_cmds =
        m.inflight_cmds
        ++ start_timer now
            (inflight frame m.aecp_seq_id notification_id notification_flag avdecc_msg_timeout_ms)
          ∷ [];
  }

  abbrev pub restart_inflight : ℕ → F → Aecp F → Aecp F
  restart_inflight now frame m = record m {
    inflight_cmds =
        modify_first (seq_id_comp (p.sequence_id frame)) (start_timer now) m.inflight_cmds;
  }

  -- The last argument is `resend`.
  unfoldable pub tx_cmd : ℕ → ℕ → ℕ → F → Bool → Aecp F → Aecp F
  tx_cmd now notification_id notification_flag cmd_frame false m =
      let frame = p.set_sequence_id m.aecp_seq_id cmd_frame in
      transmit notification_id notification_flag frame
        (queue_inflight now notification_id notification_flag frame m)
  tx_cmd now notification_id notification_flag cmd_frame true m =
      transmit notification_id notification_flag cmd_frame (restart_inflight now cmd_frame m)

  unfoldable pub state_send_cmd : ℕ → ℕ → ℕ → F → Aecp F → Aecp F
  state_send_cmd now notification_id notification_flag cmd_frame m =
      tx_cmd now notification_id notification_flag cmd_frame false m

  unfoldable pub proc_unsolicited : ℕ → F → Aecp F → Aecp F
  proc_unsolicited notification_id cmd_frame m = emit (post_log_msg debug) m

  proc_resp_found : ℕ → F → Option (Inflight F) → Aecp F → Aecp F × ℕ × Bool
  proc_resp_found notification_id cmd_frame none m = (m, notification_id, false)
  proc_resp_found notification_id cmd_frame (some j) m =
      let m1 = callback j.cmd_notification_id j.cmd_notification_flag cmd_frame m in
      let seq_id = p.sequence_id cmd_frame in
      (
        record m1 { inflight_cmds = erase_first (seq_id_comp seq_id) m1.inflight_cmds },
        j.cmd_notification_id,
        true,
      )

  -- The state, the notification id and whether the return value is 1; it is -1 otherwise.
  unfoldable pub proc_resp : ℕ → F → Aecp F → Aecp F × ℕ × Bool
  unfolding proc_resp_found
  proc_resp notification_id cmd_frame m =
      proc_resp_found notification_id cmd_frame
        (find_if (seq_id_comp (p.sequence_id cmd_frame)) m.inflight_cmds) m

  -- The state, the notification id and whether the return value is 0; it is -1 otherwise.
  unfoldable pub update_inflight_for_rcvd_resp :
      ℕ → MessageType → Bool → F → Aecp F → Aecp F × ℕ × Bool
  unfolding proc_unsolicited
  update_inflight_for_rcvd_resp notification_id msg_type u_field cmd_frame m =
      if is_response msg_type
      then (let m1 = if u_field then proc_unsolicited notification_id cmd_frame m else m in
          let (m2, id, _) = proc_resp notification_id cmd_frame m1 in (m2, id, true))
      else (emit (post_log_msg error) m, notification_id, false)

  timeout_notification : Inflight F → Notification
  timeout_notification c = record {
    notification_type = command_timeout;
    entity_id = p.stream_id c.cmd_frame;
    cmd_type = aem_type c.cmd_frame;
    desc_type = p.descriptor_type read_descriptor c.cmd_frame;
    desc_index = p.descriptor_index read_descriptor c.cmd_frame;
    cmd_status = uint_max;
    notification_id = c.cmd_notification_id;
  }

  -- The branch of `state_timeout` for a command that was repeated before.
  unfoldable pub give_up : ℕ → Inflight F → Aecp F → Aecp F
  unfolding timeout_notification
  give_up i c m =
      let m1 =
        emit (post_log_msg error) (emit (post_notification_msg (timeout_notification c)) m) in
      record m1 { inflight_cmds = erase_at m1.inflight_cmds i }

  -- The other branch.
  unfoldable pub resend : ℕ → Inflight F → Aecp F → Aecp F
  resend now c m =
      tx_cmd now c.cmd_notification_id c.cmd_notification_flag c.cmd_frame true
        (emit (post_log_msg debug) m)

  -- The index is in range at the one call, in `tick`; out of range `at` would throw.
  unfoldable pub state_timeout : ℕ → ℕ → Aecp F → Aecp F
  state_timeout now i m = elim (get_elem? m.inflight_cmds i) [
    | none ↦ m
    | some c ↦ if retried c then give_up i c m else resend now c m
  ]

  abbrev pub poll_inflight : ℕ → ℕ → Aecp F → Aecp F
  poll_inflight now i m = record m { inflight_cmds = modify_at m.inflight_cmds i (poll now) }

  -- The body of the loop of `tick`.
  unfoldable pub tick_at : ℕ → ℕ → Aecp F → Aecp F
  tick_at now i m =
      let m1 = poll_inflight now i m in
      elim (get_elem? m1.inflight_cmds i) [
        | none ↦ m1
        | some c ↦ if c.cmd_timer.elapsed then state_timeout now i m1 else m1
      ]

  -- The loop runs while `i` is below the current size.
  unfoldable pub tick_loop : ℕ → ℕ → ℕ → Aecp F → Aecp F
  tick_loop zero now i m = m
  tick_loop (suc rounds) now i m = elim (get_elem? m.inflight_cmds i) [
    | none ↦ m
    | some _ ↦ tick_loop rounds now (i + 1) (tick_at now i m)
  ]

  unfoldable pub tick : ℕ → Aecp F → Aecp F
  tick now m = tick_loop (length m.inflight_cmds) now 0 m

  unfoldable pub is_inflight_cmd_with_notification_id : ℕ → Aecp F → Bool
  is_inflight_cmd_with_notification_id id m = any (notification_comp id) m.inflight_cmds

  unfoldable pub start_operation : ℕ → ℕ → ℕ → F → Aecp F → Aecp F
  start_operation notification_id operation_id operation_type frame m =
      let oper : Operation F = record {
        cmd_frame = frame;
        cmd_notification_flag = cmd_with_notification;
        operation_id = operation_id;
        operation_type = operation_type;
        percent_complete = 0;
        cmd_notification_id = notification_id;
      } in
      emit (post_log_msg debug) (record m { active_operations = m.active_operations ++ oper ∷ [] })

  operation_found : ℕ → ℕ → ℕ → F → Option (Operation F) → Aecp F → Aecp F × ℕ × Bool
  operation_found notification_id operation_id percent_complete cmd_frame none m =
      (m, notification_id, false)
  operation_found notification_id operation_id percent_complete cmd_frame (some j) m =
      let m1 = callback j.cmd_notification_id j.cmd_notification_flag cmd_frame m in
      (
        if (percent_complete == 0) || (percent_complete == 1000)
            then (let m2 = emit (post_log_msg debug) m1 in
                record m2 {
                  active_operations =
                      erase_first (operation_id_comp operation_id) m2.active_operations;
                })
            else m1,
        j.cmd_notification_id,
        true,
      )

  unfoldable pub update_operation_for_rcvd_resp : ℕ → ℕ → ℕ → F → Aecp F → Aecp F × ℕ × Bool
  unfolding operation_found
  update_operation_for_rcvd_resp notification_id operation_id percent_complete cmd_frame m =
      operation_found notification_id operation_id percent_complete cmd_frame
        (find_if (operation_id_comp operation_id) m.active_operations) m

  unfoldable pub is_active_operation_with_notification_id : ℕ → Aecp F → Bool
  is_active_operation_with_notification_id id m =
      any (operation_notification_comp id) m.active_operations
