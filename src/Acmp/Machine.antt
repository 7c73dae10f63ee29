-- ===== src/Acmp/Machine.antt =====
-- The state of the ACMP controller state machine and its operations, and the table of time-outs of
-- util_imp.cpp that it uses. The clock reading of a call is the argument `now`; after a failed
-- send the model goes on as a build without assertions does.
use avdecc_lib.Prelude.{
  ℕ, zero, suc, ◌+◌, Bool, true, false, Option, none, some, List, [], ◌∷◌, ◌++◌, if◌then◌else◌,
  ◌==◌, u16, uint_max, length, get_elem?, erase_at, modify_at, find_if, erase_first, modify_first,
  any,
}
use avdecc_lib.Inflight.{
  Inflight, inflight, start_timer, poll, retried, seq_id_comp, notification_comp,
}
use avdecc_lib.Output.{
  Notification, Output, send_frame, post_notification_msg, post_log_msg, response_received, error,
  debug, cmd_with_notification, cmd_lookup,
}

-- Which of the JDKSAVDECC_ACMP_MESSAGE_TYPE constants a message type equals, as far as `callback`
-- asks: the two talker responses, the three listener responses, or none of these.
pub data MessageClass : Type 0 where
  talker_response listener_response unlisted : MessageClass

-- The frame accessors of jdksavdecc-c, and net_interface_imp::send_frame.
pub record Acmpdu (F : Type 0) : Type 0 where
  pub message_type : F → ℕ
  pub class : ℕ → MessageClass
  pub status : F → ℕ
  pub talker_entity_id : F → ℕ
  pub listener_entity_id : F → ℕ
  pub sequence_id : F → ℕ
  pub set_sequence_id : ℕ → F → F
  -- Whether send_frame returns a number that is not negative.
  pub is_sent : F → Bool

pub record Acmp (F : Type 0) : Type 0 where
  pub acmp_seq_id : ℕ
  pub inflight_cmds : List (Inflight F)
  pub out : List (Output F)

-- acmp_command_and_timeout_table, without its last row; the commands are 0, 2, 4 and so on.
abbrev pub acmp_command_and_timeout_table : List (ℕ × ℕ)
acmp_command_and_timeout_table =
    (0, 2000) ∷ (2, 200) ∷ (4, 200) ∷ (6, 4500) ∷ (8, 500) ∷ (10, 200) ∷ (12, 200) ∷ []

-- The loop of `acmp_cmd_to_timeout`.
unfoldable pub timeout_in : ℕ → List (ℕ × ℕ) → ℕ
timeout_in cmd [] = 65535
timeout_in cmd (row ∷ rows) = if row.0 == cmd then row.1 else timeout_in cmd rows

abbrev pub acmp_cmd_to_timeout : ℕ → ℕ
acmp_cmd_to_timeout cmd = timeout_in cmd acmp_command_and_timeout_table

module _ {F : Type 0} where
  -- The constructor.
  abbrev pub new_acmp : Acmp F
  new_acmp = record { acmp_seq_id = 0; inflight_cmds = []; out = [] }

  abbrev pub emit : Output F → Acmp F → Acmp F
  emit e m = record m { out = e ∷ m.out }

module _ {F : Type 0} (p : Acmpdu F) where
  -- A RESPONSE_RECEIVED notification; (uint16_t)msg_type + CMD_LOOKUP is stored as uint16_t.
  abbrev pub response : ℕ → ℕ → ℕ → ℕ → Notification
  response entity_id msg_type status notification_id = record {
    notification_type = response_received;
    entity_id = entity_id;
    cmd_type = u16 (u16 msg_type + cmd_lookup);
    desc_type = 0;
    desc_index = 0;
    cmd_status = status;
    notification_id = notification_id;
  }

  -- The branches for a response that wants a notification.
  unfoldable pub respond : ℕ → ℕ → F → Acmp F → Acmp F
  respond entity_id notification_id frame m =
      let m1 =
        emit
          (post_notification_msg
            (response entity_id (p.message_type frame) (p.status frame) notification_id))
          m in
      if p.status frame == 0 then m1 else emit (post_log_msg error) m1

  unfoldable pub callback_class : MessageClass → ℕ → Bool → F → Acmp F → Acmp F
  callback_class talker_response notification_id true frame m =
      respond (p.talker_entity_id frame) notification_id frame m
  callback_class listener_response notification_id true frame m =
      respond (p.listener_entity_id frame) notification_id frame m
  callback_class _ notification_id _ frame m = emit (post_log_msg debug) m

  unfoldable pub callback : ℕ → ℕ → F → Acmp F → Acmp F
  callback notification_id notification_flag frame m =
      callback_class (p.class (p.message_type frame)) notification_id
        (notification_flag == cmd_with_notification) frame m

  -- The end of `tx_cmd`, common to a first transmission and a repeated one.
  unfoldable pub transmit : ℕ → ℕ → F → Acmp F → Acmp F
  transmit notification_id notification_flag frame m =
      let m1 = emit (send_frame frame) m in
      let m2 = if p.is_sent frame then m1 else emit (post_log_msg error) m1 in
      callback notification_id notification_flag frame m2

  abbrev pub queue_inflight : ℕ → ℕ → ℕ → ℕ → F → Acmp F → Acmp F
  queue_inflight now notification_id notification_flag timeout_ms frame m = record m {
    acmp_seq_id = u16 (m.acmp_seq_id + 1);
    inflight_cmds =
        m.inflight_cmds
        ++ start_timer now
            (inflight frame m.acmp_seq_id notification_id notification_flag timeout_ms)
          ∷ [];
  }

  abbrev pub restart_inflight : ℕ → F → Acmp F → Acmp F
  restart_inflight now frame m = record m {
    inflight_cmds =
        modify_first (seq_id_comp (p.sequence_id frame)) (start_timer now) m.inflight_cmds;
  }

  -- The last argument is `resend`.
  unfoldable pub tx_cmd : ℕ → ℕ → ℕ → F → Bool → Acmp F → Acmp F
  tx_cmd now notification_id notification_flag cmd_frame false m =
      let timeout_ms = acmp_cmd_to_timeout (p.message_type cmd_frame) in
      let frame = p.set_sequence_id m.acmp_seq_id cmd_frame in
      transmit notification_id notification_flag frame
        (queue_inflight now notification_id notification_flag timeout_ms frame m)
  tx_cmd now notification_id notification_flag cmd_frame true m =
      transmit notification_id notification_flag cmd_frame (restart_inflight now cmd_frame m)

  unfoldable pub state_command : ℕ → ℕ → ℕ → F → Acmp F → Acmp F
  state_command now notification_id notification_flag cmd_frame m =
      tx_cmd now notification_id notification_flag cmd_frame false m

  proc_resp_found : ℕ → F → Option (Inflight F) → Acmp F → Acmp F × ℕ × Bool
  proc_resp_found notification_id cmd_frame none m = (m, notification_id, false)
  proc_resp_found notification_id cmd_frame (some j) m =
      let m1 = callback j.cmd_notification_id j.cmd_notification_flag cmd_frame m in
      (
        record m1 {
          inflight_cmds = erase_first (seq_id_comp (p.sequence_id cmd_frame)) m1.inflight_cmds;
        },
        j.cmd_notification_id,
        true,
      )

  -- The state, the notification id and whether the return value is 1; it is -1 otherwise.
  unfoldable pub proc_resp : ℕ → F → Acmp F → Acmp F × ℕ × Bool
  unfolding proc_resp_found
  proc_resp notification_id cmd_frame m =
      proc_resp_found notification_id cmd_frame
        (find_if (seq_id_comp (p.sequence_id cmd_frame)) m.inflight_cmds) m

  unfoldable pub state_resp : ℕ → F → Acmp F → Acmp F × ℕ × Bool
  state_resp notification_id cmd_frame m = proc_resp notification_id cmd_frame m

  -- The branch of `state_timeout` for a command that was repeated before.
  unfoldable pub give_up : ℕ → Inflight F → Acmp F → Acmp F
  give_up i c m =
      let m1 = emit (post_log_msg error) (
        emit
          (post_notification_msg (
            response (p.listener_entity_id c.cmd_frame) (p.message_type c.cmd_frame) uint_max
              c.cmd_notification_id))
          m) in
      record m1 { inflight_cmds = erase_at m1.inflight_cmds i }

  -- The other branch.
  unfoldable pub resend : ℕ → Inflight F → Acmp F → Acmp F
  resend now c m =
      tx_cmd now c.cmd_notification_id c.cmd_notification_flag c.cmd_frame true
        (emit (post_log_msg debug) m)

  -- The index is in range at the one call, in `tick`; out of range `at` would throw.
  unfoldable pub state_timeout : ℕ → ℕ → Acmp F → Acmp F
  state_timeout now i m = elim (get_elem? m.inflight_cmds i) [
    | none ↦ m
    | some c ↦ if retried c then give_up i c m else resend now c m
  ]

  abbrev pub poll_inflight : ℕ → ℕ → Acmp F → Acmp F
  poll_inflight now i m = record m { inflight_cmds = modify_at m.inflight_cmds i (poll now) }

  -- The body of the loop of `tick`.
  unfoldable pub tick_at : ℕ → ℕ → Acmp F → Acmp F
  tick_at now i m =
      let m1 = poll_inflight now i m in
      elim (get_elem? m1.inflight_cmds i) [
        | none ↦ m1
        | some c ↦ if c.cmd_timer.elapsed then state_timeout now i m1 else m1
      ]

  -- The loop runs while `i` is below the current size.
  unfoldable pub tick_loop : ℕ → ℕ → ℕ → Acmp F → Acmp F
  tick_loop zero now i m = m
  tick_loop (suc rounds) now i m = elim (get_elem? m.inflight_cmds i) [
    | none ↦ m
    | some _ ↦ tick_loop rounds now (i + 1) (tick_at now i m)
  ]

  unfoldable pub tick : ℕ → Acmp F → Acmp F
  tick now m = tick_loop (length m.inflight_cmds) now 0 m

  unfoldable pub is_inflight_cmd_with_notification_id : ℕ → Acmp F → Bool
  is_inflight_cmd_with_notification_id id m = any (notification_comp id) m.inflight_cmds
