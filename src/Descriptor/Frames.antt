-- ===== src/Descriptor/Frames.antt =====
-- What the descriptor classes share: the frame that a send method builds and queues, and how a
-- response is read and handed to its state machine. The JDKSAVDECC constants and the reads and
-- writes of frames are the library jdksavdecc-c's.
use avdecc_lib.Prelude.{ℕ, ◌+◌, ◌-◌, ◌/◌, ◌%◌, Bool, true, false, List, if◌then◌else◌, ◌==◌}
use avdecc_lib.Output.{LogLevel, error, cmd_with_notification}
use avdecc_lib.Aecp.Pdu.{Aecpdu}
use avdecc_lib.Aecp.Machine.{Aecp, update_inflight_for_rcvd_resp}
use avdecc_lib.Acmp.Machine.{Acmp, Acmpdu, state_resp}

-- Which JDKSAVDECC_AEM_COMMAND constant a command type equals, as far as proc_rcvd_aem_resp asks.
pub data Command : Type 0 where
  acquire_entity lock_entity entity_available read_descriptor : Command
  set_stream_format get_stream_format set_stream_info get_stream_info : Command
  set_name get_name set_sampling_rate get_sampling_rate : Command
  set_clock_source get_clock_source start_streaming stop_streaming : Command
  reboot start_operation operation_status set_control other_command : Command

-- The ACMP messages, as responses and as commands.
pub data AcmpMessage : Type 0 where
  get_tx_state connect_rx disconnect_rx get_rx_state get_tx_connection other_message : AcmpMessage

pub record Reader (F : Type 0) : Type 0 where
  pub command : ℕ → Command
  pub acmp_response : ℕ → AcmpMessage
  -- jdksavdecc_aem_command_<command>[_response]_get_descriptor_type and _index.
  pub descriptor_type : Command → F → ℕ
  pub descriptor_index : Command → F → ℕ
  -- Whether what jdksavdecc_aem_command_<command>_response_read, or jdksavdecc_acmpdu_read, returns
  -- is not negative. A read that fails leaves the structure as it was.
  pub is_read : Command → F → Bool
  pub is_acmpdu_read : F → Bool
  pub talker_unique_id : F → ℕ
  pub listener_unique_id : F → ℕ
  -- Fields of the responses that are read.
  pub stream_format : F → ℕ
  pub sampling_rate : F → ℕ
  pub clock_source_index : F → ℕ
  pub operation_id : F → ℕ
  pub operation_type : F → ℕ
  pub percent_complete : F → ℕ
  pub tlv_count : F → ℕ

-- What a proc method leaves: the object, the state machine, the out-parameters, and whether it
-- posts no log line. It posts one of level error when it returns -1, and where it is not
-- implemented; no caller uses what it returns.
pub record Reply (O M : Type 0) : Type 0 where
  pub object : O
  pub machine : M
  pub notification_id : ℕ
  pub status : ℕ
  pub is_ok : Bool

-- A proc method that a class does not override or does not implement: it only logs.
unfoldable pub not_overridden : {F O M : Type 0} → ℕ → ℕ → F → O → M → Reply O M
not_overridden notification_id status frame o m = record {
  object = o;
  machine = m;
  notification_id = notification_id;
  status = status;
  is_ok = false;
}

module _ {F : Type 0} (p : Aecpdu F) (g : Reader F) {O : Type 0} where
  -- The body of the AECP proc methods; `keep` stores what is read and updates the object.
  unfoldable pub proc_resp : Command → (F → O → O) → ℕ → ℕ → F → O → Aecp F → Reply O (Aecp F)
  proc_resp c keep notification_id status frame o m =
      if g.is_read c frame
      then (let u_field = p.command_type frame / 32768 % 2 == 1 in
          let (m1, id, _) =
            update_inflight_for_rcvd_resp p notification_id (p.message_type frame) u_field frame
              m in
          record {
            object = keep frame o;
            machine = m1;
            notification_id = id;
            status = p.status frame;
            is_ok = true;
          })
      else record {
        object = o;
        machine = m;
        notification_id = notification_id;
        status = status;
        is_ok = false;
      }

module _ {F : Type 0} (q : Acmpdu F) (g : Reader F) {O : Type 0} where
  -- The body of the ACMP proc methods.
  unfoldable pub proc_acmp_resp : (F → O → O) → ℕ → ℕ → F → O → Acmp F → Reply O (Acmp F)
  proc_acmp_resp keep notification_id status frame o m =
      if g.is_acmpdu_read frame
      then (let (m1, id, _) = state_resp q notification_id frame m in
          record {
            object = keep frame o;
            machine = m1;
            notification_id = id;
            status = q.status frame;
            is_ok = true;
          })
      else record {
        object = o;
        machine = m;
        notification_id = notification_id;
        status = status;
        is_ok = false;
      }

-- The data of an AEM command, as the structure that is written has it; `arguments` are the fields
-- that follow the descriptor, other than those that are zero.
pub record AemData : Type 0 where
  pub controller_entity_id : ℕ
  pub command : Command
  pub descriptor_type : ℕ
  pub descriptor_index : ℕ
  pub arguments : List ℕ

pub record AcmpData : Type 0 where
  pub controller_entity_id : ℕ
  pub talker_entity_id : ℕ
  pub listener_entity_id : ℕ
  pub talker_unique_id : ℕ
  pub listener_unique_id : ℕ
  pub flags : ℕ

-- A frame: cmd_frame.length with what ether_frame_init, the write and common_hdr_init put in.
pub data CommandFrame : Type 0 where
  -- mac, length, data, target entity id, control data length.
  aem_frame : ℕ → ℕ → AemData → ℕ → ℕ → CommandFrame
  acmp_frame : AcmpMessage → AcmpData → CommandFrame

-- The end station that owns the descriptor: base_end_station_imp_ref and its adp object; the entity
-- id that its entity descriptor holds. Lengths of jdksavdecc-c, and whether its writes succeed.
pub record Owner : Type 0 where
  pub mac : ℕ
  pub entity_id : ℕ
  pub controller_entity_id : ℕ
  pub entity_desc_entity_id : ℕ
  pub command_len : Command → ℕ
  pub common_control_header_len : ℕ
  pub is_written : AemData → Bool
  pub is_acmpdu_written : AcmpData → Bool

-- What a send method does: system_queue_tx with a notification id and flag, or a log line. It
-- returns 0 when it queues a frame, -1 when a write fails, and 0 where it is not implemented.
pub data Sent : Type 0 where
  system_queue_tx : ℕ → ℕ → CommandFrame → Sent
  failed_write : LogLevel → Sent
  not_implemented : LogLevel → Sent

-- ETHER_HDR_SIZE.
abbrev pub ether_hdr_size : ℕ
ether_hdr_size = 14

module _ (w : Owner) where
  -- The common end of the AECP send methods; `len` is the length given to ether_frame_init.
  unfoldable pub send_aem : ℕ → ℕ → AemData → Sent
  send_aem notification_id len d =
      if w.is_written d
      then system_queue_tx notification_id cmd_with_notification (
          aem_frame w.mac (ether_hdr_size + len) d w.entity_id
            (w.command_len d.command - w.common_control_header_len))
      else failed_write error

  unfoldable pub send_acmp : ℕ → AcmpMessage → AcmpData → Sent
  send_acmp notification_id message d =
      if w.is_acmpdu_written d
      then system_queue_tx notification_id cmd_with_notification (acmp_frame message d)
      else failed_write error

  abbrev pub aem_data : Command → ℕ → ℕ → List ℕ → AemData
  aem_data c desc_type desc_index arguments = record {
    controller_entity_id = w.controller_entity_id;
    command = c;
    descriptor_type = desc_type;
    descriptor_index = desc_index;
    arguments = arguments;
  }
