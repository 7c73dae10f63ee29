-- ===== src/Aecp/Pdu.antt =====
-- What the AECP state machine reads and writes in a frame. The accessors come from the library
-- jdksavdecc-c, and net_interface_imp::send_frame from the operating system: both are parameters.
use avdecc_lib.Prelude.{ℕ, ◌<◌, ◌≡◌, Bool}

-- Which JDKSAVDECC_AECP_MESSAGE_TYPE constant a message type equals.
pub data MessageType : Type 0 where
  aem_command aem_response address_access_command address_access_response : MessageType
  other_message : MessageType

-- Which JDKSAVDECC_AEM_COMMAND constant among those that `callback` lists a command type equals.
pub data AemCommand : Type 0 where
  acquire_entity lock_entity entity_available controller_available read_descriptor : AemCommand
  set_stream_format get_stream_format set_stream_info get_stream_info : AemCommand
  set_name get_name set_sampling_rate get_sampling_rate : AemCommand
  set_clock_source get_clock_source start_streaming stop_streaming : AemCommand
  unlisted : AemCommand

pub record Aecpdu (F : Type 0) : Type 0 where
  -- jdksavdecc_common_control_header_get_control_data, _get_status and _get_stream_id.
  pub message_type : F → MessageType
  pub status : F → ℕ
  pub stream_id : F → ℕ
  -- jdksavdecc_aecpdu_aem_get_command_type, with the u bit.
  pub command_type : F → ℕ
  pub command : ℕ → AemCommand
  -- jdksavdecc_aecpdu_common_get_sequence_id and _set_sequence_id.
  pub sequence_id : F → ℕ
  pub set_sequence_id : ℕ → F → F
  -- jdksavdecc_aem_command_<command>[_response]_get_descriptor_type and _index.
  pub descriptor_type : AemCommand → F → ℕ
  pub descriptor_index : AemCommand → F → ℕ
  -- Whether send_frame returns a number that is not negative.
  pub is_sent : F → Bool

-- The sequence id is a 16-bit field.
pub record IsAecpdu {F : Type 0} (p : Aecpdu F) : Type 0 where
  pub sequence_id-set_sequence_id :
      (n : ℕ) (f : F) → n < 65536 → p.sequence_id (p.set_sequence_id n f) ≡ n
