-- ===== src/Descriptor/Station.antt =====
-- controller/lib/src/end_station_imp.cpp: the send methods of the end station itself. The JDKSAVDECC
-- constants, and whether a write succeeds, are parameters. A structure without descriptor fields has
-- zeros for them here.
use avdecc_lib.Prelude.{
  ℕ, ◌+◌, ◌-◌, ◌*◌, ◌/◌, ◌%◌, Bool, ◌&&◌, Option, none, some, List, [], ◌∷◌, if◌then◌else◌,
  get_elem?, leb, u16, u32,
}
use avdecc_lib.Output.{LogLevel, error, cmd_with_notification, cmd_without_notification}
use avdecc_lib.EndStation.Descriptors.{Descriptor, entity, configuration}
use avdecc_lib.Descriptor.Frames.{
  read_descriptor, entity_available, set_control, Owner, AemData, aem_data, ether_hdr_size,
}

-- jdksavdecc_aecp_aa with its one TLV.
pub record AaData : Type 0 where
  pub controller_entity_id : ℕ
  pub sequence_id : ℕ
  pub tlv_count : ℕ
  pub mode_length : ℕ
  pub address_upper : ℕ
  pub address_lower : ℕ

-- A frame: the destination, cmd_frame.length, what is written, the octets that are copied behind it,
-- the target entity id and the control data length.
pub data StationFrame : Type 0 where
  aem_frame : ℕ → ℕ → AemData → List ℕ → ℕ → ℕ → StationFrame
  aa_frame : ℕ → ℕ → AaData → List ℕ → ℕ → ℕ → StationFrame

-- What a method does, as for a descriptor: it queues a frame and returns 0, or logs and returns -1; or
-- it copies octets behind the end of a buffer, which C++ leaves undefined.
pub data Sent : Type 0 where
  system_queue_tx : ℕ → ℕ → StationFrame → Sent
  failed_write : LogLevel → Sent
  overrun : Sent

-- What the methods use of the end station besides its identity: current_configuration() of its
-- entity descriptors, and the identify control of its ADP information.
pub record Station : Type 0 where
  pub owner : Owner
  pub current_entity_desc : ℕ
  pub current_configurations : List ℕ
  pub identify_control_index : ℕ
  -- JDKSAVDECC_DESCRIPTOR_CONTROL, and the lengths of the two parts of an address access frame.
  pub descriptor_control : ℕ
  pub aa_len : ℕ
  pub aa_tlv_len : ℕ
  -- sizeof(cmd_frame.payload).
  pub payload_size : ℕ
  pub is_aa_written : AaData → Bool
  pub is_aa_tlv_written : AaData → Bool

module _ (kind : ℕ → Descriptor) (e : Station) where
  -- The end of the AEM methods; `extra` is copied behind the command.
  unfoldable pub send_station : ℕ → ℕ → AemData → List ℕ → ℕ → Sent
  send_station notification_id flag d extra len =
      if e.owner.is_written d
      then system_queue_tx notification_id flag (
          aem_frame e.owner.mac (ether_hdr_size + len) d extra e.owner.entity_id
            (len - e.owner.common_control_header_len))
      else failed_write error

  -- The configuration index: at() throws, here none, when there is no entity descriptor.
  abbrev pub read_configuration : ℕ → Option ℕ
  read_configuration desc_type = elim (kind desc_type) [
    | entity ↦ some 0
    | configuration ↦ some 0
    | _ ↦ get_elem? e.current_configurations e.current_entity_desc
  ]

  unfoldable pub send_read_desc_cmd_with_flag : ℕ → ℕ → ℕ → ℕ → Option Sent
  send_read_desc_cmd_with_flag notification_id flag desc_type desc_index =
      elim (read_configuration desc_type) [
        | none ↦ none
        | some i ↦ some (
            send_station notification_id flag
              (aem_data e.owner read_descriptor desc_type desc_index (i ∷ [])) []
              (e.owner.command_len read_descriptor))
      ]

  -- NULL is the notification id 0.
  abbrev pub read_desc_init : ℕ → ℕ → Option Sent
  read_desc_init desc_type desc_index =
      send_read_desc_cmd_with_flag 0 cmd_without_notification desc_type desc_index

  abbrev pub send_read_desc_cmd : ℕ → ℕ → ℕ → Option Sent
  send_read_desc_cmd notification_id desc_type desc_index =
      send_read_desc_cmd_with_flag notification_id cmd_with_notification desc_type desc_index

  abbrev pub send_entity_avail_cmd : ℕ → Sent
  send_entity_avail_cmd notification_id =
      send_station notification_id cmd_with_notification (aem_data e.owner entity_available 0 0 [])
        [] (e.owner.command_len entity_available)

  abbrev pub send_identify : ℕ → Bool → Sent
  send_identify notification_id turn_on =
      send_station notification_id cmd_with_notification
        (aem_data e.owner set_control e.descriptor_control e.identify_control_index [])
        ((if turn_on then 255 else 0) ∷ []) (e.owner.command_len set_control + 1)

  -- The TLV's fields, a uint16_t and two uint32_t.
  abbrev pub aa_data : ℕ → ℕ → ℕ → AaData
  aa_data mode length address = record {
    controller_entity_id = e.owner.controller_entity_id;
    sequence_id = 0;
    tlv_count = 1;
    mode_length = u16 (mode * 4096 + length % 4096);
    address_upper = u32 (address / 4294967296);
    address_lower = address % 4294967296;
  }

  -- system_queue_tx: queue_tx_frame of the system copies the frame into new uint8_t[2048].
  abbrev pub queue_frame : ℕ → ℕ → StationFrame → ℕ → Sent
  queue_frame notification_id flag frame len =
      if leb len 2048 then system_queue_tx notification_id flag frame else overrun

  -- `memory_data` is the octets that are copied, `length` many, without a test of the room for them.
  unfoldable pub send_aecp_address_access_cmd : ℕ → ℕ → ℕ → ℕ → List ℕ → Sent
  send_aecp_address_access_cmd notification_id mode length address memory_data =
      let d = aa_data mode length address in
      let len = e.aa_len + e.aa_tlv_len + length in
      if e.is_aa_written d && e.is_aa_tlv_written d
      then (if leb (ether_hdr_size + len) e.payload_size
          then queue_frame notification_id cmd_with_notification
              (aa_frame e.owner.mac (ether_hdr_size + len) d memory_data e.owner.entity_id
                (len - e.owner.common_control_header_len))
              (ether_hdr_size + len)
          else overrun)
      else failed_write error
