-- ===== src/Descriptor/StreamOutput.antt =====
-- controller/lib/src/stream_output_descriptor_imp.{h,cpp}: the object of a STREAM_OUTPUT descriptor.
use avdecc_lib.Output.{error, cmd_with_notification}
use avdecc_lib.Prelude.{ℕ, ◌+◌, ◌-◌, Option, none, some, [], ◌∷◌, if◌then◌else◌, ◌==◌}
use avdecc_lib.Aecp.Pdu.{Aecpdu}
use avdecc_lib.Aecp.Machine.{Aecp}
use avdecc_lib.Acmp.Machine.{Acmp, Acmpdu}
use avdecc_lib.Descriptor.Frames.{
  set_stream_format, get_stream_format, set_stream_info, get_stream_info, start_streaming,
  stop_streaming, get_tx_state, get_tx_connection, Reader, Reply, proc_resp, proc_acmp_resp, Owner,
  Sent, system_queue_tx, failed_write, aem_frame, ether_hdr_size, send_aem, send_acmp, aem_data,
}

-- The descriptor, as far as it is compared or changed, and the responses.
pub record StreamOutput (F : Type 0) : Type 0 where
  pub descriptor_index : ℕ
  pub current_format : ℕ
  pub aem_cmd_set_stream_format_resp : Option F
  pub aem_cmd_get_stream_format_resp : Option F
  pub aem_cmd_set_stream_info_resp : Option F
  pub aem_cmd_get_stream_info_resp : Option F
  pub acmp_cmd_get_tx_state_resp : Option F
  pub acmp_cmd_get_tx_connection_resp : Option F

-- The constructor, after a descriptor that can be read; the responses are zero.
unfoldable pub new_stream_output : {F : Type 0} → ℕ → ℕ → StreamOutput F
new_stream_output descriptor_index current_format = record {
  descriptor_index = descriptor_index;
  current_format = current_format;
  aem_cmd_set_stream_format_resp = none;
  aem_cmd_get_stream_format_resp = none;
  aem_cmd_set_stream_info_resp = none;
  aem_cmd_get_stream_info_resp = none;
  acmp_cmd_get_tx_state_resp = none;
  acmp_cmd_get_tx_connection_resp = none;
}

unfoldable pub update_stream_format : {F : Type 0} → ℕ → StreamOutput F → StreamOutput F
update_stream_format stream_format o = record o { current_format = stream_format }

module _ {F : Type 0} (p : Aecpdu F) (g : Reader F) where
  unfoldable pub proc_set_stream_format_resp :
      ℕ → ℕ → F → StreamOutput F → Aecp F → Reply (StreamOutput F) (Aecp F)
  proc_set_stream_format_resp = proc_resp p g set_stream_format (λ frame o.
      let o1 = record o { aem_cmd_set_stream_format_resp = some frame } in
      if p.status frame == 0 then update_stream_format (g.stream_format frame) o1 else o1)

  unfoldable pub proc_get_stream_format_resp :
      ℕ → ℕ → F → StreamOutput F → Aecp F → Reply (StreamOutput F) (Aecp F)
  proc_get_stream_format_resp =
      proc_resp p g get_stream_format
        (λ frame o. record o { aem_cmd_get_stream_format_resp = some frame })

  unfoldable pub proc_set_stream_info_resp :
      ℕ → ℕ → F → StreamOutput F → Aecp F → Reply (StreamOutput F) (Aecp F)
  proc_set_stream_info_resp =
      proc_resp p g set_stream_info
        (λ frame o. record o { aem_cmd_set_stream_info_resp = some frame })

  unfoldable pub proc_get_stream_info_resp :
      ℕ → ℕ → F → StreamOutput F → Aecp F → Reply (StreamOutput F) (Aecp F)
  proc_get_stream_info_resp =
      proc_resp p g get_stream_info
        (λ frame o. record o { aem_cmd_get_stream_info_resp = some frame })

  unfoldable pub proc_start_streaming_resp :
      ℕ → ℕ → F → StreamOutput F → Aecp F → Reply (StreamOutput F) (Aecp F)
  proc_start_streaming_resp = proc_resp p g start_streaming (λ frame o. o)

  unfoldable pub proc_stop_streaming_resp :
      ℕ → ℕ → F → StreamOutput F → Aecp F → Reply (StreamOutput F) (Aecp F)
  proc_stop_streaming_resp = proc_resp p g stop_streaming (λ frame o. o)

module _ {F : Type 0} (q : Acmpdu F) (g : Reader F) where
  unfoldable pub proc_get_tx_state_resp :
      ℕ → ℕ → F → StreamOutput F → Acmp F → Reply (StreamOutput F) (Acmp F)
  proc_get_tx_state_resp =
      proc_acmp_resp q g (λ frame o. record o { acmp_cmd_get_tx_state_resp = some frame })

  unfoldable pub proc_get_tx_connection_resp :
      ℕ → ℕ → F → StreamOutput F → Acmp F → Reply (StreamOutput F) (Acmp F)
  proc_get_tx_connection_resp =
      proc_acmp_resp q g (λ frame o. record o { acmp_cmd_get_tx_connection_resp = some frame })

module _ {F : Type 0} (w : Owner) (desc_type : ℕ) (o : StreamOutput F) where
  -- The structure is that of SET_STREAM_FORMAT, with the command type and the frame length of
  -- GET_STREAM_FORMAT.
  unfoldable pub send_set_stream_format_cmd : ℕ → ℕ → Sent
  send_set_stream_format_cmd notification_id new_stream_format =
      let d = aem_data w get_stream_format desc_type o.descriptor_index (new_stream_format ∷ []) in
      if w.is_written d
      then system_queue_tx notification_id cmd_with_notification (
          aem_frame w.mac (ether_hdr_size + w.command_len get_stream_format) d w.entity_id
            (w.command_len set_stream_format - w.common_control_header_len))
      else failed_write error

  unfoldable pub send_get_stream_format_cmd : ℕ → Sent
  send_get_stream_format_cmd notification_id =
      send_aem w notification_id (w.command_len get_stream_format)
        (aem_data w get_stream_format desc_type o.descriptor_index [])

  -- The flags, 0x02000000, and the VLAN id.
  unfoldable pub send_set_stream_info_vlan_id_cmd : ℕ → ℕ → Sent
  send_set_stream_info_vlan_id_cmd notification_id vlan_id =
      send_aem w notification_id (w.command_len set_stream_info)
        (aem_data w set_stream_info desc_type o.descriptor_index (33554432 ∷ vlan_id ∷ []))

  unfoldable pub send_get_stream_info_cmd : ℕ → Sent
  send_get_stream_info_cmd notification_id =
      send_aem w notification_id (w.command_len get_stream_info)
        (aem_data w get_stream_info desc_type o.descriptor_index [])

  unfoldable pub send_start_streaming_cmd : ℕ → Sent
  send_start_streaming_cmd notification_id =
      send_aem w notification_id (w.command_len start_streaming)
        (aem_data w start_streaming desc_type o.descriptor_index [])

  unfoldable pub send_stop_streaming_cmd : ℕ → Sent
  send_stop_streaming_cmd notification_id =
      send_aem w notification_id (w.command_len stop_streaming)
        (aem_data w stop_streaming desc_type o.descriptor_index [])

  unfoldable pub send_get_tx_state_cmd : ℕ → Sent
  send_get_tx_state_cmd notification_id = send_acmp w notification_id get_tx_state (record {
    controller_entity_id = w.controller_entity_id;
    talker_entity_id = w.entity_desc_entity_id;
    listener_entity_id = 0;
    talker_unique_id = o.descriptor_index;
    listener_unique_id = 0;
    flags = 0;
  })

  unfoldable pub send_get_tx_connection_cmd : ℕ → ℕ → ℕ → Sent
  send_get_tx_connection_cmd notification_id listener_entity_id listener_unique_id =
      send_acmp w notification_id get_tx_connection (record {
        controller_entity_id = w.controller_entity_id;
        talker_entity_id = w.entity_desc_entity_id;
        listener_entity_id = listener_entity_id;
        talker_unique_id = o.descriptor_index;
        listener_unique_id = listener_unique_id;
        flags = 0;
      })
