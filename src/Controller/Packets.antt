-- ===== src/Controller/Packets.antt =====
-- rx_packet_event and tx_packet_event. What an end station does with an AECP or ACMP response of
-- its own is the interface `Responses`; the reads of a frame are jdksavdecc-c's.
use avdecc_lib.Prelude.{
  ℕ, ◌+◌, ◌*◌, ◌/◌, ◌%◌, Bool, true, false, ◌&&◌, ◌||◌, Option, none, some, List, [], ◌∷◌, ◌++◌,
  if◌then◌else◌, ◌==◌, not, ltb, any, get_elem?, modify_at,
}
use avdecc_lib.Output.{LogLevel, error, debug}
use avdecc_lib.Util.{convert_eui48_to_uint64}
use avdecc_lib.Aecp.Pdu.{
  Aecpdu, MessageType, aem_response, address_access_response, controller_available, AemCommand,
}
use avdecc_lib.Aecp.Machine.{Aecp, state_send_cmd, update_inflight_for_rcvd_resp}
use avdecc_lib.Acmp.Machine.{
  Acmpdu, MessageClass, talker_response, listener_response, unlisted, state_command,
}
use avdecc_lib.Adp.{Adpdu, state_avail}
use avdecc_lib.EndStation.Requests.{no_background}
use avdecc_lib.EndStation.Read.{
  EndStation, ConnectionStatus, not_set, disconnected, end_station_init, end_station_reenumerate,
  set_connected,
}
use avdecc_lib.Controller.State.{Station, ControllerState, has_id}
use avdecc_lib.Controller.Interface.{
  Subtype, adp_subtype, aecp_subtype, acmp_subtype, other_subtype, Packet, Answer, Responses,
  Received, status_invalid,
}

-- adp::get_controller_entity_id: the two halves of the MAC address around 0xFFFF.
unfoldable pub get_controller_entity_id : ℕ → ℕ
get_controller_entity_id mac_addr =
    mac_addr / 16777216 % 16777216 * 1099511627776 + 1099494850560 + mac_addr % 16777216

module _ {C : Type 0} where
  -- The last end station with the id: the loop has no break.
  unfoldable pub update_last : ℕ → (Station C → Station C) → List (Station C) → List (Station C)
  update_last id f [] = []
  update_last id f (s ∷ ss) =
      let rest = update_last id f ss in
      if any (has_id id) ss then s ∷ rest else if has_id id s then f s ∷ ss else s ∷ ss

module _ {C F : Type 0} where
  abbrev pub log_line : LogLevel → ControllerState C F → ControllerState C F
  log_line l s = record s { logged = l ∷ s.logged }

module _ {C F : Type 0} (k : Packet F) (p : Aecpdu F) (q : Acmpdu F) (r : Adpdu F)
    (e : Responses C F) where
  -- The constructor of end_station_imp.
  abbrev pub new_station : F → Station C
  new_station frame = record {
    end_station = end_station_init (record {
      end_station_entity_id = r.entity_id frame;
      end_station_connection_status = not_set;
      current_entity_desc = 0;
      current_config_desc = 0;
      selected_entity_index = 0;
      selected_config_index = 0;
      background = no_background;
      entity_desc_vec = [];
    });
    adp = k.adpdu frame;
  }

  abbrev connect : Station C → Station C
  connect s = record s { end_station = set_connected s.end_station }

  abbrev pub is_renewed : F → Station C → Bool
  is_renewed frame s =
      ltb (k.adpdu frame).available_index s.adp.available_index
      || not ((k.adpdu frame).entity_model_id == s.adp.entity_model_id)

  abbrev connect_again : ConnectionStatus → Station C → Station C
  connect_again disconnected s = connect s
  connect_again _ s = s

  -- What an ADPDU does to the end station that it comes from.
  unfoldable pub readvertise : F → Station C → Station C
  readvertise frame s =
      let s1 =
        if is_renewed frame s
        then record s { end_station = end_station_reenumerate s.end_station }
        else s in
      let s2 = if k.is_adpdu_read frame then record s1 { adp = k.adpdu frame } else s1 in
      connect_again s2.end_station.end_station_connection_status s2

  -- The case JDKSAVDECC_SUBTYPE_ADP for an entity that is not to be ignored. Ids are distinct, so
  -- that the end station that is found is the one that may be renewed, which is logged.
  unfoldable pub rx_adp : ℕ → F → ControllerState C F → ControllerState C F
  rx_adp now frame s =
      let id = r.entity_id frame in
      if not (id == 0)
      then record s {
        discovery = state_avail r now frame s.discovery;
        logged =
            if any (λ t. has_id id t && is_renewed frame t) s.end_station_vec
            then debug ∷ s.logged
            else s.logged;
        end_station_vec =
            if any (has_id id) s.end_station_vec
            then update_last id (readvertise frame) s.end_station_vec
            else s.end_station_vec ++ connect (new_station frame) ∷ [];
      }
      else if k.is_entity_discover frame
      then s
      else log_line error s

  -- The index of the first end station that matches.
  unfoldable pub find_in_end_station : ℕ → F → List (Station C) → Option ℕ
  find_in_end_station id frame [] = none
  find_in_end_station id frame (s ∷ ss) =
      let rest = find_in_end_station id frame ss in
      let station_id = s.end_station.end_station_entity_id in
      if (station_id == id)
        && ((k.controller_entity_id frame == get_controller_entity_id k.mac_addr)
            || (k.controller_entity_id frame == station_id))
      then some 0
      else elim rest [ none ↦ none | some i ↦ some (i + 1) ]

  abbrev put : ℕ → EndStation C → List (Station C) → List (Station C)
  put i es stations = modify_at stations i (λ s. record s { end_station = es })

  abbrev answered :
      Bool
      → Answer (EndStation C) (Aecp F)
      → ℕ
      → ControllerState C F
      → Received
      → ControllerState C F × Received
  answered valid a i s out = (
    record s { aecp = a.machine; end_station_vec = put i a.station s.end_station_vec },
    record {
      notification_id = a.notification_id;
      is_notification_id_valid = valid;
      status = a.status;
      operation_id = a.operation_id;
    },
  )

  -- proc_controller_avail_resp: the AECP state machine, the notification id and the status.
  unfoldable pub proc_controller_avail_resp :
      F → ControllerState C F → Received → ControllerState C F × Received
  proc_controller_avail_resp frame s out =
      if k.is_controller_avail_read frame
      then (let u_field = p.command_type frame / 32768 % 2 == 1 in
          let (m, id, _) =
            update_inflight_for_rcvd_resp p out.notification_id (p.message_type frame) u_field frame
              s.aecp in
          (
            record s { aecp = m },
            record out {
              notification_id = id;
              is_notification_id_valid = true;
              status = p.status frame;
            },
          ))
      else (log_line error s, record out { is_notification_id_valid = true })

  abbrev pub is_controller_available : AemCommand → Bool
  is_controller_available controller_available = true
  is_controller_available _ = false

  -- The switch on the message type, for end station `i`.
  unfoldable pub rx_aecp_message :
      MessageType
      → ℕ
      → F
      → ℕ
      → Station C
      → ControllerState C F
      → Received
      → ControllerState C F × Received
  rx_aecp_message aem_response now frame i es s out =
      let cmd_type = p.command_type frame % 32768 in
      if is_controller_available (p.command cmd_type)
      then proc_controller_avail_resp frame s out
      else answered true
          (e.proc_rcvd_aem_resp now out.notification_id out.status frame es.end_station s.aecp) i s
          out
  rx_aecp_message address_access_response now frame i es s out =
      answered true
        (e.proc_rcvd_aecp_aa_resp out.notification_id out.status frame es.end_station s.aecp) i s
        out
  rx_aecp_message _ now frame i es s out = (s, out)

  abbrev invalid : Received → Received
  invalid out = record out { status = status_invalid }

  -- The case JDKSAVDECC_SUBTYPE_AECP; `to_us` says that the frame has our address.
  unfoldable pub rx_aecp :
      Bool → ℕ → F → ControllerState C F → Received → ControllerState C F × Received
  rx_aecp false now frame s out = (s, invalid out)
  rx_aecp true now frame s out =
      elim (find_in_end_station (p.stream_id frame) frame s.end_station_vec) [
        | none ↦ (s, invalid out)
        | some i ↦ elim (get_elem? s.end_station_vec i) [
          | none ↦ (s, invalid out)
          | some es ↦ rx_aecp_message (p.message_type frame) now frame i es s out
        ]
      ]

  -- The entity id that an ACMP message is looked up by; a message of another type leaves the
  -- variable as it was, which is the first argument.
  unfoldable pub acmp_entity_id : ℕ → MessageClass → F → ℕ
  acmp_entity_id unset talker_response frame = q.talker_entity_id frame
  acmp_entity_id unset listener_response frame = q.listener_entity_id frame
  acmp_entity_id unset unlisted frame = unset

  -- The case JDKSAVDECC_SUBTYPE_ACMP.
  unfoldable pub rx_acmp :
      ℕ → ℕ → F → ControllerState C F → Received → ControllerState C F × Received
  rx_acmp unset now frame s out =
      let id = acmp_entity_id unset (q.class (q.message_type frame)) frame in
      elim (find_in_end_station id frame s.end_station_vec) [
        | none ↦ (log_line debug s, invalid out)
        | some i ↦ elim (get_elem? s.end_station_vec i) [
          | none ↦ (log_line debug s, invalid out)
          | some es ↦
              (let a =
                  e.proc_rcvd_acmp_resp out.notification_id out.status frame es.end_station
                    s.acmp in
                (
                  record s {
                    acmp = a.machine;
                    end_station_vec = put i a.station s.end_station_vec;
                  },
                  record out {
                    notification_id = a.notification_id;
                    is_notification_id_valid = true;
                    status = a.status;
                  },
                ))
        ]
      ]

  unfoldable pub rx_subtype :
      Subtype → Bool → ℕ → ℕ → F → ControllerState C F → Received → ControllerState C F × Received
  rx_subtype adp_subtype to_us unset now frame s out = (
    if k.is_ignored frame then s else rx_adp now frame s,
    record out { is_notification_id_valid = false; status = status_invalid },
  )
  rx_subtype aecp_subtype to_us unset now frame s out = rx_aecp to_us now frame s out
  rx_subtype acmp_subtype to_us unset now frame s out = rx_acmp unset now frame s out
  rx_subtype other_subtype to_us unset now frame s out = (s, out)

  -- The bit 0x010000000000 of the destination marks a multicast address.
  unfoldable pub rx_packet_event :
      ℕ → ℕ → F → ControllerState C F → Received → ControllerState C F × Received
  rx_packet_event unset now frame s out =
      let dest = convert_eui48_to_uint64 (k.dest_address frame) in
      let to_us = dest == k.mac_addr in
      let out1 = record out { operation_id = none } in
      if to_us || (dest / 1099511627776 % 2 == 1)
      then rx_subtype (k.subtype frame) to_us unset now frame s out1
      else (s, out1)

  unfoldable pub tx_subtype : Subtype → ℕ → ℕ → ℕ → F → ControllerState C F → ControllerState C F
  tx_subtype aecp_subtype now notification_id notification_flag frame s = record s {
    aecp = state_send_cmd p now notification_id notification_flag frame s.aecp;
  }
  tx_subtype acmp_subtype now notification_id notification_flag frame s = record s {
    acmp = state_command q now notification_id notification_flag frame s.acmp;
  }
  tx_subtype _ now notification_id notification_flag frame s = log_line error s

  unfoldable pub tx_packet_event : ℕ → ℕ → ℕ → F → ControllerState C F → ControllerState C F
  tx_packet_event now notification_id notification_flag frame s =
      tx_subtype (k.subtype frame) now notification_id notification_flag frame s
