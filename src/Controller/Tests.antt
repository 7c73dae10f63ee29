-- ===== src/Controller/Tests.antt =====
-- An end station that advertises itself, expires and comes again. A frame is an ADPDU: the entity id
-- and the valid time; the machines' other inputs are constant.
use avdecc_lib.Prelude.{ℕ, ◌≡◌, refl, true, false, none, List, [], ◌∷◌, All, map}
use avdecc_lib.Timer.{start, timeout}
use avdecc_lib.Util.{convert_eui48_to_uint64}
use avdecc_lib.Aecp.Pdu.{Aecpdu, aem_response, unlisted}
use avdecc_lib.Acmp.Machine.{Acmpdu}
use avdecc_lib.Acmp.Machine as AcmpMachine
use avdecc_lib.Adp.{Adpdu}
use avdecc_lib.Adp as AdpMachine
use avdecc_lib.Adp.EntityList.{present}
use avdecc_lib.EndStation.Read.{connected, disconnected, end_station_init, end_station_reenumerate}
use avdecc_lib.Controller.State.{
  ControllerState, background_tick, disconnect_station, time_tick_event,
}
use avdecc_lib.Controller.Packets.{update_last, readvertise, rx_adp, rx_subtype, rx_packet_event}
use avdecc_lib.Controller.Interface.{Packet, Responses, Received, adp_subtype}
use avdecc_lib.Controller.Connected.{mark, id_of, status_of}
use avdecc_lib.Controller.Agreement.{IsResponses}
use avdecc_lib.Controller.History.{Event, receives, ticks, new_controller, run, status-run}

abbrev Frame : Type 0
Frame = ℕ × ℕ

abbrev test_packet : Packet Frame
test_packet = record {
  dest_address = λ f. (1, 0, 0, 0, 0, 0);
  mac_addr = 5;
  subtype = λ f. adp_subtype;
  is_ignored = λ f. false;
  is_entity_discover = λ f. false;
  adpdu = λ f. record { available_index = 0; entity_model_id = 3 };
  is_adpdu_read = λ f. true;
  controller_entity_id = λ f. 0;
  is_controller_avail_read = λ f. true;
}

abbrev test_aecp : Aecpdu Frame
test_aecp = record {
  message_type = λ f. aem_response;
  status = λ f. 0;
  stream_id = λ f. f.0;
  command_type = λ f. 4;
  command = λ n. unlisted;
  sequence_id = λ f. 0;
  set_sequence_id = λ n f. f;
  descriptor_type = λ c f. 0;
  descriptor_index = λ c f. 0;
  is_sent = λ f. true;
}

abbrev test_acmp : Acmpdu Frame
test_acmp = record {
  message_type = λ f. 0;
  class = λ n. AcmpMachine.unlisted;
  status = λ f. 0;
  talker_entity_id = λ f. 0;
  listener_entity_id = λ f. 0;
  sequence_id = λ f. 0;
  set_sequence_id = λ n f. f;
  is_sent = λ f. true;
}

abbrev test_adp : Adpdu Frame
test_adp = record {
  entity_id = λ f. f.0;
  valid_time = λ f. f.1;
  ether_frame = λ a n. (a, n);
  write_header = λ h f. (h.entity_id, 0);
  is_written = λ h f. true;
  mac_addr = 5;
  is_sent = λ f. true;
}

abbrev test_responses : Responses ℕ Frame
test_responses = record {
  proc_rcvd_aem_resp = λ now nid st f s m. record {
    station = s;
    machine = m;
    notification_id = nid;
    status = 0;
    operation_id = none;
  };
  proc_rcvd_aecp_aa_resp = λ nid st f s m. record {
    station = s;
    machine = m;
    notification_id = nid;
    status = 0;
    operation_id = none;
  };
  proc_rcvd_acmp_resp = λ nid st f s m. record {
    station = s;
    machine = m;
    notification_id = nid;
    status = 0;
    operation_id = none;
  };
}

test_responses-IsResponses : IsResponses test_responses
test_responses-IsResponses = record {
  aem_keeps = λ now nid st f s m. (refl, refl);
  aa_keeps = λ nid st f s m. (refl, refl);
  acmp_keeps = λ nid st f s m. (refl, refl);
}

abbrev no_answer : Received
no_answer = record {
  notification_id = 0;
  is_notification_id_valid = false;
  status = 0;
  operation_id = none;
}

abbrev coming_and_going : List (Event Frame)
coming_and_going =
    receives 0 100 (7, 1) no_answer ∷ receives 0 200 (8, 31) no_answer ∷ ticks 3000 ∷ []

abbrev after : ControllerState ℕ Frame
after = run test_packet test_aecp test_acmp test_adp test_responses coming_and_going new_controller

after-statuses : map status_of after.end_station_vec ≡ disconnected ∷ connected ∷ []
unfolding rx_packet_event rx_subtype rx_adp update_last readvertise time_tick_event
    disconnect_station background_tick AdpMachine.state_avail AdpMachine.have_entity AdpMachine.tick
    AdpMachine.disconnect AdpMachine.state_timeout AdpMachine.poll_entities
    AdpMachine.state_discover AdpMachine.common_hdr_init AdpMachine.tx_discover start timeout
    convert_eui48_to_uint64 end_station_init end_station_reenumerate
after-statuses = refl

status-run_example :
    All
      (λ t. status_of t ≡ mark (present (id_of t) after.discovery.entities_vec))
      after.end_station_vec
status-run_example =
    (status-run test_packet test_aecp test_acmp test_adp test_responses test_responses-IsResponses
      coming_and_going).1
