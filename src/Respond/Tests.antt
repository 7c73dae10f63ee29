-- ===== src/Respond/Tests.antt =====
-- An end station with one stream input, and responses for it. A frame is a command type, a sequence
-- id and a stream format: 8 is SET_STREAM_FORMAT, 16 SET_NAME.
use avdecc_lib.Prelude.{
  ℕ, ◌≡◌, refl, true, false, none, some, List, [], ◌∷◌, if◌then◌else◌, ◌==◌, All, get_elem?,
}
use avdecc_lib.Inflight.{inflight}
use avdecc_lib.EndStation.Descriptors.{AudioUnit, Block, audio_unit, stream_input}
use avdecc_lib.EndStation.Requests.{no_background}
use avdecc_lib.EndStation.Read.{log_error}
use avdecc_lib.Controller.Packets.{get_controller_entity_id}
use avdecc_lib.EndStation.Missing.{enumerated}
use avdecc_lib.Aecp.Pdu.{Aecpdu, aem_response, unlisted}
use avdecc_lib.Aecp.Machine.{Aecp}
use avdecc_lib.Acmp.Machine.{Acmpdu}
use avdecc_lib.Acmp.Machine as AcmpMachine
use avdecc_lib.Adp.{Adpdu}
use avdecc_lib.Adp.EntityList.{present}
use avdecc_lib.Config.Objects.{ConfigurationDescriptor, Frames}
use avdecc_lib.Config.Lookups.{as_configuration}
use avdecc_lib.Descriptor.Frames.{Reader, set_stream_format, set_name, other_command, other_message}
use avdecc_lib.Descriptor.StreamInput.{StreamInput, new_stream_input}
use avdecc_lib.Controller.Interface.{Answer, Packet, Received, adp_subtype, aecp_subtype}
use avdecc_lib.Controller.State.{ControllerState}
use avdecc_lib.Controller.Connected.{mark, id_of, status_of}
use avdecc_lib.Controller.History.{Event, receives, ticks, new_controller, run}
use avdecc_lib.Respond.Objects.{Station, answer}
use avdecc_lib.Respond.Aem.{proc_rcvd_aem_resp, aem_case}
use avdecc_lib.Respond.Answered.{set_stream_format_input}
use avdecc_lib.Respond.Completed.{proc_rcvd_aem_resp-completes}
use avdecc_lib.Respond.Skipped.{set_name_any, proc_rcvd_aem_resp-skips}
use avdecc_lib.Respond.Format.{set_stream_format_lem}
use avdecc_lib.Respond.Interface.{end_station_responses, status-run_end_stations}

abbrev Frame : Type 0
Frame = ℕ × ℕ × ℕ

abbrev test_aecp : Aecpdu Frame
test_aecp = record {
  message_type = λ f. aem_response;
  status = λ f. 0;
  stream_id = λ f. 7;
  command_type = λ f. f.0;
  command = λ n. unlisted;
  sequence_id = λ f. f.1;
  set_sequence_id = λ n f. f;
  descriptor_type = λ c f. 0;
  descriptor_index = λ c f. 0;
  is_sent = λ f. true;
}

abbrev test_reader : Reader Frame
test_reader = record {
  command = λ n. if n == 8 then set_stream_format else if n == 16 then set_name else other_command;
  acmp_response = λ n. other_message;
  descriptor_type = λ c f. 5;
  descriptor_index = λ c f. 0;
  is_read = λ c f. true;
  is_acmpdu_read = λ f. true;
  talker_unique_id = λ f. 0;
  listener_unique_id = λ f. 0;
  stream_format = λ f. f.2;
  sampling_rate = λ f. 0;
  clock_source_index = λ f. 0;
  operation_id = λ f. 0;
  operation_type = λ f. 0;
  percent_complete = λ f. 0;
  tlv_count = λ f. 1;
}

abbrev test_frames : Frames Frame
test_frames = record {
  code = λ d. 5;
  descriptor = λ n. stream_input;
  descriptor_index = λ d f. 0;
  desc_type = λ f. 5;
  is_read_desc_resp = λ f. true;
  new_entity_descriptor = λ f. some 0;
  new_audio_unit = λ f. none;
  new_stream_input = λ f. some (new_stream_input f.1 f.2);
  new_stream_output = λ f. none;
  new_memory_object = λ f. none;
  new_clock_domain = λ f. none;
  new_stream_port = λ d f. none;
  new_plain = λ d f. none;
  desc_type_vec = λ f. [];
  desc_count_vec = λ f. [];
  sort = λ ix v. v;
}

abbrev test_input : StreamInput Frame
test_input = record {
  descriptor_index = 0;
  current_format = 100;
  aem_cmd_set_stream_format_resp = none;
  aem_cmd_get_stream_format_resp = none;
  aem_cmd_set_stream_info_resp = none;
  aem_cmd_get_stream_info_resp = none;
  acmp_cmd_connect_rx_resp = none;
  acmp_cmd_disconnect_rx_resp = none;
  acmp_cmd_get_rx_state_resp = none;
}

abbrev test_configuration : ConfigurationDescriptor Frame
test_configuration = record {
  desc_type_vec = [];
  desc_count_vec = [];
  audio_unit_desc_vec = [];
  stream_input_desc_vec = test_input ∷ [];
  stream_output_desc_vec = [];
  memory_object_desc_vec = [];
  clock_domain_desc_vec = [];
  stream_port_input_desc_vec = [];
  stream_port_output_desc_vec = [];
  locale_desc_vec = [];
  jack_input_desc_vec = [];
  jack_output_desc_vec = [];
  avb_interface_desc_vec = [];
  clock_source_desc_vec = [];
  strings_desc_vec = [];
  audio_cluster_desc_vec = [];
  audio_map_desc_vec = [];
  control_desc_vec = [];
  external_port_input_desc_vec = [];
  external_port_output_desc_vec = [];
}

abbrev test_station : Station Frame
test_station =
    enumerated test_aecp (as_configuration test_frames) 7 no_background 0 test_configuration

-- One command is in flight, with the sequence id 3 and the notification id 21.
abbrev waiting : Aecp Frame
waiting = record {
  aecp_seq_id = 4;
  inflight_cmds = inflight (8, 3, 200) 3 21 1 250 ∷ [];
  active_operations = [];
  out = [];
}

proc_rcvd_aem_resp-completes_example :
    (proc_rcvd_aem_resp-completes test_aecp test_reader test_frames set_stream_format_input 10 0 1
      (8, 3, 200)
      test_station
      waiting
      refl
      refl
      (test_configuration, refl, (test_input, refl))
      refl
      refl).0.notification_id
    ≡ 21
proc_rcvd_aem_resp-completes_example =
    (proc_rcvd_aem_resp-completes test_aecp test_reader test_frames set_stream_format_input 10 0 1
      (8, 3, 200) test_station waiting refl refl (test_configuration, refl, (test_input, refl)) refl
      refl).3

-- The SET_NAME command stays in flight.
abbrev skipped : Answer (Station Frame) (Aecp Frame)
skipped = answer (log_error test_station) waiting 0 1 none

proc_rcvd_aem_resp-skips_example :
    (skipped.machine ≡ waiting) × (skipped.notification_id ≡ 0) × (skipped.status ≡ 1)
unfolding proc_rcvd_aem_resp aem_case
proc_rcvd_aem_resp-skips_example =
    proc_rcvd_aem_resp-skips test_aecp test_reader test_frames (set_name_any stream_input) 10 0 1
      (16, 3, 0) test_station waiting skipped refl refl refl

set_stream_format_lem_example :
    get_elem?
      (set_stream_format_lem test_aecp test_reader test_frames 10 0 1
        (8, 3, 200)
        test_station
        waiting
        test_configuration
        test_input
        refl
        refl
        refl
        refl
        refl).2.0.stream_input_desc_vec
      0
    ≡ some (record test_input {
      current_format = 200;
      aem_cmd_set_stream_format_resp = some (8, 3, 200);
    })
set_stream_format_lem_example =
    (set_stream_format_lem test_aecp test_reader test_frames 10 0 1 (8, 3, 200) test_station waiting
      test_configuration test_input refl refl refl refl refl).2.2

abbrev test_packet : Packet Frame
test_packet = record {
  dest_address = λ f. (0, 0, 0, 0, 0, 5);
  mac_addr = 5;
  subtype = λ f. if f.0 == 0 then adp_subtype else aecp_subtype;
  is_ignored = λ f. false;
  is_entity_discover = λ f. false;
  adpdu = λ f. record { available_index = 0; entity_model_id = 3 };
  is_adpdu_read = λ f. true;
  controller_entity_id = λ f. get_controller_entity_id 5;
  is_controller_avail_read = λ f. true;
}

abbrev test_acmp : Acmpdu Frame
test_acmp = record {
  message_type = λ f. 0;
  class = λ n. AcmpMachine.unlisted;
  status = λ f. 0;
  talker_entity_id = λ f. 0;
  listener_entity_id = λ f. 0;
  sequence_id = λ f. 0;
  set_sequence_id = λ n f. f;
  is_sent = λ f. true;
}

abbrev test_adp : Adpdu Frame
test_adp = record {
  entity_id = λ f. 7;
  valid_time = λ f. f.2;
  ether_frame = λ a n. (0, a, n);
  write_header = λ h f. (0, h.entity_id, 0);
  is_written = λ h f. true;
  mac_addr = 5;
  is_sent = λ f. true;
}

abbrev no_answer : Received
no_answer = record {
  notification_id = 0;
  is_notification_id_valid = false;
  status = 0;
  operation_id = none;
}

-- The end station comes, answers a SET_NAME command, and expires.
abbrev history : List (Event Frame)
history = receives 0 100 (0, 0, 1) no_answer ∷ receives 0 200 (16, 3, 0) no_answer ∷ ticks 3000 ∷ []

abbrev at_end : ControllerState (ConfigurationDescriptor Frame) Frame
at_end =
    run test_packet test_aecp test_acmp test_adp
      (end_station_responses test_aecp test_acmp test_reader test_frames) history new_controller

status-run_end_stations_example :
    All
      (λ t. status_of t ≡ mark (present (id_of t) at_end.discovery.entities_vec))
      at_end.end_station_vec
status-run_end_stations_example =
    (status-run_end_stations test_aecp test_acmp test_reader test_frames test_packet test_adp
      history).1

abbrev no_block : Block
no_block = record { base = 0; number = 0 }

abbrev no_unit : AudioUnit
no_unit = record {
  stream_input_port = no_block;
  stream_output_port = no_block;
  external_input_port = no_block;
  external_output_port = no_block;
  control_block = no_block;
}

-- Unit 1 is received when no unit is stored.
abbrev unit_frames : Frames Frame
unit_frames = record test_frames {
  descriptor = λ n. audio_unit;
  descriptor_index = λ d f. 1;
  new_audio_unit = λ f. some (record {
    descriptor_index = 1;
    unit = no_unit;
    current_sampling_rate = 48000;
    aem_cmd_set_sampling_rate_resp = none;
    aem_cmd_get_sampling_rate_resp = none;
  });
}
