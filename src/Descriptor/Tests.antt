-- ===== src/Descriptor/Tests.antt =====
-- A stream input, a stream output and an end station that send commands; a write always succeeds.
use avdecc_lib.Prelude.{ℕ, ◌+◌, ◌*◌, ◌/◌, ◌%◌, ◌<◌, ◌≤◌, ◌⊎◌, ◌≡◌, refl, true, arith, [], ◌∷◌}
use avdecc_lib.Output.{cmd_with_notification}
use avdecc_lib.EndStation.Descriptors.{entity}
use avdecc_lib.Descriptor.Station.{
  AaData, aa_frame, system_queue_tx, overrun, Station, send_aecp_address_access_cmd,
}
use avdecc_lib.Descriptor.Access.{send_aecp_address_access_cmd_lem}
use avdecc_lib.Descriptor.Frames.{
  Command, set_stream_format, start_streaming, connect_rx, Owner, send_aem,
}
use avdecc_lib.Descriptor.StreamInput
use avdecc_lib.Descriptor.StreamInput.{StreamInput, new_stream_input}
use avdecc_lib.Descriptor.StreamOutput
use avdecc_lib.Descriptor.StreamOutput.{StreamOutput, new_stream_output}
use avdecc_lib.Descriptor.Sends.{
  Queues, input_start, sent, sent-Queues, length_of, send_set_stream_format_cmd_short,
}
use avdecc_lib.Descriptor.AcmpSends
use avdecc_lib.Descriptor.AcmpSends.{input_connect, acmp_sent-Queues}

abbrev test_len : Command → ℕ
test_len set_stream_format = 36
test_len _ = 28

abbrev test_owner : Owner
test_owner = record {
  mac = 11;
  entity_id = 22;
  controller_entity_id = 33;
  entity_desc_entity_id = 22;
  command_len = test_len;
  common_control_header_len = 12;
  is_written = λ d. true;
  is_acmpdu_written = λ d. true;
}

abbrev test_input : StreamInput ℕ
test_input = new_stream_input 4 0

abbrev test_output : StreamOutput ℕ
test_output = new_stream_output 5 0

test_len-long : (c : Command) → 12 ≤ test_len c
test_len-long c = ground arith

input_start-length : length_of (sent test_owner 9 5 (input_start test_input)) ≡ 42
unfolding StreamInput.send_start_streaming_cmd send_aem new_stream_input
input_start-length = refl

sent-Queues_example :
    Queues test_owner 9 5 start_streaming 4 (sent test_owner 9 5 (input_start test_input))
unfolding new_stream_input
sent-Queues_example = sent-Queues test_owner 9 5 (input_start test_input) test_len-long

-- 14 octets of Ethernet header and 28 of the command: 8 are missing.
set_format-length :
    length_of (StreamOutput.send_set_stream_format_cmd test_owner 6 test_output 9 77) ≡ 42
unfolding StreamOutput.send_set_stream_format_cmd
set_format-length = refl

send_set_stream_format_cmd_short_example :
    length_of (StreamOutput.send_set_stream_format_cmd test_owner 6 test_output 9 77) + 8
    ≡ 14 + 12 + 24
unfolding StreamOutput.send_set_stream_format_cmd
send_set_stream_format_cmd_short_example =
    (send_set_stream_format_cmd_short test_owner 6 test_output 9 77 8 refl (omega arith) refl).1

acmp_sent-Queues_example :
    AcmpSends.Queues test_owner 9 connect_rx 4
      (AcmpSends.sent test_owner 9 (input_connect test_input 44 1 0))
unfolding new_stream_input
acmp_sent-Queues_example = acmp_sent-Queues test_owner 9 (input_connect test_input 44 1 0)

abbrev test_station : Station
test_station = record {
  owner = test_owner;
  current_entity_desc = 0;
  current_configurations = 1 ∷ [];
  identify_control_index = 3;
  descriptor_control = 26;
  aa_len = 22;
  aa_tlv_len = 10;
  payload_size = 1500;
  is_aa_written = λ d. true;
  is_aa_tlv_written = λ d. true;
}

send_aecp_address_access_cmd_lem_example :
    ((send_aecp_address_access_cmd (λ n. entity) test_station 7 1 3 4294967301 (8 ∷ 9 ∷ 10 ∷ [])
        ≡ overrun)
      × ((1500 < 49) ⊎ (2048 < 49)))
    ⊎ ((d : AaData) × (send_aecp_address_access_cmd
            (λ n. entity)
            test_station
            7
            1
            3
            4294967301
            (8 ∷ 9 ∷ 10 ∷ [])
          ≡ system_queue_tx 7 cmd_with_notification (aa_frame 11 49 d (8 ∷ 9 ∷ 10 ∷ []) 22 23))
        × (49 ≤ 1500)
        × (49 ≤ 2048)
        × (d.mode_length / 4096 ≡ 1)
        × (d.mode_length % 4096 ≡ 3)
        × (d.address_upper * 4294967296 + d.address_lower ≡ 4294967301))
send_aecp_address_access_cmd_lem_example =
    send_aecp_address_access_cmd_lem (λ n. entity) test_station 7 1 3 4294967301 (8 ∷ 9 ∷ 10 ∷ [])
      (omega arith) (omega arith) (omega arith) refl (λ d. refl) (λ d. refl)

-- The longest access does not fit.
long_access : send_aecp_address_access_cmd (λ n. entity) test_station 7 1 4095 0 [] ≡ overrun
unfolding send_aecp_address_access_cmd
long_access = refl
