-- ===== src/EndStation/Tests.antt =====
-- Background reads of small lists.
use avdecc_lib.Prelude.{
  ℕ, ◌+◌, true, none, if◌then◌else◌, ◌==◌, ltb, ◌≡◌, ◌++◌, refl, some, List, [], ◌∷◌,
}
use avdecc_lib.Timer.{start, timeout}
use avdecc_lib.EndStation.Requests.{
  Background, no_background, requests, queue_background_read_request, update_timeouts, without_read,
  background_read_update_timeouts, background_read_update_inflight, submit, submit_same,
  submit_list, background_read_submit_pending,
}
use avdecc_lib.EndStation.Order.{
  Step, queues, times_out, is_answered, submits, run, reads, keys, reads-run,
}
use avdecc_lib.Aecp.Pdu.{Aecpdu, aem_response, unlisted}
use avdecc_lib.EndStation.Descriptors.{
  Configuration, audio_unit, other_descriptor, AudioUnit, Block,
}

abbrev three_reads : List Step
three_reads =
    queues 9 4 2
    ∷ queues 5 0 1
    ∷ submits 100
    ∷ is_answered 9 (some 4)
    ∷ times_out 900
    ∷ submits 900
    ∷ []

three_reads-reads : reads (run three_reads no_background).actions ≡ (9, 4) ∷ (9, 5) ∷ (5, 0) ∷ []
unfolding requests queue_background_read_request update_timeouts without_read
    background_read_update_timeouts background_read_update_inflight submit submit_same submit_list
    background_read_submit_pending start timeout
three_reads-reads = refl

reads-run_example :
    reads (run three_reads no_background).actions ++ keys (run three_reads no_background).pending
    ≡ (9, 4) ∷ (9, 5) ∷ (5, 0) ∷ []
reads-run_example = reads-run three_reads no_background

abbrev two_pending : Background
two_pending =
    queue_background_read_request 5 0 1 (queue_background_read_request 9 4 1 no_background)

-- A frame is the index of an AUDIO_UNIT descriptor, type 2; a configuration is the number of audio
-- units it holds, found by position.
abbrev test_pdu : Aecpdu ℕ
test_pdu = record {
  message_type = λ f. aem_response;
  status = λ f. 0;
  stream_id = λ f. 0;
  command_type = λ f. 4;
  command = λ n. unlisted;
  sequence_id = λ f. 0;
  set_sequence_id = λ n f. f;
  descriptor_type = λ c f. 0;
  descriptor_index = λ c f. 0;
  is_sent = λ f. true;
}

abbrev no_block : Block
no_block = record { base = 0; number = 0 }

abbrev test_unit : AudioUnit
test_unit = record {
  stream_input_port = no_block;
  stream_output_port = no_block;
  external_input_port = no_block;
  external_output_port = no_block;
  control_block = no_block;
}

abbrev test_configuration : Configuration ℕ ℕ
test_configuration = record {
  code = λ d. 2;
  descriptor = λ n. if n == 2 then audio_unit else other_descriptor;
  descriptor_index = λ d f. f;
  desc_type = λ f. 2;
  is_read_desc_resp = λ f. true;
  new_entity_descriptor = λ f. some 0;
  new_configuration = λ f. some 0;
  store_desc = λ d f c. some (c + 1);
  descriptor_counts_count = λ c. 0;
  get_desc_type_from_config_by_index = λ c j. 0;
  get_desc_count_from_config_by_index = λ c j. 0;
  number_of_strings = λ c. none;
  get_audio_unit_desc_by_index = λ c i. if ltb i c then some test_unit else none;
  get_stream_port_input_desc_by_index = λ c i. none;
  get_stream_port_output_desc_by_index = λ c i. none;
}
