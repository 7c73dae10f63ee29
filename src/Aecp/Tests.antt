-- ===== src/Aecp/Tests.antt =====
-- Runs of the AECP state machine on a small frame format, and the theorems at inputs that meet
-- their hypotheses.
use avdecc_lib.Prelude.{
  ℕ, ◌≤◌, ◌≡◌, refl, true, false, List, [], ◌∷◌, arith, map, ◌==◌, if◌then◌else◌,
}
use avdecc_lib.Timer.{start, timeout}
use avdecc_lib.Output.{sent_frames, posted}
use avdecc_lib.Inflight.{Inflight, inflight, start_timer}
use avdecc_lib.Aecp.Pdu.{
  Aecpdu, IsAecpdu, MessageType, aem_command, aem_response, AemCommand, read_descriptor, unlisted,
}
use avdecc_lib.Aecp.Machine.{
  Aecp, new_aecp, callback, callback_descriptor, transmit, tx_cmd, state_send_cmd, proc_resp,
  update_inflight_for_rcvd_resp, give_up, resend, state_timeout, tick_at, tick_loop, tick,
  start_operation, update_operation_for_rcvd_resp,
}
use avdecc_lib.Aecp.History.{Call, sends, receives, ticks, run, transmissions}
use avdecc_lib.Aecp.Invariant.{Inv, state_send_cmd-Inv, new_aecp-Inv}
use avdecc_lib.Aecp.Response.{proc_resp_completes}
use avdecc_lib.Aecp.Operations.{update_operation_lem}
use avdecc_lib.Aecp.Transmissions.{transmissions-run}
use avdecc_lib.Aecp.Expiry.{ticks_at, timeouts_with, ticks_at_finish}

record TestFrame : Type 0 where
  kind : MessageType
  seq : ℕ
  cmd : ℕ

abbrev test_command : ℕ → AemCommand
test_command n = if n == 4 then read_descriptor else unlisted

abbrev test_pdu : Aecpdu TestFrame
test_pdu = record {
  message_type = λ f. f.kind;
  status = λ f. 0;
  stream_id = λ f. 99;
  command_type = λ f. f.cmd;
  command = test_command;
  sequence_id = λ f. f.seq;
  set_sequence_id = λ n f. record f { seq = n };
  descriptor_type = λ c f. 5;
  descriptor_index = λ c f. 6;
  is_sent = λ f. true;
}

test_pdu-IsAecpdu : IsAecpdu test_pdu
test_pdu-IsAecpdu = record { sequence_id-set_sequence_id = λ n f h. refl }

abbrev read_command : TestFrame
read_command = record { kind = aem_command; seq = 0; cmd = 4 }

abbrev read_response : ℕ → TestFrame
read_response n = record { kind = aem_response; seq = n; cmd = 4 }

-- Two commands, both repeated at 300; the first is answered, the second given up at 600.
abbrev two_commands : List (Call TestFrame)
two_commands =
    sends 0 70 1 read_command
    ∷ sends 10 71 1 read_command
    ∷ ticks 300
    ∷ receives 0 aem_response false (read_response 0)
    ∷ ticks 600
    ∷ []

two_commands_sent :
    map (λ f. f.seq) (sent_frames (run test_pdu two_commands new_aecp).out) ≡ 1 ∷ 0 ∷ 1 ∷ 0 ∷ []
unfolding state_send_cmd tx_cmd transmit callback callback_descriptor tick tick_loop tick_at
    state_timeout give_up resend update_inflight_for_rcvd_resp proc_resp start timeout
two_commands_sent = refl

two_commands-posted :
    map (λ n. n.notification_id) (posted (run test_pdu two_commands new_aecp).out) ≡ 71 ∷ 70 ∷ []
unfolding state_send_cmd tx_cmd transmit callback callback_descriptor tick tick_loop tick_at
    state_timeout give_up resend update_inflight_for_rcvd_resp proc_resp start timeout
two_commands-posted = refl

transmissions-run_example : transmissions test_pdu 1 (run test_pdu two_commands new_aecp) ≤ 2
transmissions-run_example =
    (transmissions-run test_pdu test_pdu-IsAecpdu two_commands (omega arith)).0 1

abbrev one_in_flight : Aecp TestFrame
one_in_flight = state_send_cmd test_pdu 1000 70 1 read_command new_aecp

one_in_flight-Inv : Inv test_pdu one_in_flight
one_in_flight-Inv =
    state_send_cmd-Inv test_pdu test_pdu-IsAecpdu 1000 70 1 read_command new_aecp tt
      (new_aecp-Inv test_pdu)

ticks_at_finish_example :
    timeouts_with 70 (ticks_at test_pdu (1300 ∷ 1600 ∷ []) one_in_flight).out ≡ 1
unfolding state_send_cmd tx_cmd transmit callback callback_descriptor start
ticks_at_finish_example =
    (ticks_at_finish test_pdu 1000 (1300 ∷ 1600 ∷ []) one_in_flight 70 one_in_flight-Inv
      (omega arith) (omega arith) (omega arith)).2

abbrev sent_once : Inflight TestFrame
unfolding start
sent_once = start_timer 1000 (inflight read_command 0 70 1 250)

proc_resp_completes_example : (proc_resp test_pdu 0 (read_response 0) one_in_flight).2 ≡ true
unfolding state_send_cmd tx_cmd transmit callback callback_descriptor start
proc_resp_completes_example =
    (proc_resp_completes test_pdu 0 (read_response 0) one_in_flight sent_once one_in_flight-Inv
      refl).0

-- An operation with id 5 that is half done, and one that is done.
abbrev operating : Aecp TestFrame
operating = start_operation test_pdu 70 5 1 read_command new_aecp

operating-ends :
    (update_operation_for_rcvd_resp test_pdu 0 5 1000
      (read_response 0)
      (update_operation_for_rcvd_resp test_pdu 0 5 500
        (read_response 0)
        operating).0).0.active_operations
    ≡ []
unfolding start_operation update_operation_for_rcvd_resp callback callback_descriptor
operating-ends = refl

update_operation_lem_example :
    (update_operation_for_rcvd_resp test_pdu 0 5 1000 (read_response 0) operating).0.inflight_cmds
    ≡ operating.inflight_cmds
update_operation_lem_example =
    (update_operation_lem test_pdu 0 5 1000 (read_response 0) operating).0
