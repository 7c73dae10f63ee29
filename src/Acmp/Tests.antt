-- ===== src/Acmp/Tests.antt =====
-- Runs of the ACMP state machine; a frame is a message type, a status and a sequence id.
use avdecc_lib.Prelude.{
  ℕ, ◌+◌, ◌≡◌, refl, true, List, [], ◌∷◌, All, length, map, ◌==◌, if◌then◌else◌,
}
use avdecc_lib.Timer.{start, timeout}
use avdecc_lib.Output.{posted}
use avdecc_lib.Acmp.Machine.{
  Acmpdu, MessageClass, talker_response, listener_response, unlisted, new_acmp, timeout_in, respond,
  callback_class, callback, transmit, tx_cmd, state_command, proc_resp, state_resp, give_up, resend,
  state_timeout, tick_at, tick_loop, tick,
}
use avdecc_lib.Acmp.Account.{
  Call, sends, receives, ticks, run, Meant, IsAcmpdu, answers_with, inflight_with, answers-run,
}

record TestFrame : Type 0 where
  kind : ℕ
  seq : ℕ

abbrev test_class : ℕ → MessageClass
test_class n = if n == 5 then talker_response else if n == 7 then listener_response else unlisted

abbrev test_pdu : Acmpdu TestFrame
test_pdu = record {
  message_type = λ f. f.kind;
  class = test_class;
  status = λ f. 0;
  talker_entity_id = λ f. 11;
  listener_entity_id = λ f. 12;
  sequence_id = λ f. f.seq;
  set_sequence_id = λ n f. record f { seq = n };
  is_sent = λ f. true;
}

test_pdu-IsAcmpdu : IsAcmpdu test_pdu
test_pdu-IsAcmpdu = record { message_type-set_sequence_id = λ n f. refl }

-- CONNECT_RX is answered; GET_TX_STATE is repeated at 300 and given up at 600.
abbrev two_commands : List (Call TestFrame)
two_commands =
    sends 0 70 (record { kind = 6; seq = 0 })
    ∷ sends 0 71 (record { kind = 4; seq = 0 })
    ∷ ticks 300
    ∷ receives 0 (record { kind = 7; seq = 0 })
    ∷ ticks 600
    ∷ []

two_commands-posted :
    map (λ n. n.notification_id) (posted (run test_pdu two_commands new_acmp).out) ≡ 71 ∷ 70 ∷ []
unfolding timeout_in respond callback_class callback transmit tx_cmd state_command proc_resp
    state_resp give_up resend state_timeout tick_at tick_loop tick start timeout
two_commands-posted = refl

two_commands-Meant : All (Meant test_pdu) two_commands
two_commands-Meant = (refl, (refl, (tt, (refl, (tt, tt)))))

answers-run_example :
    (answers_with 71 (run test_pdu two_commands new_acmp)
        + inflight_with 71 (run test_pdu two_commands new_acmp)
      ≡ 1)
    × (length (posted (run test_pdu two_commands new_acmp).out)
          + length (run test_pdu two_commands new_acmp).inflight_cmds
        ≡ 2)
answers-run_example = answers-run test_pdu test_pdu-IsAcmpdu two_commands 71 two_commands-Meant
