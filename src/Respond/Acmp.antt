-- ===== src/Respond/Acmp.antt =====
-- proc_rcvd_acmp_resp: the responses for a stream that the end station owns.
use avdecc_lib.Prelude.{ℕ, Option, none, some}
use avdecc_lib.EndStation.Requests.{act, no_match_found}
use avdecc_lib.EndStation.Read.{background_act}
use avdecc_lib.Acmp.Machine.{Acmp, Acmpdu}
use avdecc_lib.Descriptor.Frames.{
  AcmpMessage, get_tx_state, connect_rx, disconnect_rx, get_rx_state, get_tx_connection,
  other_message, Reader,
}
use avdecc_lib.Descriptor.StreamInput.{
  proc_connect_rx_resp, proc_disconnect_rx_resp, proc_get_rx_state_resp,
}
use avdecc_lib.Descriptor.StreamOutput.{proc_get_tx_state_resp, proc_get_tx_connection_resp}
use avdecc_lib.Controller.Interface.{Answer}
use avdecc_lib.Respond.Objects.{Station, stream_inputs, stream_outputs, answer, respond_to}

module _ {F : Type 0} (q : Acmpdu F) (g : Reader F) where
  unfoldable pub acmp_case :
      AcmpMessage → ℕ → ℕ → F → Station F → Acmp F → Option (Answer (Station F) (Acmp F))
  acmp_case get_tx_state nid status frame s m =
      respond_to stream_outputs (proc_get_tx_state_resp q g) (g.talker_unique_id frame) nid status
        frame s m
  acmp_case connect_rx nid status frame s m =
      respond_to stream_inputs (proc_connect_rx_resp q g) (g.listener_unique_id frame) nid status
        frame s m
  acmp_case disconnect_rx nid status frame s m =
      respond_to stream_inputs (proc_disconnect_rx_resp q g) (g.listener_unique_id frame) nid status
        frame s m
  acmp_case get_rx_state nid status frame s m =
      respond_to stream_inputs (proc_get_rx_state_resp q g) (g.listener_unique_id frame) nid status
        frame s m
  acmp_case get_tx_connection nid status frame s m =
      respond_to stream_outputs (proc_get_tx_connection_resp q g) (g.talker_unique_id frame) nid
        status frame s m
  acmp_case other_message nid status frame s m =
      some
        (answer (background_act (act (no_match_found (q.message_type frame))) s) m nid status none)

  unfoldable pub proc_rcvd_acmp_resp :
      ℕ → ℕ → F → Station F → Acmp F → Option (Answer (Station F) (Acmp F))
  proc_rcvd_acmp_resp nid status frame s m =
      acmp_case (g.acmp_response (q.message_type frame)) nid status frame s m
