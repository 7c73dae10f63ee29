-- ===== src/Descriptor/AcmpSends.antt =====
-- The ACMP send methods of the two stream classes together.
use avdecc_lib.Prelude.{ℕ, ◌≡◌, refl, true, false, inl, inr, Bool-cases}
use avdecc_lib.Output.{error, cmd_with_notification}
use avdecc_lib.Descriptor.Frames.{
  AcmpMessage, get_tx_state, connect_rx, disconnect_rx, get_rx_state, get_tx_connection, AcmpData,
  Owner, Sent, system_queue_tx, failed_write, not_implemented, aem_frame, acmp_frame, send_acmp,
}
use avdecc_lib.Descriptor.StreamInput
use avdecc_lib.Descriptor.StreamInput.{StreamInput}
use avdecc_lib.Descriptor.StreamOutput
use avdecc_lib.Descriptor.StreamOutput.{StreamOutput}

pub data AcmpCall (F : Type 0) : Type 0 where
  input_connect : StreamInput F → ℕ → ℕ → ℕ → AcmpCall F
  input_disconnect : StreamInput F → ℕ → ℕ → AcmpCall F
  input_get_state : StreamInput F → AcmpCall F
  output_get_state : StreamOutput F → AcmpCall F
  output_get_connection : StreamOutput F → ℕ → ℕ → AcmpCall F

module _ {F : Type 0} where
  abbrev pub message_of : AcmpCall F → AcmpMessage
  message_of (input_connect _ _ _ _) = connect_rx
  message_of (input_disconnect _ _ _) = disconnect_rx
  message_of (input_get_state _) = get_rx_state
  message_of (output_get_state _) = get_tx_state
  message_of (output_get_connection _ _ _) = get_tx_connection

  abbrev pub index_of : AcmpCall F → ℕ
  index_of (input_connect o _ _ _) = o.descriptor_index
  index_of (input_disconnect o _ _) = o.descriptor_index
  index_of (input_get_state o) = o.descriptor_index
  index_of (output_get_state o) = o.descriptor_index
  index_of (output_get_connection o _ _) = o.descriptor_index

  abbrev pub sent : Owner → ℕ → AcmpCall F → Sent
  sent w nid (input_connect o x0 x1 x2) = StreamInput.send_connect_rx_cmd w 0 o nid x0 x1 x2
  sent w nid (input_disconnect o x0 x1) = StreamInput.send_disconnect_rx_cmd w 0 o nid x0 x1
  sent w nid (input_get_state o) = StreamInput.send_get_rx_state_cmd w 0 o nid
  sent w nid (output_get_state o) = StreamOutput.send_get_tx_state_cmd w 0 o nid
  sent w nid (output_get_connection o x0 x1) =
      StreamOutput.send_get_tx_connection_cmd w 0 o nid x0 x1

-- The unique id and the entity id by which the end station of the stream knows itself in the data of
-- a message: the talker's for an output, the listener's for an input.
abbrev pub own_unique_id : AcmpMessage → AcmpData → ℕ
own_unique_id get_tx_state d = d.talker_unique_id
own_unique_id get_tx_connection d = d.talker_unique_id
own_unique_id _ d = d.listener_unique_id

abbrev pub own_entity_id : AcmpMessage → AcmpData → ℕ
own_entity_id get_tx_state d = d.talker_entity_id
own_entity_id get_tx_connection d = d.talker_entity_id
own_entity_id _ d = d.listener_entity_id

abbrev pub Queues : Owner → ℕ → AcmpMessage → ℕ → Sent → Type 0
Queues w nid c i (system_queue_tx id flag (acmp_frame m d)) =
    (w.is_acmpdu_written d ≡ true)
    × (id ≡ nid)
    × (flag ≡ cmd_with_notification)
    × (m ≡ c)
    × (own_unique_id c d ≡ i)
    × (own_entity_id c d ≡ w.entity_desc_entity_id)
    × (d.controller_entity_id ≡ w.controller_entity_id)
Queues w nid c i (system_queue_tx id flag (aem_frame _ _ _ _ _)) = true ≡ false
Queues w nid c i (failed_write level) =
    (level ≡ error)
    × ((d : AcmpData) × (w.is_acmpdu_written d ≡ false)
        × (own_unique_id c d ≡ i)
        × (own_entity_id c d ≡ w.entity_desc_entity_id))
Queues w nid c i (not_implemented level) = true ≡ false

send_acmp-Queues :
    (w : Owner) (nid : ℕ) (c : AcmpMessage) (i : ℕ) (d : AcmpData)
    → own_unique_id c d ≡ i
    → own_entity_id c d ≡ w.entity_desc_entity_id
    → d.controller_entity_id ≡ w.controller_entity_id
    → Queues w nid c i (send_acmp w nid c d)
unfolding send_acmp
send_acmp-Queues w nid c i d u v k = elim (Bool-cases (w.is_acmpdu_written d)) [
  | inl e ↦ rw (send_acmp, e) (e, refl, refl, refl, u, v, k)
  | inr e ↦ rw (send_acmp, e) (refl, (d, e, u, v))
]

-- Every ACMP send method of a stream queues one frame if its write succeeds, and logs an error and queues nothing if its write fails. The frame is queued with a notification, with the message of the method, the controller's entity id, and as the unique id and entity id of the stream's own side the index of its descriptor and the entity id of its entity; the own side is the talker for GET_TX_STATE and GET_TX_CONNECTION, and the listener otherwise, as in the look-up of the response.
pub acmp_sent-Queues :
    {F : Type 0} (w : Owner) (nid : ℕ) (x : AcmpCall F)
    → Queues w nid (message_of x) (index_of x) (sent w nid x)
unfolding StreamInput.send_connect_rx_cmd StreamInput.send_disconnect_rx_cmd
    StreamInput.send_get_rx_state_cmd StreamOutput.send_get_tx_state_cmd
    StreamOutput.send_get_tx_connection_cmd
acmp_sent-Queues w nid (input_connect o x0 x1 x2) =
    send_acmp-Queues w nid connect_rx _ _ refl refl refl
acmp_sent-Queues w nid (input_disconnect o x0 x1) =
    send_acmp-Queues w nid disconnect_rx _ _ refl refl refl
acmp_sent-Queues w nid (input_get_state o) = send_acmp-Queues w nid get_rx_state _ _ refl refl refl
acmp_sent-Queues w nid (output_get_state o) = send_acmp-Queues w nid get_tx_state _ _ refl refl refl
acmp_sent-Queues w nid (output_get_connection o x0 x1) =
    send_acmp-Queues w nid get_tx_connection _ _ refl refl refl
