-- ===== src/Respond/Skipped.antt =====
-- The responses that leave the command that they answer in flight: it is sent again, and then given
-- up, although it was answered.
use avdecc_lib.Prelude.{ℕ, ◌%◌, ◌≡◌, Option, some, arith}
use avdecc_lib.EndStation.Descriptors.{Descriptor, stream_input, stream_output}
use avdecc_lib.Aecp.Pdu.{Aecpdu}
use avdecc_lib.Aecp.Machine.{Aecp}
use avdecc_lib.Config.Objects.{Frames}
use avdecc_lib.Descriptor.Frames.{
  Command, acquire_entity, lock_entity, set_stream_info, set_name, get_name, other_command, Reader,
  not_overridden,
}
use avdecc_lib.Descriptor.StreamInput.{proc_set_stream_info_resp}
use avdecc_lib.Controller.Interface.{Answer}
use avdecc_lib.Respond.Objects.{Station, Vector, stream_inputs, stream_outputs, respond_to}
use avdecc_lib.Respond.Aem.{to_stream, to_entity_or_stream, aem_case, proc_rcvd_aem_resp}

pub data IsSkipped : Command → Descriptor → Type 0 where
  set_name_any : (d : Descriptor) → IsSkipped set_name d
  get_name_any : (d : Descriptor) → IsSkipped get_name d
  other_command_any : (d : Descriptor) → IsSkipped other_command d
  set_stream_info_input : IsSkipped set_stream_info stream_input
  acquire_entity_input : IsSkipped acquire_entity stream_input
  acquire_entity_output : IsSkipped acquire_entity stream_output
  lock_entity_input : IsSkipped lock_entity stream_input
  lock_entity_output : IsSkipped lock_entity stream_output

module _ {F : Type 0} (p : Aecpdu F) (g : Reader F) (n : Frames F) where
  abbrev Skips : ℕ → ℕ → Aecp F → Option (Answer (Station F) (Aecp F)) → Type 0
  Skips nid st m x =
      (a : Answer (Station F) (Aecp F))
      → x ≡ some a
      → (a.machine ≡ m) × (a.notification_id ≡ nid) × (a.status ≡ st)

  Skips-respond_to :
      {O : Type 0} (v : Vector F O) (i nid st : ℕ) (f : F) (s : Station F) (m : Aecp F)
      → Skips nid st m (respond_to v not_overridden i nid st f s m)
  unfolding respond_to not_overridden
  Skips-respond_to v i nid st f s m = ground arith

  aem_case-Skips :
      {c : Command} {d : Descriptor} (w : IsSkipped c d) (now nid st : ℕ) (f : F) (s : Station F)
      → (m : Aecp F) → n.descriptor (g.descriptor_type c f) ≡ d
      → Skips nid st m (aem_case p g n c now nid st f s m)
  unfolding aem_case to_stream to_entity_or_stream proc_set_stream_info_resp
  aem_case-Skips (set_name_any d) now nid st f s m e = ground arith
  aem_case-Skips (get_name_any d) now nid st f s m e = ground arith
  aem_case-Skips (other_command_any d) now nid st f s m e = ground arith
  aem_case-Skips set_stream_info_input now nid st f s m e =
      rw (to_stream, e) (Skips-respond_to stream_inputs _ nid st f s m)
  aem_case-Skips acquire_entity_input now nid st f s m e =
      rw (to_entity_or_stream, e) (Skips-respond_to stream_inputs _ nid st f s m)
  aem_case-Skips acquire_entity_output now nid st f s m e =
      rw (to_entity_or_stream, e) (Skips-respond_to stream_outputs _ nid st f s m)
  aem_case-Skips lock_entity_input now nid st f s m e =
      rw (to_entity_or_stream, e) (Skips-respond_to stream_inputs _ nid st f s m)
  aem_case-Skips lock_entity_output now nid st f s m e =
      rw (to_entity_or_stream, e) (Skips-respond_to stream_outputs _ nid st f s m)

  -- A response to SET_NAME, to GET_NAME, to a command that the dispatch does not list, to ACQUIRE_ENTITY or LOCK_ENTITY of a stream, or to SET_STREAM_INFO of an input stream leaves the AECP state machine as it was, so that the command stays in flight, and the notification id and the status as the caller passed them.
  pub proc_rcvd_aem_resp-skips :
      {c : Command} {d : Descriptor} (w : IsSkipped c d) (now nid st : ℕ) (f : F) (s : Station F)
      → (m : Aecp F) (a : Answer (Station F) (Aecp F)) → g.command (p.command_type f % 32768) ≡ c
      → n.descriptor (g.descriptor_type c f) ≡ d
      → proc_rcvd_aem_resp p g n now nid st f s m ≡ some a
      → (a.machine ≡ m) × (a.notification_id ≡ nid) × (a.status ≡ st)
  unfolding proc_rcvd_aem_resp
  proc_rcvd_aem_resp-skips w now nid st f s m a hc hd e =
      aem_case-Skips w now nid st f s m hd a (rw (proc_rcvd_aem_resp, hc) at e)
