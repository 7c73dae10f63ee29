-- ===== src/Respond/Aem.antt =====
-- proc_rcvd_aem_resp, case by case, and proc_rcvd_aecp_aa_resp. A case that does nothing, or only
-- logs, leaves the command in flight. The caller's operation_id is 0 before, and
-- is_operation_id_valid is false.
use avdecc_lib.Prelude.{
  ℕ, ◌%◌, Bool, false, ◌&&◌, not, Option, none, some, if◌then◌else◌, ◌==◌, get_elem?,
}
use avdecc_lib.EndStation.Requests.{act, no_match_found}
use avdecc_lib.EndStation.Descriptors.{
  entity, stream_input, stream_output, audio_unit, memory_object,
}
use avdecc_lib.EndStation.Read.{background_act, current_config, log_error, proc_read_desc_resp}
use avdecc_lib.Aecp.Pdu.{Aecpdu, aem_response, address_access_response}
use avdecc_lib.Aecp.Machine.{Aecp, update_inflight_for_rcvd_resp}
use avdecc_lib.Aecp.Machine as AecpMachine
use avdecc_lib.Config.Objects.{Frames}
use avdecc_lib.Config.Lookups.{as_configuration}
use avdecc_lib.Descriptor.Frames.{
  Command, acquire_entity, lock_entity, entity_available, read_descriptor, set_stream_format,
  get_stream_format, set_stream_info, get_stream_info, set_name, get_name, set_sampling_rate,
  get_sampling_rate, set_clock_source, get_clock_source, start_streaming, stop_streaming, reboot,
  start_operation, operation_status, set_control, other_command, Reader, Reply, proc_resp,
}
use avdecc_lib.Descriptor.Base
use avdecc_lib.Descriptor.StreamInput
use avdecc_lib.Descriptor.StreamInput.{StreamInput}
use avdecc_lib.Descriptor.StreamOutput
use avdecc_lib.Descriptor.StreamOutput.{StreamOutput}
use avdecc_lib.Descriptor.AudioUnit.{
  AudioUnitObject, proc_set_sampling_rate_resp, proc_get_sampling_rate_resp,
}
use avdecc_lib.Descriptor.ClockDomain.{proc_set_clock_source_resp, proc_get_clock_source_resp}
use avdecc_lib.Descriptor.MemoryObject.{
  MemoryObject, proc_start_operation_resp, proc_operation_status_resp,
}
use avdecc_lib.Controller.Interface.{Answer}
use avdecc_lib.Respond.Objects.{
  Station, audio_units, stream_inputs, stream_outputs, clock_domains, memory_objects, after_method,
  answer, respond_to,
}

module _ {F : Type 0} (p : Aecpdu F) (g : Reader F) (n : Frames F) where
  abbrev pub Handler : Type 0
  Handler = ℕ → ℕ → F → Station F → Aecp F → Option (Answer (Station F) (Aecp F))

  -- Nothing happens.
  abbrev pub ignored : Handler
  ignored nid status frame s m = some (answer s m nid status none)

  abbrev pub log_only : Handler
  log_only nid status frame s m = some (answer (log_error s) m nid status none)

  abbrev pub index : Command → F → ℕ
  index c frame = g.descriptor_index c frame

  -- A method of the current entity descriptor, which changes nothing that is modelled.
  unfoldable pub respond_entity : (ℕ → ℕ → F → ℕ → Aecp F → Reply ℕ (Aecp F)) → Handler
  respond_entity proc nid status frame s m =
      elim (get_elem? s.entity_desc_vec s.current_entity_desc) [
        | none ↦ none
        | some e ↦ some (after_method (proc nid status frame 0 m) s)
      ]

  -- The cases for a stream: input or output.
  unfoldable pub to_stream :
      Command
      → (ℕ → ℕ → F → StreamInput F → Aecp F → Reply (StreamInput F) (Aecp F))
      → (ℕ → ℕ → F → StreamOutput F → Aecp F → Reply (StreamOutput F) (Aecp F))
      → Handler
  to_stream c proc_input proc_output nid status frame s m =
      elim (n.descriptor (g.descriptor_type c frame)) [
        | stream_input ↦ respond_to stream_inputs proc_input (index c frame) nid status frame s m
        | stream_output ↦ respond_to stream_outputs proc_output (index c frame) nid status frame s m
        | _ ↦ ignored nid status frame s m
      ]

  -- ACQUIRE_ENTITY and LOCK_ENTITY: no class of streams overrides the method.
  unfoldable pub to_entity_or_stream :
      Command → (ℕ → ℕ → F → ℕ → Aecp F → Reply ℕ (Aecp F)) → Handler
  to_entity_or_stream c proc_entity nid status frame s m =
      elim (n.descriptor (g.descriptor_type c frame)) [
        | entity ↦ respond_entity proc_entity nid status frame s m
        | stream_input ↦
            respond_to stream_inputs Base.proc_acquire_entity_resp (index c frame) nid status frame
              s m
        | stream_output ↦
            respond_to stream_outputs Base.proc_acquire_entity_resp (index c frame) nid status frame
              s m
        | _ ↦ log_only nid status frame s m
      ]

  unfoldable pub to_audio_unit :
      Command
      → (ℕ → ℕ → F → AudioUnitObject F → Aecp F → Reply (AudioUnitObject F) (Aecp F))
      → Handler
  to_audio_unit c proc nid status frame s m = elim (n.descriptor (g.descriptor_type c frame)) [
    | audio_unit ↦ respond_to audio_units proc (index c frame) nid status frame s m
    | _ ↦ ignored nid status frame s m
  ]

  unfoldable pub to_entity : Command → (ℕ → ℕ → F → ℕ → Aecp F → Reply ℕ (Aecp F)) → Handler
  to_entity c proc nid status frame s m = elim (n.descriptor (g.descriptor_type c frame)) [
    | entity ↦ respond_entity proc nid status frame s m
    | _ ↦ log_only nid status frame s m
  ]

  -- The case of a memory object: `proc` makes the answer for the object. Only the look-up logs when
  -- the object is not there.
  unfoldable pub to_memory_object : Command → (MemoryObject → Answer (Station F) (Aecp F)) → Handler
  to_memory_object c proc nid status frame s m = elim (n.descriptor (g.descriptor_type c frame)) [
    | memory_object ↦ elim (current_config s) [
      | none ↦ none
      | some d ↦ elim (get_elem? (memory_objects.items d) (index c frame)) [
        | none ↦ log_only nid status frame s m
        | some o ↦ some (proc o)
      ]
    ]
    | _ ↦ ignored nid status frame s m
  ]

  abbrev logged : Bool → Station F → Station F
  logged ok s = if ok then s else log_error s

  -- The calls after the look-up in the case START_OPERATION.
  unfoldable pub started :
      ℕ → ℕ → F → Station F → Aecp F → MemoryObject → Answer (Station F) (Aecp F)
  started nid status frame s m o =
      let (r, operation_id, operation_type) =
        proc_start_operation_resp p g 0 0 nid status frame o m in
      let valid = (r.status == 0) && not (operation_id == 0) in
      let m1 =
        if valid
        then AecpMachine.start_operation p r.notification_id operation_id operation_type frame
            r.machine
        else r.machine in
      answer (logged r.is_ok s) m1 r.notification_id r.status
        (if valid then some operation_id else none)

  -- And in the case OPERATION_STATUS.
  unfoldable pub status_told :
      ℕ → ℕ → F → Station F → Aecp F → MemoryObject → Answer (Station F) (Aecp F)
  status_told nid status frame s m o =
      let (r, operation_id, valid) = proc_operation_status_resp p g 0 false nid status frame o m in
      answer (logged r.is_ok s) r.machine r.notification_id r.status
        (if valid then some operation_id else none)

  unfoldable pub proc_entity_avail_resp : Handler
  proc_entity_avail_resp nid status frame s m =
      some (
        after_method (proc_resp p g {O = ℕ} entity_available (λ frame o. o) nid status frame 0 m) s)

  -- The status stays.
  unfoldable pub proc_set_control_resp : Handler
  proc_set_control_resp nid status frame s m =
      let (m1, id, _) = update_inflight_for_rcvd_resp p nid aem_response false frame m in
      some (answer s m1 id status none)

  unfoldable pub read_desc : ℕ → Handler
  read_desc now nid status frame s m =
      elim (proc_read_desc_resp p (as_configuration n) now nid frame s m) [
        | none ↦ none
        | some (s1, m1, id, read) ↦
            some (answer s1 m1 id (if read then p.status frame else status) none)
      ]

  -- The switch.
  unfoldable pub aem_case : Command → ℕ → Handler
  aem_case acquire_entity now nid status frame s m =
      to_entity_or_stream acquire_entity (Base.default_proc_acquire_entity_resp p g) nid status
        frame s m
  aem_case lock_entity now nid status frame s m =
      to_entity_or_stream lock_entity (Base.default_proc_lock_entity_resp p g) nid status frame s m
  aem_case entity_available now nid status frame s m = proc_entity_avail_resp nid status frame s m
  aem_case read_descriptor now nid status frame s m = read_desc now nid status frame s m
  aem_case set_stream_format now nid status frame s m =
      to_stream set_stream_format (StreamInput.proc_set_stream_format_resp p g)
        (StreamOutput.proc_set_stream_format_resp p g) nid status frame s m
  aem_case get_stream_format now nid status frame s m =
      to_stream get_stream_format (StreamInput.proc_get_stream_format_resp p g)
        (StreamOutput.proc_get_stream_format_resp p g) nid status frame s m
  aem_case set_stream_info now nid status frame s m =
      to_stream set_stream_info (StreamInput.proc_set_stream_info_resp p g)
        (StreamOutput.proc_set_stream_info_resp p g) nid status frame s m
  aem_case get_stream_info now nid status frame s m =
      to_stream get_stream_info (StreamInput.proc_get_stream_info_resp p g)
        (StreamOutput.proc_get_stream_info_resp p g) nid status frame s m
  aem_case set_name now nid status frame s m = log_only nid status frame s m
  aem_case get_name now nid status frame s m = log_only nid status frame s m
  aem_case set_sampling_rate now nid status frame s m =
      to_audio_unit set_sampling_rate (proc_set_sampling_rate_resp p g) nid status frame s m
  aem_case get_sampling_rate now nid status frame s m =
      to_audio_unit get_sampling_rate (proc_get_sampling_rate_resp p g) nid status frame s m
  aem_case set_clock_source now nid status frame s m =
      respond_to clock_domains (proc_set_clock_source_resp p g) (index set_clock_source frame) nid
        status frame s m
  aem_case get_clock_source now nid status frame s m =
      respond_to clock_domains (proc_get_clock_source_resp p g) (index get_clock_source frame) nid
        status frame s m
  aem_case start_streaming now nid status frame s m =
      to_stream start_streaming (StreamInput.proc_start_streaming_resp p g)
        (StreamOutput.proc_start_streaming_resp p g) nid status frame s m
  aem_case stop_streaming now nid status frame s m =
      to_stream stop_streaming (StreamInput.proc_stop_streaming_resp p g)
        (StreamOutput.proc_stop_streaming_resp p g) nid status frame s m
  aem_case reboot now nid status frame s m =
      to_entity reboot (Base.default_proc_reboot_resp p g) nid status frame s m
  aem_case start_operation now nid status frame s m =
      to_memory_object start_operation (started nid status frame s m) nid status frame s m
  aem_case operation_status now nid status frame s m =
      to_memory_object operation_status (status_told nid status frame s m) nid status frame s m
  aem_case set_control now nid status frame s m = proc_set_control_resp nid status frame s m
  aem_case other_command now nid status frame s m = some (
      answer (background_act (act (no_match_found (p.command_type frame % 32768))) s) m nid status
        none)

  -- The clock is only read in the case READ_DESCRIPTOR.
  unfoldable pub proc_rcvd_aem_resp : ℕ → Handler
  proc_rcvd_aem_resp now nid status frame s m =
      aem_case (g.command (p.command_type frame % 32768)) now nid status frame s m

  -- The switch on the mode has no effect.
  unfoldable pub proc_rcvd_aecp_aa_resp : Handler
  proc_rcvd_aecp_aa_resp nid status frame s m =
      let s1 = if g.tlv_count frame == 1 then s else background_act (act (no_match_found 0)) s in
      let (m1, id, _) = update_inflight_for_rcvd_resp p nid address_access_response false frame m in
      some (answer s1 m1 id (p.status frame) none)
