-- ===== src/Respond/Completed.antt =====
-- A response whose object is there ends the command that it answers.
use avdecc_lib.Prelude.{
  ℕ, ◌/◌, ◌%◌, ◌≡◌, refl, true, false, Bool, not, ◌&&◌, Option, none, some, List, [], ◌∷◌, ap,
  Option-cases, ◌==◌, inl, inr, find_if, erase_first, Bool-cases,
}
use mathlib.Core.Path.{◌∙◌}
use avdecc_lib.Inflight.{Inflight, seq_id_comp}
use avdecc_lib.EndStation.Descriptors.{Descriptor, stream_input, stream_output, memory_object}
use avdecc_lib.Aecp.Pdu.{Aecpdu, aem_response}
use avdecc_lib.Aecp.Machine.{Aecp, is_response, proc_unsolicited, update_inflight_for_rcvd_resp}
use avdecc_lib.Aecp.Machine as AecpMachine
use avdecc_lib.Aecp.Response.{proc_resp_matched}
use avdecc_lib.Config.Objects.{Frames}
use avdecc_lib.Descriptor.Frames.{
  Command, acquire_entity, lock_entity, entity_available, set_stream_format, get_stream_format,
  set_stream_info, get_stream_info, set_sampling_rate, get_sampling_rate, set_clock_source,
  get_clock_source, start_streaming, stop_streaming, reboot, start_operation, Reader, Reply,
  proc_resp,
}
use avdecc_lib.Descriptor.Base.{
  default_proc_acquire_entity_resp, default_proc_lock_entity_resp, default_proc_reboot_resp,
}
use avdecc_lib.Descriptor.StreamInput
use avdecc_lib.Descriptor.StreamInput.{StreamInput}
use avdecc_lib.Descriptor.StreamOutput
use avdecc_lib.Descriptor.StreamOutput.{StreamOutput}
use avdecc_lib.Descriptor.AudioUnit.{proc_set_sampling_rate_resp, proc_get_sampling_rate_resp}
use avdecc_lib.Descriptor.ClockDomain.{proc_set_clock_source_resp, proc_get_clock_source_resp}
use avdecc_lib.Descriptor.MemoryObject.{MemoryObject, proc_start_operation_resp}
use avdecc_lib.Controller.Interface.{Answer}
use avdecc_lib.Respond.Objects.{
  Station, Vector, audio_units, stream_inputs, stream_outputs, clock_domains, memory_objects, after,
  after_method, respond_to,
}
use avdecc_lib.Respond.Aem.{
  respond_entity, to_stream, to_entity_or_stream, to_audio_unit, to_entity, to_memory_object,
  started, proc_entity_avail_resp, aem_case, proc_rcvd_aem_resp,
}
use avdecc_lib.Respond.Answered.{
  IsAnswered, acquire_entity_entity, lock_entity_entity, reboot_entity, entity_available_any,
  set_stream_format_input, set_stream_format_output, get_stream_format_input,
  get_stream_format_output, set_stream_info_output, get_stream_info_input, get_stream_info_output,
  start_streaming_input, start_streaming_output, stop_streaming_input, stop_streaming_output,
  set_sampling_rate_audio_unit, get_sampling_rate_audio_unit, set_clock_source_any,
  get_clock_source_any, start_operation_memory_object, Holds, HasEntity, IsThere,
}

module _ {F : Type 0} (p : Aecpdu F) (g : Reader F) (n : Frames F) where
  -- What a command that a response ends leaves: the list in flight and the id as
  -- update_inflight_for_rcvd_resp leaves them, and the status of the frame.
  abbrev pub Updated : F → ℕ → Aecp F → Aecp F → ℕ → ℕ → Type 0
  Updated f nid m m' nid' status =
      let (m1, id, _) =
        update_inflight_for_rcvd_resp p nid (p.message_type f) (p.command_type f / 32768 % 2 == 1) f
          m in
      (m'.inflight_cmds ≡ m1.inflight_cmds) × (nid' ≡ id) × (status ≡ p.status f)

  abbrev pub Completes : F → ℕ → Aecp F → Option (Answer (Station F) (Aecp F)) → Type 0
  Completes f nid m x =
      (a : Answer (Station F) (Aecp F)) × (x ≡ some a)
      × Updated f nid m a.machine a.notification_id a.status

  abbrev Completed : {O : Type 0} → F → ℕ → Aecp F → Reply O (Aecp F) → Type 0
  Completed f nid m r = Updated f nid m r.machine r.notification_id r.status

  Completed-proc_resp :
      {O : Type 0} (c : Command) (keep : F → O → O) (nid st : ℕ) (f : F) (o : O) (m : Aecp F)
      → g.is_read c f ≡ true
      → Completed f nid m (proc_resp p g c keep nid st f o m)
  unfolding proc_resp update_inflight_for_rcvd_resp
  Completed-proc_resp c keep nid st f o m e = rw (proc_resp, e) (refl, refl, refl)

  Completes-respond_to :
      {O : Type 0} (v : Vector F O) (proc : ℕ → ℕ → F → O → Aecp F → Reply O (Aecp F))
      → (i nid st : ℕ) (f : F) (s : Station F) (m : Aecp F) → Holds v i s
      → ((o : O) → Completed f nid m (proc nid st f o m))
      → Completes f nid m (respond_to v proc i nid st f s m)
  unfolding respond_to
  Completes-respond_to v proc i nid st f s m (c, hc, (o, ho)) h =
      (after v i (proc nid st f o m) s, rw (respond_to, hc, ho) refl, h o)

  Completes-respond_entity :
      (proc : ℕ → ℕ → F → ℕ → Aecp F → Reply ℕ (Aecp F)) (nid st : ℕ) (f : F) (s : Station F)
      → (m : Aecp F) → HasEntity s
      → Completed f nid m (proc nid st f 0 m)
      → Completes f nid m (respond_entity p g n proc nid st f s m)
  unfolding respond_entity
  Completes-respond_entity proc nid st f s m (e, he) h =
      (after_method (proc nid st f 0 m) s, rw (respond_entity, he) refl, h)

  Completes-stream_input :
      (c : Command) (keep : F → StreamInput F → StreamInput F)
      → (other : ℕ → ℕ → F → StreamOutput F → Aecp F → Reply (StreamOutput F) (Aecp F))
      → (nid st : ℕ) (f : F) (s : Station F) (m : Aecp F)
      → n.descriptor (g.descriptor_type c f) ≡ stream_input
      → Holds stream_inputs (g.descriptor_index c f) s
      → g.is_read c f ≡ true
      → Completes f nid m (to_stream p g n c (proc_resp p g c keep) other nid st f s m)
  unfolding to_stream
  Completes-stream_input c keep other nid st f s m d h e =
      rw (to_stream, d)
        (Completes-respond_to stream_inputs (proc_resp p g c keep) _ nid st f s m h
          (λ o. Completed-proc_resp c keep nid st f o m e))

  Completes-stream_output :
      (c : Command) (keep : F → StreamOutput F → StreamOutput F)
      → (other : ℕ → ℕ → F → StreamInput F → Aecp F → Reply (StreamInput F) (Aecp F))
      → (nid st : ℕ) (f : F) (s : Station F) (m : Aecp F)
      → n.descriptor (g.descriptor_type c f) ≡ stream_output
      → Holds stream_outputs (g.descriptor_index c f) s
      → g.is_read c f ≡ true
      → Completes f nid m (to_stream p g n c other (proc_resp p g c keep) nid st f s m)
  unfolding to_stream
  Completes-stream_output c keep other nid st f s m d h e =
      rw (to_stream, d)
        (Completes-respond_to stream_outputs (proc_resp p g c keep) _ nid st f s m h
          (λ o. Completed-proc_resp c keep nid st f o m e))

  started-machine :
      (nid st : ℕ) (f : F) (s : Station F) (m : Aecp F) (o : MemoryObject)
      → g.is_read start_operation f ≡ true
      → Updated f nid m
          (started p g n nid st f s m o).machine
          (started p g n nid st f s m o).notification_id
          (started p g n nid st f s m o).status
  unfolding started proc_start_operation_resp proc_resp update_inflight_for_rcvd_resp
      AecpMachine.start_operation
  started-machine nid st f s m o e =
      elim (Bool-cases ((p.status f == 0) && not (g.operation_id f == 0))) [
        | inl q ↦ rw (started, e, q) (refl, refl, refl)
        | inr q ↦ rw (started, e, q) (refl, refl, refl)
      ]

  Completes-started :
      (nid st : ℕ) (f : F) (s : Station F) (m : Aecp F)
      → n.descriptor (g.descriptor_type start_operation f) ≡ memory_object
      → Holds memory_objects (g.descriptor_index start_operation f) s
      → g.is_read start_operation f ≡ true
      → Completes f nid m
          (to_memory_object p g n start_operation (started p g n nid st f s m) nid st f s m)
  unfolding to_memory_object
  Completes-started nid st f s m d (c, hc, (o, ho)) e = (
    started p g n nid st f s m o,
    rw (to_memory_object, d, hc, ho) refl,
    started-machine nid st f s m o e,
  )

  aem_case-Completes :
      {c : Command} {d : Descriptor} (w : IsAnswered c d) (now nid st : ℕ) (f : F) (s : Station F)
      → (m : Aecp F) → n.descriptor (g.descriptor_type c f) ≡ d
      → IsThere w (g.descriptor_index c f) s
      → g.is_read c f ≡ true
      → Completes f nid m (aem_case p g n c now nid st f s m)
  unfolding aem_case to_entity_or_stream to_entity to_audio_unit proc_entity_avail_resp
      default_proc_acquire_entity_resp default_proc_lock_entity_resp default_proc_reboot_resp
      proc_set_sampling_rate_resp proc_get_sampling_rate_resp proc_set_clock_source_resp
      proc_get_clock_source_resp StreamInput.proc_set_stream_format_resp
      StreamOutput.proc_set_stream_format_resp StreamInput.proc_get_stream_format_resp
      StreamOutput.proc_get_stream_format_resp StreamOutput.proc_set_stream_info_resp
      StreamInput.proc_get_stream_info_resp StreamOutput.proc_get_stream_info_resp
      StreamInput.proc_start_streaming_resp StreamOutput.proc_start_streaming_resp
      StreamInput.proc_stop_streaming_resp StreamOutput.proc_stop_streaming_resp
  aem_case-Completes acquire_entity_entity now nid st f s m e h r =
      rw (to_entity_or_stream, e)
        (Completes-respond_entity _ nid st f s m h
          (Completed-proc_resp acquire_entity _ nid st f 0 m r))
  aem_case-Completes lock_entity_entity now nid st f s m e h r =
      rw (to_entity_or_stream, e)
        (Completes-respond_entity _ nid st f s m h
          (Completed-proc_resp lock_entity _ nid st f 0 m r))
  aem_case-Completes reboot_entity now nid st f s m e h r =
      rw (to_entity, e)
        (Completes-respond_entity _ nid st f s m h (Completed-proc_resp reboot _ nid st f 0 m r))
  aem_case-Completes (entity_available_any d) now nid st f s m e h r =
      (_, refl, Completed-proc_resp entity_available (λ frame o. o) nid st f 0 m r)
  aem_case-Completes set_stream_format_input now nid st f s m e h r =
      Completes-stream_input set_stream_format _ _ nid st f s m e h r
  aem_case-Completes set_stream_format_output now nid st f s m e h r =
      Completes-stream_output set_stream_format _ _ nid st f s m e h r
  aem_case-Completes get_stream_format_input now nid st f s m e h r =
      Completes-stream_input get_stream_format _ _ nid st f s m e h r
  aem_case-Completes get_stream_format_output now nid st f s m e h r =
      Completes-stream_output get_stream_format _ _ nid st f s m e h r
  aem_case-Completes set_stream_info_output now nid st f s m e h r =
      Completes-stream_output set_stream_info _ _ nid st f s m e h r
  aem_case-Completes get_stream_info_input now nid st f s m e h r =
      Completes-stream_input get_stream_info _ _ nid st f s m e h r
  aem_case-Completes get_stream_info_output now nid st f s m e h r =
      Completes-stream_output get_stream_info _ _ nid st f s m e h r
  aem_case-Completes start_streaming_input now nid st f s m e h r =
      Completes-stream_input start_streaming _ _ nid st f s m e h r
  aem_case-Completes start_streaming_output now nid st f s m e h r =
      Completes-stream_output start_streaming _ _ nid st f s m e h r
  aem_case-Completes stop_streaming_input now nid st f s m e h r =
      Completes-stream_input stop_streaming _ _ nid st f s m e h r
  aem_case-Completes stop_streaming_output now nid st f s m e h r =
      Completes-stream_output stop_streaming _ _ nid st f s m e h r
  aem_case-Completes set_sampling_rate_audio_unit now nid st f s m e h r =
      rw (to_audio_unit, e)
        (Completes-respond_to audio_units _ _ nid st f s m h
          (λ o. Completed-proc_resp set_sampling_rate _ nid st f o m r))
  aem_case-Completes get_sampling_rate_audio_unit now nid st f s m e h r =
      rw (to_audio_unit, e)
        (Completes-respond_to audio_units _ _ nid st f s m h
          (λ o. Completed-proc_resp get_sampling_rate _ nid st f o m r))
  aem_case-Completes (set_clock_source_any d) now nid st f s m e h r =
      Completes-respond_to clock_domains _ _ nid st f s m h
        (λ o. Completed-proc_resp set_clock_source _ nid st f o m r)
  aem_case-Completes (get_clock_source_any d) now nid st f s m e h r =
      Completes-respond_to clock_domains _ _ nid st f s m h
        (λ o. Completed-proc_resp get_clock_source _ nid st f o m r)
  aem_case-Completes start_operation_memory_object now nid st f s m e h r =
      Completes-started nid st f s m e h r

  -- The id that is given back: that of the command that is found, or the one that was given.
  abbrev pub answered_id : ℕ → Option (Inflight F) → ℕ
  answered_id nid none = nid
  answered_id nid (some j) = j.cmd_notification_id

  erase_first-none :
      (t : Inflight F → Bool) (xs : List (Inflight F)) → find_if t xs ≡ none → erase_first t xs ≡ xs
  erase_first-none t [] e = refl
  erase_first-none t (x ∷ xs) e = elim (Bool-cases (t x)) [
    | inl q ↦ cc (rw q at e)
    | inr q ↦ rw q (ap (λ l. x ∷ l) (erase_first-none t xs (rw q at e)))
  ]

  abbrev Ends : ℕ → F → Aecp F → Aecp F → Type 0
  Ends nid f m m1 =
      let t = seq_id_comp (p.sequence_id f) in
      ((AecpMachine.proc_resp p nid f m1).0.inflight_cmds ≡ erase_first t m.inflight_cmds)
      × ((AecpMachine.proc_resp p nid f m1).1 ≡ answered_id nid (find_if t m.inflight_cmds))

  proc_resp-Ends :
      (nid : ℕ) (f : F) (m m1 : Aecp F) → m1.inflight_cmds ≡ m.inflight_cmds → Ends nid f m m1
  unfolding AecpMachine.proc_resp
  proc_resp-Ends nid f m m1 q =
      let t = seq_id_comp (p.sequence_id f) in
      elim (Option-cases (find_if t m.inflight_cmds)) [
        | inl e ↦
            let e1 : find_if t m1.inflight_cmds ≡ none = ap (find_if t) q ∙ e in
            rw (AecpMachine.proc_resp, e1, e, erase_first-none t m.inflight_cmds e) (q, refl)
        | inr (j, e) ↦
            let e1 : find_if t m1.inflight_cmds ≡ some j = ap (find_if t) q ∙ e in
            rw (proc_resp_matched p nid f m1 j e1, e) (ap (erase_first t) q, refl)
      ]

  update_inflight-Ends :
      (nid : ℕ) (u : Bool) (f : F) (m : Aecp F)
      → let (m1, id, _) = update_inflight_for_rcvd_resp p nid aem_response u f m in
        (m1.inflight_cmds ≡ erase_first (seq_id_comp (p.sequence_id f)) m.inflight_cmds)
        × (id ≡ answered_id nid (find_if (seq_id_comp (p.sequence_id f)) m.inflight_cmds))
  unfolding update_inflight_for_rcvd_resp proc_unsolicited
  update_inflight-Ends nid true f m = proc_resp-Ends nid f m (proc_unsolicited p nid f m) refl
  update_inflight-Ends nid false f m = proc_resp-Ends nid f m m refl

  -- For an AEM_RESPONSE message that can be read, whose object is stored, and which answers ACQUIRE_ENTITY, LOCK_ENTITY or REBOOT of an entity, ENTITY_AVAILABLE, SET or GET_STREAM_FORMAT, GET_STREAM_INFO, START or STOP_STREAMING of a stream input or output, SET_STREAM_INFO of a stream output, SET or GET_SAMPLING_RATE of an audio unit, SET or GET_CLOCK_SOURCE, or START_OPERATION of a memory object: proc_rcvd_aem_resp returns with the status in the response; it erases the first command in flight with the sequence id of the response and gives back its notification id, and where no command has that sequence id it leaves the commands in flight and the given id.
  pub proc_rcvd_aem_resp-completes :
      {c : Command} {d : Descriptor} (w : IsAnswered c d) (now nid st : ℕ) (f : F) (s : Station F)
      → (m : Aecp F) → g.command (p.command_type f % 32768) ≡ c
      → n.descriptor (g.descriptor_type c f) ≡ d
      → IsThere w (g.descriptor_index c f) s
      → g.is_read c f ≡ true
      → p.message_type f ≡ aem_response
      → let t = seq_id_comp (p.sequence_id f) in
        (a : Answer (Station F) (Aecp F)) × (proc_rcvd_aem_resp p g n now nid st f s m ≡ some a)
        × (a.machine.inflight_cmds ≡ erase_first t m.inflight_cmds)
        × (a.notification_id ≡ answered_id nid (find_if t m.inflight_cmds))
        × (a.status ≡ p.status f)
  unfolding proc_rcvd_aem_resp
  proc_rcvd_aem_resp-completes w now nid st f s m hc hd h r mt =
      let (a, ea, (ei, en, es)) = aem_case-Completes w now nid st f s m hd h r in
      let u = update_inflight-Ends nid (p.command_type f / 32768 % 2 == 1) f m in
      (a, rw (proc_rcvd_aem_resp, hc) ea, rw mt at ei ∙ u.0, rw mt at en ∙ u.1, es)
