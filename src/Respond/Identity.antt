-- ===== src/Respond/Identity.antt =====
-- A response changes neither the entity id nor the connection status of its end station.
use avdecc_lib.Prelude.{ℕ, ◌%◌, ◌≡◌, refl, Option, some, inl, inr, arith, Option-cases}
use mathlib.Core.Option.{some-injective}
use avdecc_lib.EndStation.Read.{proc_read_desc_resp}
use avdecc_lib.Aecp.Pdu.{Aecpdu}
use avdecc_lib.Aecp.Machine.{Aecp}
use avdecc_lib.Config.Objects.{Frames}
use avdecc_lib.Acmp.Machine.{Acmp, Acmpdu}
use avdecc_lib.Respond.Acmp.{acmp_case, proc_rcvd_acmp_resp}
use avdecc_lib.Descriptor.Base.{proc_acquire_entity_resp}
use avdecc_lib.Descriptor.AudioUnit.{AudioUnitObject}
use avdecc_lib.Config.Lookups.{as_configuration}
use avdecc_lib.Descriptor.Frames.{
  AcmpMessage, get_tx_state, connect_rx, disconnect_rx, get_rx_state, get_tx_connection,
  other_message, acquire_entity, lock_entity, entity_available, read_descriptor, set_stream_format,
  get_stream_format, set_stream_info, get_stream_info, set_name, get_name, set_sampling_rate,
  get_sampling_rate, set_clock_source, get_clock_source, start_streaming, stop_streaming, reboot,
  start_operation, operation_status, set_control, other_command, Command, Reader, Reply, proc_resp,
}
use avdecc_lib.Descriptor.StreamInput.{StreamInput}
use avdecc_lib.Descriptor.StreamOutput.{StreamOutput}
use avdecc_lib.Descriptor.MemoryObject.{proc_start_operation_resp, proc_operation_status_resp}
use avdecc_lib.Controller.Interface.{Answer}
use avdecc_lib.Respond.Objects.{
  Station, Vector, respond_to, stream_inputs, stream_outputs, audio_units, clock_domains,
}
use avdecc_lib.Respond.Aem.{
  respond_entity, to_stream, to_entity_or_stream, to_audio_unit, to_entity, to_memory_object,
  started, status_told, proc_entity_avail_resp, proc_set_control_resp, read_desc, aem_case,
  proc_rcvd_aem_resp, proc_rcvd_aecp_aa_resp,
}
use avdecc_lib.Respond.Same.{Same, proc_read_desc_resp-Same}

module _ {F M : Type 0} where
  abbrev pub Keeps : Option (Answer (Station F) M) → Station F → Type 0
  Keeps x s = (a : Answer (Station F) M) → x ≡ some a → Same a.station s

  Keeps-some : (b : Answer (Station F) M) (s : Station F) → Same b.station s → Keeps (some b) s
  Keeps-some b s h a e = rw (some-injective _ _ e) at h

  Keeps-respond_to :
      {O : Type 0} (v : Vector F O) (proc : ℕ → ℕ → F → O → M → Reply O M)
      → (i nid st : ℕ) (f : F) (s : Station F) (m : M) → Keeps (respond_to v proc i nid st f s m) s
  unfolding respond_to
  Keeps-respond_to v proc i nid st f s m = ground arith

module _ {F : Type 0} (p : Aecpdu F) (g : Reader F) (n : Frames F) where
  Keeps-respond_entity :
      (proc : ℕ → ℕ → F → ℕ → Aecp F → Reply ℕ (Aecp F)) (nid st : ℕ) (f : F) (s : Station F)
      → (m : Aecp F) → Keeps (respond_entity p g n proc nid st f s m) s
  unfolding respond_entity
  Keeps-respond_entity proc nid st f s m = ground arith

  Keeps-to_stream :
      (c : Command) (pi : ℕ → ℕ → F → StreamInput F → Aecp F → Reply (StreamInput F) (Aecp F))
      → (po : ℕ → ℕ → F → StreamOutput F → Aecp F → Reply (StreamOutput F) (Aecp F))
      → (nid st : ℕ) (f : F) (s : Station F) (m : Aecp F)
      → Keeps (to_stream p g n c pi po nid st f s m) s
  unfolding to_stream
  Keeps-to_stream c pi po nid st f s m = ground (
    arith,
    Keeps-respond_to stream_inputs pi (g.descriptor_index c f) nid st f s m,
    Keeps-respond_to stream_outputs po (g.descriptor_index c f) nid st f s m,
  )

  Keeps-started :
      (c : Command) (nid st : ℕ) (f : F) (s : Station F) (m : Aecp F)
      → Keeps (to_memory_object p g n c (started p g n nid st f s m) nid st f s m) s
  unfolding to_memory_object started proc_start_operation_resp proc_resp
  Keeps-started c nid st f s m = ground arith

  Keeps-status_told :
      (c : Command) (nid st : ℕ) (f : F) (s : Station F) (m : Aecp F)
      → Keeps (to_memory_object p g n c (status_told p g n nid st f s m) nid st f s m) s
  unfolding to_memory_object status_told proc_operation_status_resp proc_resp
  Keeps-status_told c nid st f s m = ground arith

  Keeps-to_entity_or_stream :
      (c : Command) (proc : ℕ → ℕ → F → ℕ → Aecp F → Reply ℕ (Aecp F)) (nid st : ℕ) (f : F)
      → (s : Station F) (m : Aecp F) → Keeps (to_entity_or_stream p g n c proc nid st f s m) s
  unfolding to_entity_or_stream
  Keeps-to_entity_or_stream c proc nid st f s m = ground (
    arith,
    Keeps-respond_entity proc nid st f s m,
    Keeps-respond_to stream_inputs proc_acquire_entity_resp (g.descriptor_index c f) nid st f s m,
    Keeps-respond_to stream_outputs proc_acquire_entity_resp (g.descriptor_index c f) nid st f s m,
  )

  Keeps-to_entity :
      (c : Command) (proc : ℕ → ℕ → F → ℕ → Aecp F → Reply ℕ (Aecp F)) (nid st : ℕ) (f : F)
      → (s : Station F) (m : Aecp F) → Keeps (to_entity p g n c proc nid st f s m) s
  unfolding to_entity
  Keeps-to_entity c proc nid st f s m = ground (arith, Keeps-respond_entity proc nid st f s m)

  Keeps-to_audio_unit :
      (c : Command)
      → (proc : ℕ → ℕ → F → AudioUnitObject F → Aecp F → Reply (AudioUnitObject F) (Aecp F))
      → (nid st : ℕ) (f : F) (s : Station F) (m : Aecp F)
      → Keeps (to_audio_unit p g n c proc nid st f s m) s
  unfolding to_audio_unit
  Keeps-to_audio_unit c proc nid st f s m =
      ground (arith, Keeps-respond_to audio_units proc (g.descriptor_index c f) nid st f s m)

  Keeps-read_desc :
      (now nid st : ℕ) (f : F) (s : Station F) (m : Aecp F)
      → Keeps (read_desc p g n now nid st f s m) s
  unfolding read_desc
  Keeps-read_desc now nid st f s m =
      elim (Option-cases (proc_read_desc_resp p (as_configuration n) now nid f s m)) [
        | inl q ↦ rw (read_desc, q) (λ a e. cc)
        | inr (y, q) ↦
            rw (read_desc, q)
              (Keeps-some _ s (proc_read_desc_resp-Same p (as_configuration n) now nid f s m y q))
      ]

  aem_case-Keeps :
      (c : Command) (now nid st : ℕ) (f : F) (s : Station F) (m : Aecp F)
      → Keeps (aem_case p g n c now nid st f s m) s
  unfolding aem_case proc_entity_avail_resp proc_set_control_resp
  aem_case-Keeps acquire_entity now nid st f s m =
      Keeps-to_entity_or_stream acquire_entity _ nid st f s m
  aem_case-Keeps lock_entity now nid st f s m = Keeps-to_entity_or_stream lock_entity _ nid st f s m
  aem_case-Keeps entity_available now nid st f s m = ground arith
  aem_case-Keeps read_descriptor now nid st f s m = Keeps-read_desc now nid st f s m
  aem_case-Keeps set_stream_format now nid st f s m =
      Keeps-to_stream set_stream_format _ _ nid st f s m
  aem_case-Keeps get_stream_format now nid st f s m =
      Keeps-to_stream get_stream_format _ _ nid st f s m
  aem_case-Keeps set_stream_info now nid st f s m = Keeps-to_stream set_stream_info _ _ nid st f s m
  aem_case-Keeps get_stream_info now nid st f s m = Keeps-to_stream get_stream_info _ _ nid st f s m
  aem_case-Keeps start_streaming now nid st f s m = Keeps-to_stream start_streaming _ _ nid st f s m
  aem_case-Keeps stop_streaming now nid st f s m = Keeps-to_stream stop_streaming _ _ nid st f s m
  aem_case-Keeps set_name now nid st f s m = Keeps-some _ s (refl, refl)
  aem_case-Keeps get_name now nid st f s m = Keeps-some _ s (refl, refl)
  aem_case-Keeps set_sampling_rate now nid st f s m =
      Keeps-to_audio_unit set_sampling_rate _ nid st f s m
  aem_case-Keeps get_sampling_rate now nid st f s m =
      Keeps-to_audio_unit get_sampling_rate _ nid st f s m
  aem_case-Keeps set_clock_source now nid st f s m = Keeps-respond_to clock_domains _ _ nid st f s m
  aem_case-Keeps get_clock_source now nid st f s m = Keeps-respond_to clock_domains _ _ nid st f s m
  aem_case-Keeps reboot now nid st f s m = Keeps-to_entity reboot _ nid st f s m
  aem_case-Keeps start_operation now nid st f s m = Keeps-started start_operation nid st f s m
  aem_case-Keeps operation_status now nid st f s m = Keeps-status_told operation_status nid st f s m
  aem_case-Keeps set_control now nid st f s m = Keeps-some _ s (refl, refl)
  aem_case-Keeps other_command now nid st f s m = Keeps-some _ s (refl, refl)

  pub proc_rcvd_aem_resp-Keeps :
      (now nid st : ℕ) (f : F) (s : Station F) (m : Aecp F)
      → Keeps (proc_rcvd_aem_resp p g n now nid st f s m) s
  unfolding proc_rcvd_aem_resp
  proc_rcvd_aem_resp-Keeps now nid st f s m =
      aem_case-Keeps (g.command (p.command_type f % 32768)) now nid st f s m

  pub proc_rcvd_aecp_aa_resp-Keeps :
      (nid st : ℕ) (f : F) (s : Station F) (m : Aecp F)
      → Keeps (proc_rcvd_aecp_aa_resp p g n nid st f s m) s
  unfolding proc_rcvd_aecp_aa_resp
  proc_rcvd_aecp_aa_resp-Keeps nid st f s m = ground arith

module _ {F : Type 0} (q : Acmpdu F) (g : Reader F) where
  acmp_case-Keeps :
      (c : AcmpMessage) (nid st : ℕ) (f : F) (s : Station F) (m : Acmp F)
      → Keeps (acmp_case q g c nid st f s m) s
  unfolding acmp_case
  acmp_case-Keeps get_tx_state nid st f s m = Keeps-respond_to stream_outputs _ _ nid st f s m
  acmp_case-Keeps connect_rx nid st f s m = Keeps-respond_to stream_inputs _ _ nid st f s m
  acmp_case-Keeps disconnect_rx nid st f s m = Keeps-respond_to stream_inputs _ _ nid st f s m
  acmp_case-Keeps get_rx_state nid st f s m = Keeps-respond_to stream_inputs _ _ nid st f s m
  acmp_case-Keeps get_tx_connection nid st f s m = Keeps-respond_to stream_outputs _ _ nid st f s m
  acmp_case-Keeps other_message nid st f s m = Keeps-some _ s (refl, refl)

  pub proc_rcvd_acmp_resp-Keeps :
      (nid st : ℕ) (f : F) (s : Station F) (m : Acmp F)
      → Keeps (proc_rcvd_acmp_resp q g nid st f s m) s
  unfolding proc_rcvd_acmp_resp
  proc_rcvd_acmp_resp-Keeps nid st f s m =
      acmp_case-Keeps (g.acmp_response (q.message_type f)) nid st f s m
