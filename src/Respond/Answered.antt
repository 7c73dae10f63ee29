-- ===== src/Respond/Answered.antt =====
-- Commands whose response proc_rcvd_aem_resp passes to the object that it is about, and when that
-- object is there. READ_DESCRIPTOR, OPERATION_STATUS and SET_CONTROL are not among them.
use avdecc_lib.Prelude.{ℕ, ◌≡◌, some, get_elem?}
use avdecc_lib.EndStation.Descriptors.{
  Descriptor, entity, stream_input, stream_output, audio_unit, memory_object,
}
use avdecc_lib.EndStation.Read.{EntityDescriptor, current_config}
use avdecc_lib.Config.Objects.{ConfigurationDescriptor}
use avdecc_lib.Descriptor.Frames.{
  Command, acquire_entity, lock_entity, entity_available, set_stream_format, get_stream_format,
  set_stream_info, get_stream_info, set_sampling_rate, get_sampling_rate, set_clock_source,
  get_clock_source, start_streaming, stop_streaming, reboot, start_operation,
}
use avdecc_lib.Respond.Objects.{
  Station, Vector, audio_units, stream_inputs, stream_outputs, clock_domains, memory_objects,
}

-- These commands with the type of the descriptor that they are about.
pub data IsAnswered : Command → Descriptor → Type 0 where
  acquire_entity_entity : IsAnswered acquire_entity entity
  lock_entity_entity : IsAnswered lock_entity entity
  reboot_entity : IsAnswered reboot entity
  entity_available_any : (d : Descriptor) → IsAnswered entity_available d
  set_stream_format_input : IsAnswered set_stream_format stream_input
  set_stream_format_output : IsAnswered set_stream_format stream_output
  get_stream_format_input : IsAnswered get_stream_format stream_input
  get_stream_format_output : IsAnswered get_stream_format stream_output
  set_stream_info_output : IsAnswered set_stream_info stream_output
  get_stream_info_input : IsAnswered get_stream_info stream_input
  get_stream_info_output : IsAnswered get_stream_info stream_output
  start_streaming_input : IsAnswered start_streaming stream_input
  start_streaming_output : IsAnswered start_streaming stream_output
  stop_streaming_input : IsAnswered stop_streaming stream_input
  stop_streaming_output : IsAnswered stop_streaming stream_output
  set_sampling_rate_audio_unit : IsAnswered set_sampling_rate audio_unit
  get_sampling_rate_audio_unit : IsAnswered get_sampling_rate audio_unit
  set_clock_source_any : (d : Descriptor) → IsAnswered set_clock_source d
  get_clock_source_any : (d : Descriptor) → IsAnswered get_clock_source d
  start_operation_memory_object : IsAnswered start_operation memory_object

module _ {F : Type 0} where
  -- The object at the index is there.
  abbrev pub Holds : {O : Type 0} → Vector F O → ℕ → Station F → Type 0
  Holds {O} v i s =
      (c : ConfigurationDescriptor F) × (current_config s ≡ some c)
      × ((o : O) × (get_elem? (v.items c) i ≡ some o))

  abbrev pub HasEntity : Station F → Type 0
  HasEntity s =
      (e : EntityDescriptor (ConfigurationDescriptor F)) × (get_elem? s.entity_desc_vec
          s.current_entity_desc
        ≡ some e)

  abbrev pub IsThere : {c : Command} {d : Descriptor} → IsAnswered c d → ℕ → Station F → Type 0
  IsThere (entity_available_any _) i s = Unit
  IsThere acquire_entity_entity i s = HasEntity s
  IsThere lock_entity_entity i s = HasEntity s
  IsThere reboot_entity i s = HasEntity s
  IsThere set_stream_format_input i s = Holds stream_inputs i s
  IsThere set_stream_format_output i s = Holds stream_outputs i s
  IsThere get_stream_format_input i s = Holds stream_inputs i s
  IsThere get_stream_format_output i s = Holds stream_outputs i s
  IsThere set_stream_info_output i s = Holds stream_outputs i s
  IsThere get_stream_info_input i s = Holds stream_inputs i s
  IsThere get_stream_info_output i s = Holds stream_outputs i s
  IsThere start_streaming_input i s = Holds stream_inputs i s
  IsThere start_streaming_output i s = Holds stream_outputs i s
  IsThere stop_streaming_input i s = Holds stream_inputs i s
  IsThere stop_streaming_output i s = Holds stream_outputs i s
  IsThere set_sampling_rate_audio_unit i s = Holds audio_units i s
  IsThere get_sampling_rate_audio_unit i s = Holds audio_units i s
  IsThere (set_clock_source_any _) i s = Holds clock_domains i s
  IsThere (get_clock_source_any _) i s = Holds clock_domains i s
  IsThere start_operation_memory_object i s = Holds memory_objects i s
