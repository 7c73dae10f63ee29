-- ===== src/Config/Vectors.antt =====
-- The store_*_desc methods of a configuration descriptor: each adds an object to its vector. The two
-- vectors of stream ports only grow.
use avdecc_lib.Prelude.{ℕ, Option, none, some, List, [], ◌∷◌, ◌++◌}
use avdecc_lib.Descriptor.StreamInput.{StreamInput}
use avdecc_lib.Descriptor.StreamOutput.{StreamOutput}
use avdecc_lib.Descriptor.AudioUnit.{AudioUnitObject}
use avdecc_lib.Descriptor.ClockDomain.{ClockDomain}
use avdecc_lib.Descriptor.MemoryObject.{MemoryObject}
use avdecc_lib.EndStation.Descriptors.{
  Descriptor, entity, configuration, audio_unit, stream_input, stream_output, jack_input,
  jack_output, avb_interface, clock_source, memory_object, locale, strings, stream_port_input,
  stream_port_output, external_port_input, external_port_output, audio_cluster, audio_map,
  clock_domain, control, other_descriptor,
}
use avdecc_lib.Config.{add_or_replace_descriptor_and_sort}
use avdecc_lib.Config.Objects.{PlainObject, StreamPortObject, ConfigurationDescriptor, Frames}

module _ {F : Type 0} (n : Frames F) where
  -- The constructor; a read that fails is only asserted.
  unfoldable pub new_configuration : F → ConfigurationDescriptor F
  new_configuration frame = record {
    desc_type_vec = n.desc_type_vec frame;
    desc_count_vec = n.desc_count_vec frame;
    audio_unit_desc_vec = [];
    stream_input_desc_vec = [];
    stream_output_desc_vec = [];
    memory_object_desc_vec = [];
    clock_domain_desc_vec = [];
    stream_port_input_desc_vec = [];
    stream_port_output_desc_vec = [];
    locale_desc_vec = [];
    jack_input_desc_vec = [];
    jack_output_desc_vec = [];
    avb_interface_desc_vec = [];
    clock_source_desc_vec = [];
    strings_desc_vec = [];
    audio_cluster_desc_vec = [];
    audio_map_desc_vec = [];
    control_desc_vec = [];
    external_port_input_desc_vec = [];
    external_port_output_desc_vec = [];
  }

  abbrev put : {D : Type 0} → (D → ℕ) → D → List D → List D
  put index d desc_vec = add_or_replace_descriptor_and_sort index (n.sort index) d desc_vec

  unfoldable pub store_audio_unit_desc :
      AudioUnitObject F → ConfigurationDescriptor F → ConfigurationDescriptor F
  store_audio_unit_desc d c = record c {
    audio_unit_desc_vec = put (λ o. o.descriptor_index) d c.audio_unit_desc_vec;
  }

  unfoldable pub store_stream_input_desc :
      StreamInput F → ConfigurationDescriptor F → ConfigurationDescriptor F
  store_stream_input_desc d c = record c {
    stream_input_desc_vec = put (λ o. o.descriptor_index) d c.stream_input_desc_vec;
  }

  unfoldable pub store_stream_output_desc :
      StreamOutput F → ConfigurationDescriptor F → ConfigurationDescriptor F
  store_stream_output_desc d c = record c {
    stream_output_desc_vec = put (λ o. o.descriptor_index) d c.stream_output_desc_vec;
  }

  unfoldable pub store_memory_object_desc :
      MemoryObject → ConfigurationDescriptor F → ConfigurationDescriptor F
  store_memory_object_desc d c = record c {
    memory_object_desc_vec = put (λ o. o.descriptor_index) d c.memory_object_desc_vec;
  }

  unfoldable pub store_clock_domain_desc :
      ClockDomain F → ConfigurationDescriptor F → ConfigurationDescriptor F
  store_clock_domain_desc d c = record c {
    clock_domain_desc_vec = put (λ o. o.descriptor_index) d c.clock_domain_desc_vec;
  }

  unfoldable pub store_stream_port_input_desc :
      StreamPortObject → ConfigurationDescriptor F → ConfigurationDescriptor F
  store_stream_port_input_desc d c = record c {
    stream_port_input_desc_vec = c.stream_port_input_desc_vec ++ d ∷ [];
  }

  unfoldable pub store_stream_port_output_desc :
      StreamPortObject → ConfigurationDescriptor F → ConfigurationDescriptor F
  store_stream_port_output_desc d c = record c {
    stream_port_output_desc_vec = c.stream_port_output_desc_vec ++ d ∷ [];
  }

  unfoldable pub store_locale_desc :
      PlainObject → ConfigurationDescriptor F → ConfigurationDescriptor F
  store_locale_desc d c = record c {
    locale_desc_vec = put (λ o. o.descriptor_index) d c.locale_desc_vec;
  }

  unfoldable pub store_jack_input_desc :
      PlainObject → ConfigurationDescriptor F → ConfigurationDescriptor F
  store_jack_input_desc d c = record c {
    jack_input_desc_vec = put (λ o. o.descriptor_index) d c.jack_input_desc_vec;
  }

  unfoldable pub store_jack_output_desc :
      PlainObject → ConfigurationDescriptor F → ConfigurationDescriptor F
  store_jack_output_desc d c = record c {
    jack_output_desc_vec = put (λ o. o.descriptor_index) d c.jack_output_desc_vec;
  }

  unfoldable pub store_avb_interface_desc :
      PlainObject → ConfigurationDescriptor F → ConfigurationDescriptor F
  store_avb_interface_desc d c = record c {
    avb_interface_desc_vec = put (λ o. o.descriptor_index) d c.avb_interface_desc_vec;
  }

  unfoldable pub store_clock_source_desc :
      PlainObject → ConfigurationDescriptor F → ConfigurationDescriptor F
  store_clock_source_desc d c = record c {
    clock_source_desc_vec = put (λ o. o.descriptor_index) d c.clock_source_desc_vec;
  }

  unfoldable pub store_strings_desc :
      PlainObject → ConfigurationDescriptor F → ConfigurationDescriptor F
  store_strings_desc d c = record c {
    strings_desc_vec = put (λ o. o.descriptor_index) d c.strings_desc_vec;
  }

  unfoldable pub store_audio_cluster_desc :
      PlainObject → ConfigurationDescriptor F → ConfigurationDescriptor F
  store_audio_cluster_desc d c = record c {
    audio_cluster_desc_vec = put (λ o. o.descriptor_index) d c.audio_cluster_desc_vec;
  }

  unfoldable pub store_audio_map_desc :
      PlainObject → ConfigurationDescriptor F → ConfigurationDescriptor F
  store_audio_map_desc d c = record c {
    audio_map_desc_vec = put (λ o. o.descriptor_index) d c.audio_map_desc_vec;
  }

  unfoldable pub store_control_desc :
      PlainObject → ConfigurationDescriptor F → ConfigurationDescriptor F
  store_control_desc d c = record c {
    control_desc_vec = put (λ o. o.descriptor_index) d c.control_desc_vec;
  }

  unfoldable pub store_external_port_input_desc :
      PlainObject → ConfigurationDescriptor F → ConfigurationDescriptor F
  store_external_port_input_desc d c = record c {
    external_port_input_desc_vec = put (λ o. o.descriptor_index) d c.external_port_input_desc_vec;
  }

  unfoldable pub store_external_port_output_desc :
      PlainObject → ConfigurationDescriptor F → ConfigurationDescriptor F
  store_external_port_output_desc d c = record c {
    external_port_output_desc_vec = put (λ o. o.descriptor_index) d c.external_port_output_desc_vec;
  }

  unfoldable pub stored :
      {D : Type 0}
      → (D → ConfigurationDescriptor F → ConfigurationDescriptor F)
      → Option D
      → ConfigurationDescriptor F
      → Option (ConfigurationDescriptor F)
  stored f none c = none
  stored f (some d) c = some (f d c)

  -- The calls of proc_read_desc_resp; the ENTITY and CONFIGURATION descriptors are not stored in a
  -- configuration.
  unfoldable pub store_desc :
      Descriptor → F → ConfigurationDescriptor F → Option (ConfigurationDescriptor F)
  store_desc entity frame c = none
  store_desc configuration frame c = none
  store_desc other_descriptor frame c = none
  store_desc audio_unit frame c = stored store_audio_unit_desc (n.new_audio_unit frame) c
  store_desc stream_input frame c = stored store_stream_input_desc (n.new_stream_input frame) c
  store_desc stream_output frame c = stored store_stream_output_desc (n.new_stream_output frame) c
  store_desc memory_object frame c = stored store_memory_object_desc (n.new_memory_object frame) c
  store_desc clock_domain frame c = stored store_clock_domain_desc (n.new_clock_domain frame) c
  store_desc stream_port_input frame c =
      stored store_stream_port_input_desc (n.new_stream_port stream_port_input frame) c
  store_desc stream_port_output frame c =
      stored store_stream_port_output_desc (n.new_stream_port stream_port_output frame) c
  store_desc locale frame c = stored store_locale_desc (n.new_plain locale frame) c
  store_desc jack_input frame c = stored store_jack_input_desc (n.new_plain jack_input frame) c
  store_desc jack_output frame c = stored store_jack_output_desc (n.new_plain jack_output frame) c
  store_desc avb_interface frame c =
      stored store_avb_interface_desc (n.new_plain avb_interface frame) c
  store_desc clock_source frame c =
      stored store_clock_source_desc (n.new_plain clock_source frame) c
  store_desc strings frame c = stored store_strings_desc (n.new_plain strings frame) c
  store_desc audio_cluster frame c =
      stored store_audio_cluster_desc (n.new_plain audio_cluster frame) c
  store_desc audio_map frame c = stored store_audio_map_desc (n.new_plain audio_map frame) c
  store_desc control frame c = stored store_control_desc (n.new_plain control frame) c
  store_desc external_port_input frame c =
      stored store_external_port_input_desc (n.new_plain external_port_input frame) c
  store_desc external_port_output frame c =
      stored store_external_port_output_desc (n.new_plain external_port_output frame) c
