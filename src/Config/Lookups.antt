-- ===== src/Config/Lookups.antt =====
-- The get_*_desc_by_index methods of a configuration descriptor, and what it is to the end station
-- that reads it. A position out of range is NULL, and logged.
use avdecc_lib.Prelude.{ℕ, Option, none, some, length, get_elem?}
use avdecc_lib.Descriptor.StreamInput.{StreamInput}
use avdecc_lib.Descriptor.StreamOutput.{StreamOutput}
use avdecc_lib.Descriptor.AudioUnit.{AudioUnitObject}
use avdecc_lib.Descriptor.ClockDomain.{ClockDomain}
use avdecc_lib.Descriptor.MemoryObject.{MemoryObject}
use avdecc_lib.EndStation.Descriptors.{Configuration}
use avdecc_lib.Config.{get_desc_by_index}
use avdecc_lib.Config.Objects.{PlainObject, StreamPortObject, ConfigurationDescriptor, Frames}
use avdecc_lib.Config.Vectors.{new_configuration, store_desc}

abbrev pub field_of : {A B : Type 0} → (A → B) → Option A → Option B
field_of f none = none
field_of f (some a) = some (f a)

-- The loop over the counts asks for positions below the length of both vectors.
abbrev or_zero : Option ℕ → ℕ
or_zero none = 0
or_zero (some x) = x

module _ {F : Type 0} where
  abbrev pub get_audio_unit_desc_by_index :
      ConfigurationDescriptor F → ℕ → Option (AudioUnitObject F)
  get_audio_unit_desc_by_index c i = get_desc_by_index i c.audio_unit_desc_vec

  abbrev pub get_stream_input_desc_by_index : ConfigurationDescriptor F → ℕ → Option (StreamInput F)
  get_stream_input_desc_by_index c i = get_desc_by_index i c.stream_input_desc_vec

  abbrev pub get_stream_output_desc_by_index :
      ConfigurationDescriptor F → ℕ → Option (StreamOutput F)
  get_stream_output_desc_by_index c i = get_desc_by_index i c.stream_output_desc_vec

  abbrev pub get_jack_input_desc_by_index : ConfigurationDescriptor F → ℕ → Option (PlainObject)
  get_jack_input_desc_by_index c i = get_desc_by_index i c.jack_input_desc_vec

  abbrev pub get_jack_output_desc_by_index : ConfigurationDescriptor F → ℕ → Option (PlainObject)
  get_jack_output_desc_by_index c i = get_desc_by_index i c.jack_output_desc_vec

  abbrev pub get_avb_interface_desc_by_index : ConfigurationDescriptor F → ℕ → Option (PlainObject)
  get_avb_interface_desc_by_index c i = get_desc_by_index i c.avb_interface_desc_vec

  abbrev pub get_clock_source_desc_by_index : ConfigurationDescriptor F → ℕ → Option (PlainObject)
  get_clock_source_desc_by_index c i = get_desc_by_index i c.clock_source_desc_vec

  abbrev pub get_memory_object_desc_by_index : ConfigurationDescriptor F → ℕ → Option (MemoryObject)
  get_memory_object_desc_by_index c i = get_desc_by_index i c.memory_object_desc_vec

  abbrev pub get_locale_desc_by_index : ConfigurationDescriptor F → ℕ → Option (PlainObject)
  get_locale_desc_by_index c i = get_desc_by_index i c.locale_desc_vec

  abbrev pub get_strings_desc_by_index : ConfigurationDescriptor F → ℕ → Option (PlainObject)
  get_strings_desc_by_index c i = get_desc_by_index i c.strings_desc_vec

  abbrev pub get_stream_port_input_desc_by_index :
      ConfigurationDescriptor F → ℕ → Option (StreamPortObject)
  get_stream_port_input_desc_by_index c i = get_desc_by_index i c.stream_port_input_desc_vec

  abbrev pub get_stream_port_output_desc_by_index :
      ConfigurationDescriptor F → ℕ → Option (StreamPortObject)
  get_stream_port_output_desc_by_index c i = get_desc_by_index i c.stream_port_output_desc_vec

  abbrev pub get_audio_cluster_desc_by_index : ConfigurationDescriptor F → ℕ → Option (PlainObject)
  get_audio_cluster_desc_by_index c i = get_desc_by_index i c.audio_cluster_desc_vec

  abbrev pub get_audio_map_desc_by_index : ConfigurationDescriptor F → ℕ → Option (PlainObject)
  get_audio_map_desc_by_index c i = get_desc_by_index i c.audio_map_desc_vec

  abbrev pub get_clock_domain_desc_by_index : ConfigurationDescriptor F → ℕ → Option (ClockDomain F)
  get_clock_domain_desc_by_index c i = get_desc_by_index i c.clock_domain_desc_vec

  abbrev pub get_control_desc_by_index : ConfigurationDescriptor F → ℕ → Option (PlainObject)
  get_control_desc_by_index c i = get_desc_by_index i c.control_desc_vec

  abbrev pub get_external_port_input_desc_by_index :
      ConfigurationDescriptor F → ℕ → Option (PlainObject)
  get_external_port_input_desc_by_index c i = get_desc_by_index i c.external_port_input_desc_vec

  abbrev pub get_external_port_output_desc_by_index :
      ConfigurationDescriptor F → ℕ → Option (PlainObject)
  get_external_port_output_desc_by_index c i = get_desc_by_index i c.external_port_output_desc_vec

  abbrev pub get_desc_type_from_config_by_index : ConfigurationDescriptor F → ℕ → Option ℕ
  get_desc_type_from_config_by_index c i = get_elem? c.desc_type_vec i

  abbrev pub get_desc_count_from_config_by_index : ConfigurationDescriptor F → ℕ → Option ℕ
  get_desc_count_from_config_by_index c i = get_elem? c.desc_count_vec i

  abbrev pub as_configuration : Frames F → Configuration F (ConfigurationDescriptor F)
  as_configuration n = record {
    code = n.code;
    descriptor = n.descriptor;
    descriptor_index = n.descriptor_index;
    desc_type = n.desc_type;
    is_read_desc_resp = n.is_read_desc_resp;
    new_entity_descriptor = n.new_entity_descriptor;
    new_configuration = λ frame. some (new_configuration n frame);
    store_desc = store_desc n;
    descriptor_counts_count = λ c. length c.desc_type_vec;
    get_desc_type_from_config_by_index = λ c i. or_zero (get_desc_type_from_config_by_index c i);
    get_desc_count_from_config_by_index = λ c i. or_zero (get_desc_count_from_config_by_index c i);
    number_of_strings = λ c. field_of (λ o. o.number_of_strings) (get_locale_desc_by_index c 0);
    get_audio_unit_desc_by_index = λ c i. field_of (λ o. o.unit) (get_audio_unit_desc_by_index c i);
    get_stream_port_input_desc_by_index =
        λ c i. field_of (λ o. o.port) (get_stream_port_input_desc_by_index c i);
    get_stream_port_output_desc_by_index =
        λ c i. field_of (λ o. o.port) (get_stream_port_output_desc_by_index c i);
  }
