-- ===== src/Config/Objects.antt =====
-- A configuration descriptor object with its 18 vectors. What the frame of a descriptor holds is a
-- parameter; so is std::sort.
use avdecc_lib.Prelude.{ℕ, Bool, Option, List}
use avdecc_lib.Descriptor.StreamInput.{StreamInput}
use avdecc_lib.Descriptor.StreamOutput.{StreamOutput}
use avdecc_lib.Descriptor.AudioUnit.{AudioUnitObject}
use avdecc_lib.Descriptor.ClockDomain.{ClockDomain}
use avdecc_lib.Descriptor.MemoryObject.{MemoryObject}
use avdecc_lib.EndStation.Descriptors.{Descriptor, StreamPort}

-- A descriptor object of another class: its index, and for a locale number_of_strings().
pub record PlainObject : Type 0 where
  pub descriptor_index : ℕ
  pub number_of_strings : ℕ

pub record StreamPortObject : Type 0 where
  pub descriptor_index : ℕ
  pub port : StreamPort

pub record ConfigurationDescriptor (F : Type 0) : Type 0 where
  pub desc_type_vec : List ℕ
  pub desc_count_vec : List ℕ
  pub audio_unit_desc_vec : List (AudioUnitObject F)
  pub stream_input_desc_vec : List (StreamInput F)
  pub stream_output_desc_vec : List (StreamOutput F)
  pub memory_object_desc_vec : List MemoryObject
  pub clock_domain_desc_vec : List (ClockDomain F)
  pub stream_port_input_desc_vec : List StreamPortObject
  pub stream_port_output_desc_vec : List StreamPortObject
  pub locale_desc_vec : List PlainObject
  pub jack_input_desc_vec : List PlainObject
  pub jack_output_desc_vec : List PlainObject
  pub avb_interface_desc_vec : List PlainObject
  pub clock_source_desc_vec : List PlainObject
  pub strings_desc_vec : List PlainObject
  pub audio_cluster_desc_vec : List PlainObject
  pub audio_map_desc_vec : List PlainObject
  pub control_desc_vec : List PlainObject
  pub external_port_input_desc_vec : List PlainObject
  pub external_port_output_desc_vec : List PlainObject

-- The constructors of the descriptor objects; none is one that throws. The type codes, and the reads
-- of a READ_DESCRIPTOR response.
pub record Frames (F : Type 0) : Type 1 where
  pub code : Descriptor → ℕ
  pub descriptor : ℕ → Descriptor
  pub descriptor_index : Descriptor → F → ℕ
  pub desc_type : F → ℕ
  pub is_read_desc_resp : F → Bool
  pub new_entity_descriptor : F → Option ℕ
  pub new_audio_unit : F → Option (AudioUnitObject F)
  pub new_stream_input : F → Option (StreamInput F)
  pub new_stream_output : F → Option (StreamOutput F)
  pub new_memory_object : F → Option MemoryObject
  pub new_clock_domain : F → Option (ClockDomain F)
  pub new_stream_port : Descriptor → F → Option StreamPortObject
  pub new_plain : Descriptor → F → Option PlainObject
  -- The vectors of the types and the counts of a CONFIGURATION descriptor.
  pub desc_type_vec : F → List ℕ
  pub desc_count_vec : F → List ℕ
  -- std::sort with operator<.
  pub sort : {D : Type 0} → (D → ℕ) → List D → List D
