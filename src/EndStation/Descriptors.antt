-- ===== src/EndStation/Descriptors.antt =====
-- Which descriptors a received one leads to: desc_index_from_frame and background_read_deduce_next.
-- The JDKSAVDECC_DESCRIPTOR constants and the reads of a frame are the library jdksavdecc-c's; the
-- descriptor objects of a configuration are reached through `Configuration`.
use avdecc_lib.Prelude.{ℕ, zero, suc, ◌+◌, Bool, Option, none, some}
use avdecc_lib.Output.{error}
use avdecc_lib.EndStation.Requests.{Background, act, post_log_msg, queue_background_read_request}

pub data Descriptor : Type 0 where
  entity configuration audio_unit stream_input stream_output jack_input jack_output : Descriptor
  avb_interface clock_source memory_object locale strings : Descriptor
  stream_port_input stream_port_output external_port_input external_port_output : Descriptor
  audio_cluster audio_map clock_domain control other_descriptor : Descriptor

-- A run of descriptors of one type that another descriptor names.
pub record Block : Type 0 where
  pub base : ℕ
  pub number : ℕ

pub record AudioUnit : Type 0 where
  pub stream_input_port : Block
  pub stream_output_port : Block
  pub external_input_port : Block
  pub external_output_port : Block
  pub control_block : Block

pub record StreamPort : Type 0 where
  pub controls : Block
  pub clusters : Block
  pub maps : Block

-- The operations of a configuration `C` and the fields of a frame `F`. A constructor of a
-- descriptor object that throws, and a look-up that returns NULL, are none.
pub record Configuration (F C : Type 0) : Type 0 where
  pub code : Descriptor → ℕ
  pub descriptor : ℕ → Descriptor
  pub descriptor_index : Descriptor → F → ℕ
  pub desc_type : F → ℕ
  pub is_read_desc_resp : F → Bool
  pub new_entity_descriptor : F → Option ℕ
  pub new_configuration : F → Option C
  pub store_desc : Descriptor → F → C → Option C
  pub descriptor_counts_count : C → ℕ
  pub get_desc_type_from_config_by_index : C → ℕ → ℕ
  pub get_desc_count_from_config_by_index : C → ℕ → ℕ
  pub number_of_strings : C → Option ℕ
  pub get_audio_unit_desc_by_index : C → ℕ → Option AudioUnit
  pub get_stream_port_input_desc_by_index : C → ℕ → Option StreamPort
  pub get_stream_port_output_desc_by_index : C → ℕ → Option StreamPort

module _ {F C : Type 0} (k : Configuration F C) where
  -- The index of the descriptor, if the type is a known one.
  unfoldable pub index_of : Descriptor → F → Option ℕ
  index_of entity frame = some 0
  index_of other_descriptor frame = none
  index_of d frame = some (k.descriptor_index d frame)

  unfoldable pub desc_index_from_frame : ℕ → F → Option ℕ
  desc_index_from_frame desc_type frame = index_of (k.descriptor desc_type) frame

  abbrev pub queue_block : Descriptor → Block → Background → Background
  queue_block d block b = queue_background_read_request (k.code d) block.base block.number b

  -- The loop over the counts of a configuration, from `j` on, `n` of them.
  unfoldable pub queue_counts : C → ℕ → ℕ → Background → Background
  queue_counts cd j zero b = b
  queue_counts cd j (suc n) b = queue_counts cd (j + 1) n (
      queue_background_read_request (k.get_desc_type_from_config_by_index cd j) 0
        (k.get_desc_count_from_config_by_index cd j) b)

  unfoldable pub queue_strings : Option ℕ → Background → Option Background
  queue_strings none b = none
  queue_strings (some n) b = some (queue_background_read_request (k.code strings) 0 n b)

  unfoldable pub queue_audio_unit : Option AudioUnit → Background → Option Background
  queue_audio_unit none b = none
  queue_audio_unit (some aud) b =
      let b1 = queue_block stream_port_input aud.stream_input_port b in
      let b2 = queue_block stream_port_output aud.stream_output_port b1 in
      let b3 = queue_block external_port_input aud.external_input_port b2 in
      let b4 = queue_block external_port_output aud.external_output_port b3 in
      some (queue_block control aud.control_block b4)

  unfoldable pub queue_stream_port : Option StreamPort → Background → Option Background
  queue_stream_port none b = none
  queue_stream_port (some sp) b =
      let b1 = queue_block control sp.controls b in
      let b2 = queue_block audio_cluster sp.clusters b1 in some (queue_block audio_map sp.maps b2)

  abbrev index_or_zero : Option ℕ → ℕ
  index_or_zero none = 0
  index_or_zero (some i) = i

  -- The switch, for a configuration that is there.
  unfoldable pub deduce : Descriptor → ℕ → C → Background → Option Background
  deduce entity i cd b = some (queue_background_read_request (k.code configuration) 0 1 b)
  deduce configuration i cd b = some (queue_counts cd 0 (k.descriptor_counts_count cd) b)
  deduce locale i cd b = queue_strings (k.number_of_strings cd) b
  deduce audio_unit i cd b = queue_audio_unit (k.get_audio_unit_desc_by_index cd i) b
  deduce stream_port_input i cd b = queue_stream_port (k.get_stream_port_input_desc_by_index cd i) b
  deduce stream_port_output i cd b =
      queue_stream_port (k.get_stream_port_output_desc_by_index cd i) b
  deduce _ i cd b = some b

  -- Without a configuration.
  unfoldable pub deduce_without : Descriptor → Background → Background
  deduce_without entity b = queue_background_read_request (k.code configuration) 0 1 b
  deduce_without _ b = act (post_log_msg error) b

  -- none stands for a call through a null pointer.
  unfoldable pub background_read_deduce_next : Option C → ℕ → F → Background → Option Background
  background_read_deduce_next none desc_type frame b =
      some (deduce_without (k.descriptor desc_type) b)
  background_read_deduce_next (some cd) desc_type frame b =
      deduce (k.descriptor desc_type) (index_or_zero (desc_index_from_frame desc_type frame)) cd b
