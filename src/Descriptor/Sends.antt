-- ===== src/Descriptor/Sends.antt =====
-- The send methods of the descriptor classes together: what they queue, and how long it is.
use avdecc_lib.Prelude.{
  ℕ, ◌+◌, ◌-◌, ◌≤◌, ◌≡◌, refl, true, false, inl, inr, arith, Bool-cases, [], ◌∷◌, List,
}
use avdecc_lib.Output.{error, cmd_with_notification}
use avdecc_lib.EndStation.Descriptors.{
  Descriptor, entity, stream_input, stream_output, audio_unit, clock_domain,
}
use avdecc_lib.Descriptor.Frames.{
  Command, acquire_entity, lock_entity, set_stream_format, get_stream_format, set_stream_info,
  get_stream_info, set_sampling_rate, get_sampling_rate, set_clock_source, get_clock_source,
  start_streaming, stop_streaming, reboot, Owner, Sent, system_queue_tx, failed_write,
  not_implemented, AemData, aem_frame, acmp_frame, ether_hdr_size, send_aem, aem_data,
}
use avdecc_lib.Descriptor.Base.{
  default_send_acquire_entity_cmd, default_send_lock_entity_cmd, default_send_reboot_cmd,
}
use avdecc_lib.Descriptor.StreamInput
use avdecc_lib.Descriptor.StreamInput.{StreamInput}
use avdecc_lib.Descriptor.StreamOutput
use avdecc_lib.Descriptor.StreamOutput.{StreamOutput}
use avdecc_lib.Descriptor.AudioUnit.{
  AudioUnitObject, send_set_sampling_rate_cmd, send_get_sampling_rate_cmd,
}
use avdecc_lib.Descriptor.ClockDomain.{
  ClockDomain, send_set_clock_source_cmd, send_get_clock_source_cmd,
}

-- A call of a method, on the entity descriptor by its index; without the SET_STREAM_FORMAT command of
-- an output, and without the memory object's.
pub data AemCall (F : Type 0) : Type 0 where
  entity_acquire : ℕ → ℕ → AemCall F
  entity_lock : ℕ → ℕ → AemCall F
  entity_reboot : ℕ → AemCall F
  input_set_format : StreamInput F → ℕ → AemCall F
  input_get_format : StreamInput F → AemCall F
  input_get_info : StreamInput F → AemCall F
  input_start : StreamInput F → AemCall F
  input_stop : StreamInput F → AemCall F
  output_get_format : StreamOutput F → AemCall F
  output_set_vlan_id : StreamOutput F → ℕ → AemCall F
  output_get_info : StreamOutput F → AemCall F
  output_start : StreamOutput F → AemCall F
  output_stop : StreamOutput F → AemCall F
  unit_set_rate : AudioUnitObject F → ℕ → AemCall F
  unit_get_rate : AudioUnitObject F → AemCall F
  domain_set_source : ClockDomain F → ℕ → AemCall F
  domain_get_source : ClockDomain F → AemCall F

module _ {F : Type 0} where
  abbrev pub command_of : AemCall F → Command
  command_of (entity_acquire _ _) = acquire_entity
  command_of (entity_lock _ _) = lock_entity
  command_of (entity_reboot _) = reboot
  command_of (input_set_format _ _) = set_stream_format
  command_of (input_get_format _) = get_stream_format
  command_of (input_get_info _) = get_stream_info
  command_of (input_start _) = start_streaming
  command_of (input_stop _) = stop_streaming
  command_of (output_get_format _) = get_stream_format
  command_of (output_set_vlan_id _ _) = set_stream_info
  command_of (output_get_info _) = get_stream_info
  command_of (output_start _) = start_streaming
  command_of (output_stop _) = stop_streaming
  command_of (unit_set_rate _ _) = set_sampling_rate
  command_of (unit_get_rate _) = get_sampling_rate
  command_of (domain_set_source _ _) = set_clock_source
  command_of (domain_get_source _) = get_clock_source

  abbrev pub class_of : AemCall F → Descriptor
  class_of (entity_acquire _ _) = entity
  class_of (entity_lock _ _) = entity
  class_of (entity_reboot _) = entity
  class_of (input_set_format _ _) = stream_input
  class_of (input_get_format _) = stream_input
  class_of (input_get_info _) = stream_input
  class_of (input_start _) = stream_input
  class_of (input_stop _) = stream_input
  class_of (output_get_format _) = stream_output
  class_of (output_set_vlan_id _ _) = stream_output
  class_of (output_get_info _) = stream_output
  class_of (output_start _) = stream_output
  class_of (output_stop _) = stream_output
  class_of (unit_set_rate _ _) = audio_unit
  class_of (unit_get_rate _) = audio_unit
  class_of (domain_set_source _ _) = clock_domain
  class_of (domain_get_source _) = clock_domain

  abbrev pub index_of : AemCall F → ℕ
  index_of (entity_acquire o _) = o
  index_of (entity_lock o _) = o
  index_of (entity_reboot o) = o
  index_of (input_set_format o _) = o.descriptor_index
  index_of (input_get_format o) = o.descriptor_index
  index_of (input_get_info o) = o.descriptor_index
  index_of (input_start o) = o.descriptor_index
  index_of (input_stop o) = o.descriptor_index
  index_of (output_get_format o) = o.descriptor_index
  index_of (output_set_vlan_id o _) = o.descriptor_index
  index_of (output_get_info o) = o.descriptor_index
  index_of (output_start o) = o.descriptor_index
  index_of (output_stop o) = o.descriptor_index
  index_of (unit_set_rate o _) = o.descriptor_index
  index_of (unit_get_rate o) = o.descriptor_index
  index_of (domain_set_source o _) = o.descriptor_index
  index_of (domain_get_source o) = o.descriptor_index

  -- The call, for a notification id and the type that the descriptor has.
  abbrev pub sent : Owner → ℕ → ℕ → AemCall F → Sent
  sent w nid t (entity_acquire o x) = default_send_acquire_entity_cmd w nid t o x
  sent w nid t (entity_lock o x) = default_send_lock_entity_cmd w nid t o x
  sent w nid t (entity_reboot o) = default_send_reboot_cmd w nid t o
  sent w nid t (input_set_format o x) = StreamInput.send_set_stream_format_cmd w t o nid x
  sent w nid t (input_get_format o) = StreamInput.send_get_stream_format_cmd w t o nid
  sent w nid t (input_get_info o) = StreamInput.send_get_stream_info_cmd w t o nid
  sent w nid t (input_start o) = StreamInput.send_start_streaming_cmd w t o nid
  sent w nid t (input_stop o) = StreamInput.send_stop_streaming_cmd w t o nid
  sent w nid t (output_get_format o) = StreamOutput.send_get_stream_format_cmd w t o nid
  sent w nid t (output_set_vlan_id o x) = StreamOutput.send_set_stream_info_vlan_id_cmd w t o nid x
  sent w nid t (output_get_info o) = StreamOutput.send_get_stream_info_cmd w t o nid
  sent w nid t (output_start o) = StreamOutput.send_start_streaming_cmd w t o nid
  sent w nid t (output_stop o) = StreamOutput.send_stop_streaming_cmd w t o nid
  sent w nid t (unit_set_rate o x) = send_set_sampling_rate_cmd w t o nid x
  sent w nid t (unit_get_rate o) = send_get_sampling_rate_cmd w t o nid
  sent w nid t (domain_set_source o x) = send_set_clock_source_cmd w t o nid x
  sent w nid t (domain_get_source o) = send_get_clock_source_cmd w t o nid

-- One whole frame is queued, for the descriptor and with a notification, if it can be written, and a
-- failure is logged if it cannot.
abbrev pub Queues : Owner → ℕ → ℕ → Command → ℕ → Sent → Type 0
Queues w nid t c i (system_queue_tx id flag (aem_frame mac len d target cd_len)) =
    (w.is_written d ≡ true)
    × (id ≡ nid)
    × (flag ≡ cmd_with_notification)
    × (mac ≡ w.mac)
    × (target ≡ w.entity_id)
    × (d.command ≡ c)
    × (d.descriptor_type ≡ t)
    × (d.descriptor_index ≡ i)
    × (len ≡ ether_hdr_size + w.common_control_header_len + cd_len)
Queues w nid t c i (system_queue_tx id flag (acmp_frame _ _)) = true ≡ false
Queues w nid t c i (failed_write level) =
    (level ≡ error)
    × ((d : AemData) × (w.is_written d ≡ false)
        × (d.command ≡ c)
        × (d.descriptor_type ≡ t)
        × (d.descriptor_index ≡ i))
Queues w nid t c i (not_implemented level) = true ≡ false

send_aem-Queues :
    (w : Owner) (nid t : ℕ) (c : Command) (i : ℕ) (args : List ℕ)
    → w.common_control_header_len ≤ w.command_len c
    → Queues w nid t c i (send_aem w nid (w.command_len c) (aem_data w c t i args))
unfolding send_aem
send_aem-Queues w nid t c i args h = elim (Bool-cases (w.is_written (aem_data w c t i args))) [
  | inl e ↦ rw (send_aem, e) (e, refl, refl, refl, refl, refl, refl, refl, omega (arith, h))
  | inr e ↦ rw (send_aem, e) (refl, (aem_data w c t i args, e, refl, refl, refl))
]

-- If no AEM command is shorter than the common control header, then each of these send methods queues one frame if its write succeeds, and logs an error and queues nothing if its write fails: ACQUIRE_ENTITY, LOCK_ENTITY and REBOOT of an entity descriptor, SET and GET_STREAM_FORMAT, GET_STREAM_INFO, START and STOP_STREAMING of a stream input, GET_STREAM_FORMAT, the SET_STREAM_INFO for a VLAN id, GET_STREAM_INFO, START and STOP_STREAMING of a stream output, SET and GET_SAMPLING_RATE of an audio unit, SET and GET_CLOCK_SOURCE of a clock domain. The frame is queued with a notification, to the owner's address and entity id, with the command of the method, the type and the index of the descriptor, and its length is that of the Ethernet header, the common control header and the control data.
pub sent-Queues :
    {F : Type 0} (w : Owner) (nid t : ℕ) (x : AemCall F)
    → ((c : Command) → w.common_control_header_len ≤ w.command_len c)
    → Queues w nid t (command_of x) (index_of x) (sent w nid t x)
unfolding default_send_acquire_entity_cmd default_send_lock_entity_cmd default_send_reboot_cmd
    StreamInput.send_set_stream_format_cmd StreamInput.send_get_stream_format_cmd
    StreamInput.send_get_stream_info_cmd StreamInput.send_start_streaming_cmd
    StreamInput.send_stop_streaming_cmd StreamOutput.send_get_stream_format_cmd
    StreamOutput.send_set_stream_info_vlan_id_cmd StreamOutput.send_get_stream_info_cmd
    StreamOutput.send_start_streaming_cmd StreamOutput.send_stop_streaming_cmd
    send_set_sampling_rate_cmd send_get_sampling_rate_cmd send_set_clock_source_cmd
    send_get_clock_source_cmd
sent-Queues w nid t (entity_acquire o x) h =
    send_aem-Queues w nid t acquire_entity _ _ (h acquire_entity)
sent-Queues w nid t (entity_lock o x) h = send_aem-Queues w nid t lock_entity _ _ (h lock_entity)
sent-Queues w nid t (entity_reboot o) h = send_aem-Queues w nid t reboot _ _ (h reboot)
sent-Queues w nid t (input_set_format o x) h =
    send_aem-Queues w nid t set_stream_format _ _ (h set_stream_format)
sent-Queues w nid t (input_get_format o) h =
    send_aem-Queues w nid t get_stream_format _ _ (h get_stream_format)
sent-Queues w nid t (input_get_info o) h =
    send_aem-Queues w nid t get_stream_info _ _ (h get_stream_info)
sent-Queues w nid t (input_start o) h =
    send_aem-Queues w nid t start_streaming _ _ (h start_streaming)
sent-Queues w nid t (input_stop o) h = send_aem-Queues w nid t stop_streaming _ _ (h stop_streaming)
sent-Queues w nid t (output_get_format o) h =
    send_aem-Queues w nid t get_stream_format _ _ (h get_stream_format)
sent-Queues w nid t (output_set_vlan_id o x) h =
    send_aem-Queues w nid t set_stream_info _ _ (h set_stream_info)
sent-Queues w nid t (output_get_info o) h =
    send_aem-Queues w nid t get_stream_info _ _ (h get_stream_info)
sent-Queues w nid t (output_start o) h =
    send_aem-Queues w nid t start_streaming _ _ (h start_streaming)
sent-Queues w nid t (output_stop o) h =
    send_aem-Queues w nid t stop_streaming _ _ (h stop_streaming)
sent-Queues w nid t (unit_set_rate o x) h =
    send_aem-Queues w nid t set_sampling_rate _ _ (h set_sampling_rate)
sent-Queues w nid t (unit_get_rate o) h =
    send_aem-Queues w nid t get_sampling_rate _ _ (h get_sampling_rate)
sent-Queues w nid t (domain_set_source o x) h =
    send_aem-Queues w nid t set_clock_source _ _ (h set_clock_source)
sent-Queues w nid t (domain_get_source o) h =
    send_aem-Queues w nid t get_clock_source _ _ (h get_clock_source)

-- The length of what is queued.
abbrev pub length_of : Sent → ℕ
length_of (system_queue_tx _ _ (aem_frame _ len _ _ _)) = len
length_of _ = 0

-- When its write succeeds, send_set_stream_format_cmd of a stream output queues a frame with the command type GET_STREAM_FORMAT and the new format as its data; its control data length is that of a SET_STREAM_FORMAT command, and it is shorter than this says, by as much as GET_STREAM_FORMAT is shorter than SET_STREAM_FORMAT.
pub send_set_stream_format_cmd_short :
    {F : Type 0} (w : Owner) (t : ℕ) (o : StreamOutput F) (nid format missing : ℕ)
    → w.is_written (aem_data w get_stream_format t o.descriptor_index (format ∷ [])) ≡ true
    → w.common_control_header_len ≤ w.command_len set_stream_format
    → w.command_len set_stream_format ≡ w.command_len get_stream_format + missing
    → let call = StreamOutput.send_set_stream_format_cmd w t o nid format in
      let cd_len = w.command_len set_stream_format - w.common_control_header_len in
      (call
        ≡ system_queue_tx nid cmd_with_notification (
            aem_frame w.mac
              (length_of call)
              (aem_data w get_stream_format t o.descriptor_index (format ∷ []))
              w.entity_id
              cd_len))
      × (length_of call + missing ≡ ether_hdr_size + w.common_control_header_len + cd_len)
unfolding StreamOutput.send_set_stream_format_cmd
send_set_stream_format_cmd_short w t o nid format missing e h d = (
  rw (StreamOutput.send_set_stream_format_cmd, e) refl,
  rw (StreamOutput.send_set_stream_format_cmd, e) (omega (arith, h, d)),
)
