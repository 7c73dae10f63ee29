-- ===== src/Descriptor/AudioUnit.antt =====
-- controller/lib/src/audio_unit_descriptor_imp.{h,cpp}: the object of a AUDIO_UNIT descriptor.
use avdecc_lib.Prelude.{ℕ, Option, none, some, [], ◌∷◌, if◌then◌else◌, ◌==◌}
use avdecc_lib.Aecp.Pdu.{Aecpdu}
use avdecc_lib.Aecp.Machine.{Aecp}
use avdecc_lib.EndStation.Descriptors.{AudioUnit}
use avdecc_lib.Descriptor.Frames.{
  set_sampling_rate, get_sampling_rate, Reader, Reply, proc_resp, Owner, Sent, send_aem, aem_data,
}

-- The descriptor, as far as it is compared, changed or read by its end station, and the responses.
pub record AudioUnitObject (F : Type 0) : Type 0 where
  pub descriptor_index : ℕ
  pub unit : AudioUnit
  pub current_sampling_rate : ℕ
  pub aem_cmd_set_sampling_rate_resp : Option F
  pub aem_cmd_get_sampling_rate_resp : Option F

-- The constructor, after a descriptor that can be read; the responses are zero.
unfoldable pub new_audio_unit : {F : Type 0} → ℕ → AudioUnit → ℕ → AudioUnitObject F
new_audio_unit descriptor_index unit current_sampling_rate = record {
  descriptor_index = descriptor_index;
  unit = unit;
  current_sampling_rate = current_sampling_rate;
  aem_cmd_set_sampling_rate_resp = none;
  aem_cmd_get_sampling_rate_resp = none;
}

unfoldable pub update_sampling_rate : {F : Type 0} → ℕ → AudioUnitObject F → AudioUnitObject F
update_sampling_rate sampling_rate o = record o { current_sampling_rate = sampling_rate }

module _ {F : Type 0} (p : Aecpdu F) (g : Reader F) where
  unfoldable pub proc_set_sampling_rate_resp :
      ℕ → ℕ → F → AudioUnitObject F → Aecp F → Reply (AudioUnitObject F) (Aecp F)
  proc_set_sampling_rate_resp = proc_resp p g set_sampling_rate (λ frame o.
      let o1 = record o { aem_cmd_set_sampling_rate_resp = some frame } in
      if p.status frame == 0 then update_sampling_rate (g.sampling_rate frame) o1 else o1)

  unfoldable pub proc_get_sampling_rate_resp :
      ℕ → ℕ → F → AudioUnitObject F → Aecp F → Reply (AudioUnitObject F) (Aecp F)
  proc_get_sampling_rate_resp =
      proc_resp p g get_sampling_rate
        (λ frame o. record o { aem_cmd_get_sampling_rate_resp = some frame })

module _ {F : Type 0} (w : Owner) (desc_type : ℕ) (o : AudioUnitObject F) where
  unfoldable pub send_set_sampling_rate_cmd : ℕ → ℕ → Sent
  send_set_sampling_rate_cmd notification_id new_sampling_rate =
      send_aem w notification_id (w.command_len set_sampling_rate)
        (aem_data w set_sampling_rate desc_type o.descriptor_index (new_sampling_rate ∷ []))

  unfoldable pub send_get_sampling_rate_cmd : ℕ → Sent
  send_get_sampling_rate_cmd notification_id =
      send_aem w notification_id (w.command_len get_sampling_rate)
        (aem_data w get_sampling_rate desc_type o.descriptor_index [])
