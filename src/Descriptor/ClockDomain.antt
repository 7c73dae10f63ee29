-- ===== src/Descriptor/ClockDomain.antt =====
-- controller/lib/src/clock_domain_descriptor_imp.{h,cpp}: the object of a CLOCK_DOMAIN descriptor.
use avdecc_lib.Prelude.{ℕ, Option, none, some, [], ◌∷◌, if◌then◌else◌, ◌==◌}
use avdecc_lib.Aecp.Pdu.{Aecpdu}
use avdecc_lib.Aecp.Machine.{Aecp}
use avdecc_lib.Descriptor.Frames.{
  set_clock_source, get_clock_source, Reader, Reply, proc_resp, Owner, Sent, send_aem, aem_data,
}

-- The descriptor, as far as it is compared or changed, and the responses.
pub record ClockDomain (F : Type 0) : Type 0 where
  pub descriptor_index : ℕ
  pub clock_source_index : ℕ
  pub aem_cmd_set_clk_src_resp : Option F
  pub aem_cmd_get_clk_src_resp : Option F

-- The constructor, after a descriptor that can be read; the responses are zero.
unfoldable pub new_clock_domain : {F : Type 0} → ℕ → ℕ → ClockDomain F
new_clock_domain descriptor_index clock_source_index = record {
  descriptor_index = descriptor_index;
  clock_source_index = clock_source_index;
  aem_cmd_set_clk_src_resp = none;
  aem_cmd_get_clk_src_resp = none;
}

unfoldable pub update_clock_source_index : {F : Type 0} → ℕ → ClockDomain F → ClockDomain F
update_clock_source_index clock_source_index o = record o {
  clock_source_index = clock_source_index;
}

module _ {F : Type 0} (p : Aecpdu F) (g : Reader F) where
  unfoldable pub proc_set_clock_source_resp :
      ℕ → ℕ → F → ClockDomain F → Aecp F → Reply (ClockDomain F) (Aecp F)
  proc_set_clock_source_resp = proc_resp p g set_clock_source (λ frame o.
      let o1 = record o { aem_cmd_set_clk_src_resp = some frame } in
      if p.status frame == 0 then update_clock_source_index (g.clock_source_index frame) o1 else o1)

  unfoldable pub proc_get_clock_source_resp :
      ℕ → ℕ → F → ClockDomain F → Aecp F → Reply (ClockDomain F) (Aecp F)
  proc_get_clock_source_resp =
      proc_resp p g get_clock_source (λ frame o. record o { aem_cmd_get_clk_src_resp = some frame })

module _ {F : Type 0} (w : Owner) (desc_type : ℕ) (o : ClockDomain F) where
  unfoldable pub send_set_clock_source_cmd : ℕ → ℕ → Sent
  send_set_clock_source_cmd notification_id new_clk_src_index =
      send_aem w notification_id (w.command_len set_clock_source)
        (aem_data w set_clock_source desc_type o.descriptor_index (new_clk_src_index ∷ []))

  unfoldable pub send_get_clock_source_cmd : ℕ → Sent
  send_get_clock_source_cmd notification_id =
      send_aem w notification_id (w.command_len get_clock_source)
        (aem_data w get_clock_source desc_type o.descriptor_index [])
