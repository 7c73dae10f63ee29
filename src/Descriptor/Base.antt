-- ===== src/Descriptor/Base.antt =====
-- controller/lib/src/descriptor_base_imp.cpp: the default methods, which the entity descriptor uses
-- (entity_descriptor_imp.cpp), and the ones that a class without an override has. What an entity
-- descriptor keeps of the last acquire, lock and reboot response is only read by its getters, and
-- left out.
use avdecc_lib.Prelude.{ℕ, [], ◌∷◌}
use avdecc_lib.Output.{error}
use avdecc_lib.Aecp.Pdu.{Aecpdu}
use avdecc_lib.Aecp.Machine.{Aecp}
use avdecc_lib.Descriptor.Frames.{
  acquire_entity, lock_entity, reboot, Reader, Reply, not_overridden, proc_resp, Owner, Sent,
  send_aem, aem_data, not_implemented,
}

module _ {F : Type 0} (p : Aecpdu F) (g : Reader F) {O : Type 0} where
  abbrev kept : F → O → O
  kept frame o = o

  unfoldable pub default_proc_acquire_entity_resp : ℕ → ℕ → F → O → Aecp F → Reply O (Aecp F)
  default_proc_acquire_entity_resp = proc_resp p g acquire_entity kept

  unfoldable pub default_proc_lock_entity_resp : ℕ → ℕ → F → O → Aecp F → Reply O (Aecp F)
  default_proc_lock_entity_resp = proc_resp p g lock_entity kept

  unfoldable pub default_proc_reboot_resp : ℕ → ℕ → F → O → Aecp F → Reply O (Aecp F)
  default_proc_reboot_resp = proc_resp p g reboot kept

module _ (w : Owner) where
  unfoldable pub default_send_acquire_entity_cmd : ℕ → ℕ → ℕ → ℕ → Sent
  default_send_acquire_entity_cmd notification_id desc_type desc_index acquire_entity_flag =
      send_aem w notification_id (w.command_len acquire_entity)
        (aem_data w acquire_entity desc_type desc_index (acquire_entity_flag ∷ []))

  unfoldable pub default_send_lock_entity_cmd : ℕ → ℕ → ℕ → ℕ → Sent
  default_send_lock_entity_cmd notification_id desc_type desc_index lock_entity_flag =
      send_aem w notification_id (w.command_len lock_entity)
        (aem_data w lock_entity desc_type desc_index (lock_entity_flag ∷ []))

  unfoldable pub default_send_reboot_cmd : ℕ → ℕ → ℕ → Sent
  default_send_reboot_cmd notification_id desc_type desc_index =
      send_aem w notification_id (w.command_len reboot) (aem_data w reboot desc_type desc_index [])

-- The methods that a class does not override.
abbrev pub proc_acquire_entity_resp : {F O : Type 0} → ℕ → ℕ → F → O → Aecp F → Reply O (Aecp F)
proc_acquire_entity_resp = not_overridden

abbrev pub proc_lock_entity_resp : {F O : Type 0} → ℕ → ℕ → F → O → Aecp F → Reply O (Aecp F)
proc_lock_entity_resp = not_overridden

abbrev pub send_acquire_entity_cmd : Sent
send_acquire_entity_cmd = not_implemented error

abbrev pub send_lock_entity_cmd : Sent
send_lock_entity_cmd = not_implemented error
