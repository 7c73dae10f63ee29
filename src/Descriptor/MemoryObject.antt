-- ===== src/Descriptor/MemoryObject.antt =====
-- controller/lib/src/memory_object_descriptor_imp.{h,cpp}: the object of a MEMORY_OBJECT descriptor.
use avdecc_lib.Prelude.{ℕ, Bool, ◌||◌, not, [], ◌∷◌, if◌then◌else◌, ◌==◌, ltb}
use avdecc_lib.Output.{error}
use avdecc_lib.Aecp.Pdu.{Aecpdu}
use avdecc_lib.Aecp.Machine.{Aecp, update_operation_for_rcvd_resp}
use avdecc_lib.Descriptor.Frames.{
  start_operation, operation_status, Reader, Reply, proc_resp, Owner, Sent, failed_write, send_aem,
  aem_data,
}

pub record MemoryObject : Type 0 where
  pub descriptor_index : ℕ

-- JDKSAVDECC_MEMORY_OBJECT_OPERATION_UPLOAD is a constant of jdksavdecc-c.
module _ {F : Type 0} (p : Aecpdu F) (g : Reader F) where
  -- The reply, with operation_id and operation_type as they are left: given first, as what the
  -- caller's variables hold.
  unfoldable pub proc_start_operation_resp :
      ℕ → ℕ → ℕ → ℕ → F → MemoryObject → Aecp F → Reply MemoryObject (Aecp F) × ℕ × ℕ
  proc_start_operation_resp operation_id operation_type notification_id status frame o m =
      let r = proc_resp p g start_operation (λ frame o. o) notification_id status frame o m in
      if g.is_read start_operation frame
      then (r, g.operation_id frame, g.operation_type frame)
      else (r, operation_id, operation_type)

  -- The reply, operation_id and is_operation_id_valid.
  unfoldable pub proc_operation_status_resp :
      ℕ → Bool → ℕ → ℕ → F → MemoryObject → Aecp F → Reply MemoryObject (Aecp F) × ℕ × Bool
  proc_operation_status_resp operation_id is_valid notification_id status frame o m =
      let r = proc_resp p g operation_status (λ frame o. o) notification_id status frame o m in
      if g.is_read operation_status frame
      then (let id = g.operation_id frame in
          let (m1, nid, _) =
            update_operation_for_rcvd_resp p r.notification_id id (g.percent_complete frame) frame
              r.machine in
          (record r { machine = m1; notification_id = nid }, id, is_valid || not (id == 0)))
      else (r, operation_id, is_valid)

module _ (w : Owner) (operation_upload desc_type : ℕ) (o : MemoryObject) where
  -- The operation id in the command is 0. An operation type that is not known is logged, and -1
  -- returned, as after a write that fails.
  unfoldable pub start_operation_cmd : ℕ → ℕ → Sent
  start_operation_cmd notification_id operation_type =
      if ltb operation_upload operation_type
      then failed_write error
      else send_aem w notification_id (w.command_len start_operation)
          (aem_data w start_operation desc_type o.descriptor_index (0 ∷ operation_type ∷ []))
